-- ===== src/Conf/Parser/RoundTrip.antt =====
-- The items of a value, and what conf/parse.go makes of them.
use gnatsd.Prelude.{
  Bool, true, false, List, [], ◌∷◌, Bytes, Option, none, some, bytes_eq, codes, ◌&&◌, ◌≡◌, refl,
  sym, ◌∙◌, ap, ap₂, arith, if◌then◌else◌, Bool-cases, inl, inr,
}
use gnatsd.Conf.Lexer.{
  Item, ItemType, item_key, item_string, item_bool, item_array_start, item_array_end,
  item_map_start, item_map_end, item_eof,
}
use gnatsd.Conf.Parser.{
  Value, str, bool, int, float, time, array, mapping, Values, nil, cons, Fields, end, field, snoc,
  set_field, get_field, Parser, Result, ok, panic, set_at, set_value, set_in_map, pop_context,
  pop_contexts,
}
use gnatsd.Conf.Parser.Items.{Libs, done, then_process, process, process_item, process_bool}
use gnatsd.Conf.Parser.Files.{initial, parsed, bottom}

abbrev pub item : ItemType → Bytes → Item
item typ val = record { typ = typ; val = val; line = 1 }

-- The items of a value, before `rest`.
unfoldable mutual
  pub value_items : Value → List Item → List Item
  value_items (str s) rest = item item_string s ∷ rest
  value_items (bool b) rest = item item_bool (if b then codes "true" else codes "false") ∷ rest
  value_items (array vs) rest =
      item item_array_start [] ∷ values_items vs (item item_array_end [] ∷ rest)
  value_items (mapping fs) rest =
      item item_map_start [] ∷ fields_items fs (item item_map_end [] ∷ rest)
  value_items _ rest = rest

  pub values_items : Values → List Item → List Item
  values_items nil rest = rest
  values_items (cons v vs) rest = value_items v (values_items vs rest)

  pub fields_items : Fields → List Item → List Item
  fields_items end rest = rest
  fields_items (field k v fs) rest = item item_key k ∷ value_items v (fields_items fs rest)

abbrev is_fresh : Option Value → Bool
is_fresh none = true
is_fresh (some v) = false

-- Strings, booleans, arrays and maps, with no key twice in a map.
unfoldable mutual
  pub is_plain : Value → Bool
  is_plain (str s) = true
  is_plain (bool b) = true
  is_plain (array vs) = are_plain vs
  is_plain (mapping fs) = has_plain fs
  is_plain _ = false

  pub are_plain : Values → Bool
  are_plain nil = true
  are_plain (cons v vs) = is_plain v && are_plain vs

  pub has_plain : Fields → Bool
  has_plain end = true
  has_plain (field k v fs) = is_fresh (get_field k fs) && (is_plain v && has_plain fs)

abbrev snocs : Values → Values → Values
snocs acc nil = acc
snocs acc (cons v vs) = snocs (snoc acc v) vs

abbrev joined : Values → Values → Values
joined nil vs = vs
joined (cons w ws) vs = cons w (joined ws vs)

joined-snoc :
    (acc : Values) (v : Value) (vs : Values) → joined (snoc acc v) vs ≡ joined acc (cons v vs)
unfolding snoc
joined-snoc nil v vs = refl
joined-snoc (cons w acc) v vs = ap (cons w) (joined-snoc acc v vs)

joined-nil : (acc : Values) → joined acc nil ≡ acc
joined-nil nil = refl
joined-nil (cons w acc) = ap (cons w) (joined-nil acc)

snocs-joined : (acc vs : Values) → snocs acc vs ≡ joined acc vs
snocs-joined acc nil = sym (joined-nil acc)
snocs-joined acc (cons v vs) = snocs-joined (snoc acc v) vs ∙ joined-snoc acc v vs

abbrev set_fields : Fields → Fields → Fields
set_fields acc end = acc
set_fields acc (field k v fs) = set_fields (set_field k v acc) fs

abbrev united : Fields → Fields → Fields
united end fs = fs
united (field k v acc) fs = field k v (united acc fs)

united-end : (acc : Fields) → united acc end ≡ acc
united-end end = refl
united-end (field k v acc) = ap (field k v) (united-end acc)

and_parts : (a b : Bool) → (a && b) ≡ true → (a ≡ true) × (b ≡ true)
and_parts true b h = (refl, h)
and_parts false b h = cc

bytes_eq_comm : (xs ys : Bytes) → bytes_eq xs ys ≡ bytes_eq ys xs
unfolding bytes_eq
bytes_eq_comm [] [] = refl
bytes_eq_comm [] (y ∷ ys) = refl
bytes_eq_comm (x ∷ xs) [] = refl
bytes_eq_comm (x ∷ xs) (y ∷ ys) = ground (arith, bytes_eq_comm xs ys)

-- A fresh key behind another is another key.
fresh-ne :
    (j k : Bytes) (v : Value) (fs : Fields)
    → is_fresh (get_field j (field k v fs)) ≡ true
    → (bytes_eq j k ≡ false) × (is_fresh (get_field j fs) ≡ true)
unfolding get_field
fresh-ne j k v fs h = elim (Bool-cases (bytes_eq k j)) [
  | inl t ↦ absurd (ground (arith, t, h))
  | inr t ↦ (bytes_eq_comm j k ∙ t, ground (arith, t, h))
]

-- No key of the first map is in the second.
abbrev disjoint : Fields → Fields → Bool
disjoint end fs = true
disjoint (field k v acc) fs = is_fresh (get_field k fs) && disjoint acc fs

-- A key that is not there is set behind the others.
set_field_behind :
    (acc : Fields) (k : Bytes) (v : Value) (fs : Fields)
    → disjoint acc (field k v fs) ≡ true
    → united (set_field k v acc) fs ≡ united acc (field k v fs)
unfolding set_field
set_field_behind end k v fs h = refl
set_field_behind (field j w acc) k v fs h =
    let (f, d) = and_parts _ _ h in
    let (n, _) = fresh-ne j k v fs f in rw n (ap (field j w) (set_field_behind acc k v fs d))

disjoint-set_field :
    (acc : Fields) (k : Bytes) (v : Value) (fs : Fields)
    → disjoint acc (field k v fs) ≡ true
    → is_fresh (get_field k fs) ≡ true
    → disjoint (set_field k v acc) fs ≡ true
unfolding set_field
disjoint-set_field end k v fs h f = ground (arith, f)
disjoint-set_field (field j w acc) k v fs h f =
    let (g, d) = and_parts _ _ h in
    let (n, g') = fresh-ne j k v fs g in rw n (ap₂ ◌&&◌ g' (disjoint-set_field acc k v fs d f))

set_fields-united :
    (acc fs : Fields)
    → disjoint acc fs ≡ true
    → has_plain fs ≡ true
    → set_fields acc fs ≡ united acc fs
unfolding is_plain are_plain has_plain
set_fields-united acc end d h = sym (united-end acc)
set_fields-united acc (field k v fs) d h =
    let (f, g) = and_parts _ _ h in
    let (_, p) = and_parts _ _ g in
    set_fields-united (set_field k v acc) fs (disjoint-set_field acc k v fs d f) p
    ∙ set_field_behind acc k v fs d

-- A parser with these stacks.
abbrev pub at : List Value → List Bytes → Bytes → Parser
at ctxs keys fp = record { ctxs = ctxs; keys = keys; fp = fp }

module _ (libs : Libs) (env : Bytes → Result (Option Value)) (file : Bytes → Result Fields)
    (lower_true : libs.to_lower (codes "true") ≡ codes "true")
    (lower_false : libs.to_lower (codes "false") ≡ codes "false") where
  process_bool_lem :
      (b : Bool) (p : Parser)
      → process_bool libs (if b then codes "true" else codes "false") p ≡ set_value (bool b) p
  unfolding process_bool bytes_eq
  process_bool_lem true p = rw lower_true refl
  process_bool_lem false p = rw lower_false refl

  mutual
    unfolding process process_item set_value set_at set_in_map is_plain are_plain has_plain
        value_items values_items fields_items pop_context pop_contexts

    value_items-process :
        (v : Value) (rest : List Item) (c : Value) (cs : List Value) (keys : List Bytes)
        (fp : Bytes)
        → is_plain v ≡ true
        → process libs env file (value_items v rest) (at (c ∷ cs) keys fp)
          ≡ then_process (set_value v (at (c ∷ cs) keys fp)) (process libs env file rest)
    value_items-process (str s) rest c cs keys fp h = refl
    value_items-process (bool b) rest c cs keys fp h =
        ap (λ r. then_process r (process libs env file rest))
          (process_bool_lem b (at (c ∷ cs) keys fp))
    value_items-process (array vs) rest c cs keys fp h =
        values_items-process vs (item item_array_end [] ∷ rest) nil (c ∷ cs) keys fp h
        ∙ ap
            (λ ws.
              then_process (set_value (array ws) (at (c ∷ cs) keys fp))
                (process libs env file rest))
            (snocs-joined nil vs)
    value_items-process (mapping fs) rest c cs keys fp h =
        fields_items-process fs (item item_map_end [] ∷ rest) end (c ∷ cs) keys fp h
        ∙ ap
            (λ ws.
              then_process (set_value (mapping ws) (at (c ∷ cs) keys fp))
                (process libs env file rest))
            (set_fields-united end fs refl h)
    value_items-process (int n) rest c cs keys fp h = cc
    value_items-process (float n) rest c cs keys fp h = cc
    value_items-process (time n) rest c cs keys fp h = cc

    values_items-process :
        (vs : Values) (rest : List Item) (acc : Values) (cs : List Value) (keys : List Bytes)
        (fp : Bytes)
        → are_plain vs ≡ true
        → process libs env file (values_items vs rest) (at (array acc ∷ cs) keys fp)
          ≡ process libs env file rest (at (array (snocs acc vs) ∷ cs) keys fp)
    values_items-process nil rest acc cs keys fp h = refl
    values_items-process (cons v vs) rest acc cs keys fp h =
        let (a, b) = and_parts _ _ h in
        value_items-process v (values_items vs rest) (array acc) cs keys fp a
        ∙ values_items-process vs rest (snoc acc v) cs keys fp b

    fields_items-process :
        (fs : Fields) (rest : List Item) (acc : Fields) (cs : List Value) (keys : List Bytes)
        (fp : Bytes)
        → has_plain fs ≡ true
        → process libs env file (fields_items fs rest) (at (mapping acc ∷ cs) keys fp)
          ≡ process libs env file rest (at (mapping (set_fields acc fs) ∷ cs) keys fp)
    fields_items-process end rest acc cs keys fp h = refl
    fields_items-process (field k v fs) rest acc cs keys fp h =
        let (_, g) = and_parts _ _ h in
        let (a, b) = and_parts _ _ g in
        value_items-process v (fields_items fs rest) (mapping acc) cs (k ∷ keys) fp a
        ∙ fields_items-process fs rest (set_field k v acc) cs keys fp b

  -- The items of a mapping of strings, booleans, arrays and mappings, no key of which comes twice in
  -- one mapping, and the end of the file behind them, are parsed to this mapping, where the library
  -- keeps `true` and `false` in lower case, whatever files and environment there are. No key and no
  -- context stays behind on the stacks.
  pub process-fields_items :
      (fs : Fields) (fp : Bytes)
      → has_plain fs ≡ true
      → (process libs env file (fields_items fs (item item_eof [] ∷ [])) (initial fp)
          ≡ done (at (mapping fs ∷ []) [] fp))
        × (parsed panic
              (process libs env file (fields_items fs (item item_eof [] ∷ [])) (initial fp))
            ≡ ok fs)
  unfolding process bottom
  process-fields_items fs fp h =
      let e =
        fields_items-process fs (item item_eof [] ∷ []) end [] [] fp h
        ∙ ap (λ gs. done (at (mapping gs ∷ []) [] fp)) (set_fields-united end fs refl h) in
      (e, ap (parsed panic) e)
