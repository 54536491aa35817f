-- ===== src/Sublist/Literal.antt =====
-- `matchLiteral`, the test of the cache, against matching by tokens.
use gnatsd.Prelude.{
  ℕ, Bool, true, false, [], ◌∷◌, Bytes, ◌≡◌, refl, sym, ◌==◌, if◌then◌else◌, bytes_eq, arith,
  Bool-cases, inl, inr,
}
use gnatsd.Sublist.Subject.{
  literal, kind, is_empty, split, btsep, pwc, fwc, skip_token, match_literal,
}
use gnatsd.Sublist.Hits.{matches, token_matches}
use gnatsd.Sublist.Split.{
  tokens-cons, first, rest, split_lem, Mode, start, inside, after, well_formed_from, well_formed,
  no_empty_token,
}

-- Matching of two suffixes by their tokens.
abbrev covers : Bytes → Bytes → Bool
covers s lit = token_matches (kind (first s)) (first s) (first lit) (matches (rest s) (rest lit))

-- Past `*` both sides stand at a dot, or at the end.
first-skip_token : (lit : Bytes) → first (skip_token lit) ≡ []
unfolding first skip_token
first-skip_token [] = refl
first-skip_token (c ∷ lit) = elim (Bool-cases (c == btsep)) [
  | inl e ↦ rw (e, e)
  | inr e ↦ rw e (first-skip_token lit)
]

rest-skip_token : (lit : Bytes) → rest (skip_token lit) ≡ rest lit
unfolding rest skip_token
rest-skip_token [] = refl
rest-skip_token (c ∷ lit) = elim (Bool-cases (c == btsep)) [
  | inl e ↦ rw (e, e)
  | inr e ↦ rw e (rest-skip_token lit)
]

kind-inside : (s : Bytes) → well_formed_from inside s ≡ true → kind (first s) ≡ literal
unfolding kind first well_formed_from
kind-inside [] h = refl
kind-inside (c ∷ s) h = ground arith

first-after : (s : Bytes) → well_formed_from after s ≡ true → first s ≡ []
unfolding first well_formed_from
first-after [] h = refl
first-after (c ∷ s) h = ground arith

inside-after : (s : Bytes) → well_formed_from after s ≡ true → well_formed_from inside s ≡ true
unfolding well_formed_from
inside-after [] h = refl
inside-after (c ∷ s) h = ground arith

no_empty_token-skip_token :
    (fresh : Bool) (lit : Bytes)
    → no_empty_token fresh lit ≡ true
    → no_empty_token false (skip_token lit) ≡ true
unfolding no_empty_token skip_token
no_empty_token-skip_token fresh [] h = refl
no_empty_token-skip_token fresh (c ∷ lit) h = elim (Bool-cases (c == btsep)) [
  | inl e ↦ ground arith
  | inr e ↦ rw e (no_empty_token-skip_token false lit (ground arith))
]

abbrev mode : Bool → Mode
mode fresh = if fresh then start else inside

empty-covers :
    (fresh : Bool) (lit : Bytes)
    → well_formed_from (mode fresh) [] ≡ true
    → is_empty lit ≡ covers [] lit
unfolding well_formed_from first rest matches kind bytes_eq is_empty
empty-covers true lit h = cc
empty-covers false [] h = refl
empty-covers false (x ∷ lit) h = ground (arith, tokens-cons lit)

covers-empty :
    (fresh : Bool) (c : ℕ) (s : Bytes)
    → well_formed_from (mode fresh) (c ∷ s) ≡ true
    → no_empty_token fresh [] ≡ true
    → covers (c ∷ s) [] ≡ false
unfolding well_formed_from no_empty_token first rest matches kind bytes_eq
covers-empty true c s h k = ground arith
covers-empty false c s h k = ground (arith, tokens-cons s)

star_after :
    (fresh : Bool) (c : ℕ) (s : Bytes)
    → well_formed_from (mode fresh) (c ∷ s) ≡ true
    → (c == pwc) ≡ true
    → well_formed_from after s ≡ true
unfolding well_formed_from
star_after true c s h e = ground arith
star_after false c s h e = ground arith

byte_inside :
    (fresh : Bool) (c : ℕ) (s : Bytes)
    → well_formed_from (mode fresh) (c ∷ s) ≡ true
    → (c == pwc) ≡ false
    → (c == fwc) ≡ false
    → (c == btsep) ≡ false
    → well_formed_from inside s ≡ true
unfolding well_formed_from
byte_inside true c s h e f d = ground arith
byte_inside false c s h e f d = ground arith

module _ (fresh : Bool) (c x : ℕ) (s lit : Bytes)
    (wf : well_formed_from (mode fresh) (c ∷ s) ≡ true)
    (ne : no_empty_token fresh (x ∷ lit) ≡ true) where
  star_step :
      (c == pwc) ≡ true
      → (well_formed_from inside s ≡ true
          → no_empty_token false (skip_token (x ∷ lit)) ≡ true
          → match_literal (skip_token (x ∷ lit)) s ≡ covers s (skip_token (x ∷ lit)))
      → match_literal (skip_token (x ∷ lit)) s ≡ covers (c ∷ s) (x ∷ lit)
  unfolding well_formed_from first rest kind bytes_eq
  star_step e ih =
      let a = star_after fresh c s wf e in
      rw
        (
          ih (inside-after s a) (no_empty_token-skip_token fresh (x ∷ lit) ne),
          first-skip_token (x ∷ lit),
          rest-skip_token (x ∷ lit),
          first-after s a,
        )
        (ground arith)

  dot_step :
      (c == btsep) ≡ true
      → (x == btsep) ≡ true
      → (well_formed_from start s ≡ true
          → no_empty_token true lit ≡ true
          → match_literal lit s ≡ covers s lit)
      → match_literal lit s ≡ covers (c ∷ s) (x ∷ lit)
  unfolding well_formed_from no_empty_token first rest matches kind bytes_eq
  dot_step e d ih = ground (arith, tokens-cons s, tokens-cons lit)

  byte_step :
      (c == pwc) ≡ false
      → (c == fwc) ≡ false
      → (c == btsep) ≡ false
      → (c == x) ≡ true
      → no_empty_token false lit ≡ true
      → (well_formed_from inside s ≡ true
          → no_empty_token false lit ≡ true
          → match_literal lit s ≡ covers s lit)
      → match_literal lit s ≡ covers (c ∷ s) (x ∷ lit)
  unfolding well_formed_from first rest kind bytes_eq
  byte_step e f d g ne_lit ih =
      ground (arith, byte_inside fresh c s wf e f d, ne_lit, kind-inside s)

  other_step :
      (c == pwc) ≡ false → (c == fwc) ≡ false → (c == x) ≡ false → false ≡ covers (c ∷ s) (x ∷ lit)
  unfolding first kind bytes_eq
  other_step e f g = ground arith

full_step :
    (fresh : Bool) (c x : ℕ) (s lit : Bytes)
    → well_formed_from (mode fresh) (c ∷ s) ≡ true
    → (c == pwc) ≡ false
    → (c == fwc) ≡ true
    → covers (c ∷ s) (x ∷ lit) ≡ true
unfolding first kind well_formed_from
full_step true c x s lit h e f = ground arith
full_step false c x s lit h e f = ground arith

no_empty_token-inside :
    (fresh : Bool) (x : ℕ) (lit : Bytes)
    → no_empty_token fresh (x ∷ lit) ≡ true
    → (x == btsep) ≡ false
    → no_empty_token false lit ≡ true
unfolding no_empty_token
no_empty_token-inside fresh x lit h e = ground arith

not-dot : (c x : ℕ) → (c == x) ≡ true → (c == btsep) ≡ false → (x == btsep) ≡ false
not-dot c x e f = ground arith

dot-same : (c x : ℕ) → (c == x) ≡ true → (c == btsep) ≡ true → (x == btsep) ≡ true
dot-same c x e f = ground arith

match_literal-covers :
    (fresh : Bool) (lit s : Bytes)
    → well_formed_from (mode fresh) s ≡ true
    → no_empty_token fresh lit ≡ true
    → match_literal lit s ≡ covers s lit
unfolding match_literal
match_literal-covers fresh lit [] h k = empty-covers fresh lit h
match_literal-covers fresh [] (c ∷ s) h k = sym (covers-empty fresh c s h k)
match_literal-covers fresh (x ∷ lit) (c ∷ s) h k = elim (Bool-cases (c == pwc)) [
  | inl any ↦
      rw any
        (star_step fresh c x s lit h k any (match_literal-covers false (skip_token (x ∷ lit)) s))
  | inr e ↦ rw e (elim (Bool-cases (c == fwc)) [
    | inl all ↦ rw all (sym (full_step fresh c x s lit h e all))
    | inr f ↦ rw f (elim (Bool-cases (c == x)) [
      | inr g ↦ rw g (other_step fresh c x s lit h k e f g)
      | inl g ↦ rw g (elim (Bool-cases (c == btsep)) [
        | inl d ↦
            dot_step fresh c x s lit h k d (dot-same c x g d) (match_literal-covers true lit s)
        | inr d ↦
            byte_step fresh c x s lit h k e f d g
              (no_empty_token-inside fresh x lit k (not-dot c x g d))
              (match_literal-covers false lit s)
      ])
    ])
  ])
]

-- On a well-formed subject the test of the cache agrees with the trie: it holds of a published
-- subject without empty tokens exactly if the tokens of the pattern cover its tokens.
pub match_literal-matches :
    (lit subject : Bytes)
    → well_formed subject ≡ true
    → no_empty_token true lit ≡ true
    → match_literal lit subject ≡ matches (split subject) (split lit)
unfolding matches
match_literal-matches lit subject h k =
    rw (split_lem, split_lem) (match_literal-covers true lit subject h k)
