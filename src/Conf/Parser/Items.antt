-- ===== src/Conf/Parser/Items.antt =====
-- conf/parse.go: `processItem`, and the loop of `parse` over the items.
use gnatsd.Prelude.{
  ℕ, ◌*◌, ◌%◌, ◌^◌, Bool, true, false, List, [], ◌∷◌, Bytes, Option, none, some, bytes_eq, ◌||◌,
  if◌then◌else◌, codes, take, drop,
}
use gnatsd.Conf.Lexer.{
  Item, ItemType, item_error, item_eof, item_key, item_string, item_bool, item_integer, item_float,
  item_datetime, item_array_start, item_array_end, item_map_start, item_map_end, item_variable,
  item_include,
}
use gnatsd.Conf.Parser.{
  Value, str, bool, int, float, time, array, mapping, nil, end, Fields, field, get_field, Parser,
  Result, ok, err, panic, stuck, push_context, pop_context, push_key, set_value,
}

-- What `strconv` says of a number: a bit pattern, or an error (out of range, or malformed).
pub data Number : Type 0 where
  number : ℕ → Number
  out_of_range malformed : Number

-- The libraries: `strconv.ParseInt(_, 10, 64)`, `strconv.ParseFloat(_, 64)`, `time.Parse`,
-- `strings.TrimSpace`; and whether a string, decoded, begins with a digit, with the bytes of its
-- leading digits (`unicode.IsDigit` in a `range`).
pub record Libs : Type 0 where
  pub parse_int : Bytes → Number
  pub parse_float : Bytes → Number
  pub parse_time : Bytes → Option ℕ
  pub trim_space : Bytes → Bytes
  pub to_lower : Bytes → Bytes
  pub digits : Bytes → ℕ

-- The factor of a suffix; an unknown one sets no value.
unfoldable pub suffix_factor : Bytes → Option ℕ
suffix_factor s =
    if bytes_eq s []
    then some 1
    else if bytes_eq s (codes "k")
    then some 1000
    else if bytes_eq s (codes "kb")
    then some 1024
    else if bytes_eq s (codes "m")
    then some 1000000
    else if bytes_eq s (codes "mb")
    then some 1048576
    else if bytes_eq s (codes "g")
    then some 1000000000
    else if bytes_eq s (codes "gb")
    then some 1073741824
    else none

unfoldable pub process_integer : Libs → Bytes → Parser → Result Parser
unfolding suffix_factor
process_integer libs v p =
    let last_digit = libs.digits v in
    let suffix = libs.to_lower (libs.trim_space (drop last_digit v)) in
    elim (libs.parse_int (take last_digit v)) [
      | number num ↦ elim (suffix_factor suffix) [
        | none ↦ ok p
        | some factor ↦ set_value (int ((num * factor) % 2 ^ 64)) p
      ]
      | out_of_range ↦ err
      | malformed ↦ err
    ]

unfoldable pub process_float : Libs → Bytes → Parser → Result Parser
process_float libs v p = elim (libs.parse_float v) [
  | number num ↦ set_value (float num) p
  | out_of_range ↦ err
  | malformed ↦ err
]

unfoldable pub process_bool : Libs → Bytes → Parser → Result Parser
process_bool libs v p =
    let s = libs.to_lower v in
    if bytes_eq s (codes "true") || (bytes_eq s (codes "yes") || bytes_eq s (codes "on"))
    then set_value (bool true) p
    else if bytes_eq s (codes "false") || (bytes_eq s (codes "no") || bytes_eq s (codes "off"))
    then set_value (bool false) p
    else err

-- The loop of `lookupVariable` over the contexts.
unfoldable pub lookup_contexts : Bytes → List Value → Option Value
unfolding get_field
lookup_contexts name [] = none
lookup_contexts name (mapping fs ∷ ctxs) =
    let rest = lookup_contexts name ctxs in
    elim (get_field name fs) [ none ↦ rest | some v ↦ some v ]
lookup_contexts name (_ ∷ ctxs) = lookup_contexts name ctxs

-- `lookupVariable`; `env` is what it makes of the environment.
unfoldable pub lookup_variable :
    (Bytes → Result (Option Value)) → Bytes → Parser → Result (Option Value)
unfolding lookup_contexts
lookup_variable env name p =
    if bytes_eq (take 3 name) (codes "2a$")
    then ok (some (str (b'$' ∷ name)))
    else elim (lookup_contexts name p.ctxs) [ none ↦ env name | some v ↦ ok (some v) ]

abbrev pub set_looked_up : Result (Option Value) → Parser → Result Parser
set_looked_up (ok (some v)) p = set_value v p
set_looked_up (ok none) p = err
set_looked_up err p = err
set_looked_up panic p = panic
set_looked_up stuck p = stuck

-- The loop over the map of an included file.
unfoldable pub include_fields : Fields → Parser → Result Parser
include_fields end p = ok p
include_fields (field k v fs) p = elim (set_value v (push_key k p)) [
  | ok q ↦ include_fields fs q
  | err ↦ err
  | panic ↦ panic
  | stuck ↦ stuck
]

abbrev pub set_included : Result Fields → Parser → Result Parser
set_included (ok m) p = include_fields m p
set_included err p = err
set_included panic p = panic
set_included stuck p = stuck

abbrev pub set_popped : Result (Value × Parser) → Result Parser
set_popped (ok (v, p)) = set_value v p
set_popped err = err
set_popped panic = panic
set_popped stuck = stuck

-- `processItem`; `env` and `file` are what the environment and an included file come to.
unfoldable pub process_item :
    Libs
    → (Bytes → Result (Option Value))
    → (Bytes → Result Fields)
    → ItemType
    → Bytes
    → Parser
    → Result Parser
unfolding process_integer process_float process_bool lookup_variable include_fields
process_item libs env file item_error v p = err
process_item libs env file item_key v p = ok (push_key v p)
process_item libs env file item_map_start v p = ok (push_context (mapping end) p)
process_item libs env file item_map_end v p = set_popped (pop_context p)
process_item libs env file item_string v p = set_value (str v) p
process_item libs env file item_integer v p = process_integer libs v p
process_item libs env file item_float v p = process_float libs v p
process_item libs env file item_bool v p = process_bool libs v p
process_item libs env file item_datetime v p = elim (libs.parse_time v) [
  | none ↦ err
  | some dt ↦ set_value (time dt) p
]
process_item libs env file item_array_start v p = ok (push_context (array nil) p)
process_item libs env file item_array_end v p = set_popped (pop_context p)
process_item libs env file item_variable v p = set_looked_up (lookup_variable env v p) p
process_item libs env file item_include v p = set_included (file v) p
process_item libs env file _ v p = ok p

-- The loop of `parse`: how it ends, or the parser behind the items that there are.
pub data Processed : Type 0 where
  done more : Parser → Processed
  failed panicked lost : Processed

abbrev pub is_eof : ItemType → Bool
is_eof item_eof = true
is_eof _ = false

abbrev pub then_process : Result Parser → (Parser → Processed) → Processed
then_process (ok q) f = f q
then_process err f = failed
then_process panic f = panicked
then_process stuck f = lost

unfoldable pub process :
    Libs
    → (Bytes → Result (Option Value))
    → (Bytes → Result Fields)
    → List Item
    → Parser
    → Processed
unfolding process_item
process libs env file [] p = more p
process libs env file (it ∷ items) p =
    let rest =
      then_process (process_item libs env file it.typ it.val p) (process libs env file items) in
    if is_eof it.typ then done p else rest
