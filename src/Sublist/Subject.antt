-- ===== src/Sublist/Subject.antt =====
-- Subjects of server/sublist.go: their tokens, the validity tests and the wildcard test of the
-- cache. A subject is its bytes; a position in a string is the suffix that begins there.
use gnatsd.Prelude.{ℕ, Bool, true, false, List, [], ◌∷◌, ◌++◌, Bytes, ◌==◌, if◌then◌else◌}

abbrev pub pwc : ℕ
pwc = b'*'

abbrev pub fwc : ℕ
fwc = b'>'

abbrev pub btsep : ℕ
btsep = b'.'

-- The loop that cuts a subject at the dots; `token` is `subject[start:i]`.
unfoldable pub split_from : Bytes → Bytes → List Bytes
split_from token [] = token ∷ []
split_from token (c ∷ s) =
    let next = split_from [] s in
    let more = split_from (token ++ c ∷ []) s in if c == btsep then token ∷ next else more

unfoldable pub split : Bytes → List Bytes
unfolding split_from
split subject = split_from [] subject

-- `switch t[0]`: which of the three kinds of child a token selects.
pub data Kind : Type 0 where
  partial full literal : Kind

unfoldable pub kind : Bytes → Kind
kind [] = literal
kind (c ∷ _) = if c == pwc then partial else if c == fwc then full else literal

unfoldable pub is_full : Bytes → Bool
unfolding kind
is_full t = elim (kind t) [ full ↦ true | _ ↦ false ]

unfoldable pub is_empty : Bytes → Bool
is_empty [] = true
is_empty (_ ∷ _) = false

-- The loop of `IsValidSubject`, at `sfwc`.
unfoldable pub valid_tokens : Bool → List Bytes → Bool
valid_tokens sfwc [] = true
valid_tokens sfwc ([] ∷ ts) = false
valid_tokens true ((_ ∷ _) ∷ ts) = false
valid_tokens false ((c ∷ []) ∷ ts) = valid_tokens (c == fwc) ts
valid_tokens false ((_ ∷ _ ∷ _) ∷ ts) = valid_tokens false ts

unfoldable pub is_valid_subject : Bytes → Bool
unfolding valid_tokens split is_empty
is_valid_subject subject = if is_empty subject then false else valid_tokens false (split subject)

-- The loop of `IsValidLiteralSubject`.
unfoldable pub literal_tokens : List Bytes → Bool
literal_tokens [] = true
literal_tokens ([] ∷ ts) = false
literal_tokens ((c ∷ []) ∷ ts) =
    if c == pwc then false else if c == fwc then false else literal_tokens ts
literal_tokens ((_ ∷ _ ∷ _) ∷ ts) = literal_tokens ts

unfoldable pub is_valid_literal_subject : Bytes → Bool
unfolding literal_tokens split
is_valid_literal_subject subject = literal_tokens (split subject)

-- The inner loop of `matchLiteral`: to the next dot, or to the end.
unfoldable pub skip_token : Bytes → Bytes
skip_token [] = []
skip_token (c ∷ s) = if c == btsep then c ∷ s else skip_token s

-- `matchLiteral`; the first argument is `literal[li:]`, the second `subject[i:]`.
unfoldable pub match_literal : Bytes → Bytes → Bool
unfolding skip_token
match_literal lit [] = is_empty lit
match_literal [] (b ∷ s) = false
match_literal (x ∷ lit) (b ∷ s) =
    let skipped = match_literal (skip_token (x ∷ lit)) s in
    let onward = match_literal lit s in
    if b == pwc then skipped else if b == fwc then true else if b == x then onward else false
