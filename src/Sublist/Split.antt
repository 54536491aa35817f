-- ===== src/Sublist/Split.antt =====
-- The tokens of a subject, and what they mean for matching.
use gnatsd.Prelude.{
  Bool, true, false, List, [], ◌∷◌, ◌++◌, Bytes, ◌≡◌, refl, sym, ◌==◌, if◌then◌else◌, Bool-cases,
  inl, inr, append_assoc, not, append-nil, ap₂, ◌∙◌,
}
use gnatsd.Sublist.Subject.{is_empty, split_from, split, btsep, pwc, fwc}

-- The bytes `token` in front of the first of the tokens.
abbrev pub prepend : Bytes → List Bytes → List Bytes
prepend token [] = token ∷ []
prepend token (t ∷ ts) = (token ++ t) ∷ ts

-- The tokens of a suffix, without the accumulator.
unfoldable pub tokens : Bytes → List Bytes
tokens [] = [] ∷ []
tokens (c ∷ s) = let ts = tokens s in if c == btsep then [] ∷ ts else prepend (c ∷ []) ts

unfoldable pub first : Bytes → Bytes
first [] = []
first (c ∷ s) = if c == btsep then [] else c ∷ first s

unfoldable pub rest : Bytes → List Bytes
unfolding tokens
rest [] = []
rest (c ∷ s) = let ts = tokens s in if c == btsep then ts else rest s

prepend-prepend : (a b : Bytes) (ts : List Bytes) → prepend a (prepend b ts) ≡ prepend (a ++ b) ts
prepend-prepend a b [] = refl
prepend-prepend a b (t ∷ ts) = rw append_assoc

pub tokens-cons : (s : Bytes) → tokens s ≡ first s ∷ rest s
unfolding tokens first rest
tokens-cons [] = refl
tokens-cons (c ∷ s) = elim (Bool-cases (c == btsep)) [
  | inl e ↦ rw e
  | inr e ↦ rw (e, tokens-cons s)
]

prepend-nil : (s : Bytes) → prepend [] (tokens s) ≡ tokens s
prepend-nil s = rw tokens-cons refl

pub split_from-tokens : (a s : Bytes) → split_from a s ≡ prepend a (tokens s)
unfolding split_from tokens
split_from-tokens a [] = rw append-nil
split_from-tokens a (c ∷ s) = elim (Bool-cases (c == btsep)) [
  | inl e ↦ rw e (ap₂ ◌∷◌ (sym (append-nil a)) (split_from-tokens [] s ∙ prepend-nil s))
  | inr e ↦ rw e (rw prepend-prepend (split_from-tokens (a ++ c ∷ []) s))
]

-- `Insert` and `Remove` always have a first token.
pub split_lem : (s : Bytes) → split s ≡ first s ∷ rest s
unfolding split
split_lem s = rw (split_from-tokens, prepend-nil, tokens-cons)

pub data Mode : Type 0 where
  start inside after : Mode

-- A subject whose tokens are not empty, in which a wildcard is a whole token and `>` the last one;
-- from the beginning of a token, inside one without wildcards, or after `*`.
unfoldable pub well_formed_from : Mode → Bytes → Bool
well_formed_from start [] = false
well_formed_from inside [] = true
well_formed_from after [] = true
well_formed_from start (c ∷ s) =
    let starred = well_formed_from after s in
    let more = well_formed_from inside s in
    if c == btsep
    then false
    else if c == pwc
    then starred
    else if c == fwc
    then is_empty s
    else more
well_formed_from inside (c ∷ s) =
    let next = well_formed_from start s in
    let more = well_formed_from inside s in
    if c == btsep then next else if c == pwc then false else if c == fwc then false else more
well_formed_from after (c ∷ s) =
    let next = well_formed_from start s in if c == btsep then next else false

abbrev pub well_formed : Bytes → Bool
well_formed s = well_formed_from start s

-- A published subject without empty tokens, from the beginning of a token or inside one.
unfoldable pub no_empty_token : Bool → Bytes → Bool
no_empty_token fresh [] = not fresh
no_empty_token fresh (c ∷ s) =
    let next = no_empty_token true s in
    let more = no_empty_token false s in
    if c == btsep then (if fresh then false else next) else more
