-- ===== src/Sublist/Validity.antt =====
-- Which subjects `Insert` accepts, and how that compares with `IsValidSubject`.
use gnatsd.Prelude.{
  ℕ, Bool, true, false, List, [], ◌∷◌, Bytes, none, some, ◌≡◌, refl, ◌==◌, if◌then◌else◌, arith,
}
use gnatsd.Sublist.Subject.{kind, is_full, is_empty, split, valid_tokens, is_valid_subject, fwc}
use gnatsd.Sublist.Trie
use gnatsd.Sublist.Trie.{Subscription, Level, insert_level}
use gnatsd.Sublist.Split.{
  split_lem, first, rest, tokens-cons, well_formed, well_formed_from, start, inside, after, Mode,
}
use gnatsd.Sublist.Store.{Sublist, insert, insert_tokens, err_invalid_subject}

-- No token is empty, and none follows one that begins with `>`; `closed` if one has.
unfoldable pub acceptable : Bool → List Bytes → Bool
acceptable closed [] = true
acceptable closed (t ∷ ts) =
    let more = acceptable (is_full t) ts in
    if is_empty t then false else if closed then false else more

insert_level-acceptable :
    (sub : Subscription) (t : Bytes) (ts : List Bytes) (sfwc : Bool) (l : Level)
    → (insert_level sub t ts sfwc l).1 ≡ acceptable sfwc (t ∷ ts)
unfolding insert_level acceptable
insert_level-acceptable sub t [] sfwc l = ground arith
insert_level-acceptable sub t (t' ∷ ts) sfwc l = ground (
  arith,
  insert_level-acceptable sub t' ts (is_full t) (Trie.next (Trie.ensure (Trie.get_child t l))),
)

-- `Insert` returns nil exactly on the acceptable subjects, whatever it holds, and else
-- ErrInvalidSubject.
pub insert-acceptable :
    (sub : Subscription) (s : Sublist)
    → (insert sub s).1
      ≡ (if acceptable false (split sub.subject) then none else some err_invalid_subject)
unfolding insert insert_tokens
insert-acceptable sub s = rw (split_lem sub.subject) (
    ground (arith, insert_level-acceptable sub (first sub.subject) (rest sub.subject) false s.root))

acceptable-open :
    (closed : Bool) (ts : List Bytes) → acceptable closed ts ≡ true → acceptable false ts ≡ true
unfolding acceptable
acceptable-open closed [] h = refl
acceptable-open true (t ∷ ts) h = ground arith
acceptable-open false (t ∷ ts) h = h

is_full-byte : (c : ℕ) → is_full (c ∷ []) ≡ (c == fwc)
unfolding is_full kind
is_full-byte c = ground arith

acceptable-rest :
    (t : Bytes) (ts : List Bytes)
    → acceptable false (t ∷ ts) ≡ true
    → acceptable (is_full t) ts ≡ true
unfolding acceptable
acceptable-rest t ts h = ground arith

valid_tokens-acceptable :
    (closed : Bool) (ts : List Bytes) → acceptable closed ts ≡ true → valid_tokens closed ts ≡ true
unfolding acceptable valid_tokens is_empty is_full kind
valid_tokens-acceptable closed [] h = refl
valid_tokens-acceptable closed ([] ∷ ts) h = cc
valid_tokens-acceptable true ((c ∷ t) ∷ ts) h = cc
valid_tokens-acceptable false ((c ∷ []) ∷ ts) h =
    valid_tokens-acceptable (c == fwc) ts (rw (← is_full-byte c) (acceptable-rest (c ∷ []) ts h))
valid_tokens-acceptable false ((c ∷ d ∷ t) ∷ ts) h =
    valid_tokens-acceptable false ts (acceptable-open _ ts (acceptable-rest (c ∷ d ∷ t) ts h))

is_valid_subject-acceptable :
    (t : Bytes) → acceptable false (split t) ≡ true → is_valid_subject t ≡ true
unfolding is_valid_subject acceptable
is_valid_subject-acceptable [] h = cc
is_valid_subject-acceptable (c ∷ t) h = valid_tokens-acceptable false (split (c ∷ t)) h

-- Every subject that `Insert` accepts passes `IsValidSubject`.
pub insert-is_valid_subject :
    (sub : Subscription) (s : Sublist)
    → (insert sub s).1 ≡ none
    → is_valid_subject sub.subject ≡ true
insert-is_valid_subject sub s h =
    is_valid_subject-acceptable sub.subject (ground (arith, h, insert-acceptable sub s))

rest-empty : (s : Bytes) → is_empty s ≡ true → rest s ≡ []
unfolding is_empty rest
rest-empty [] h = refl
rest-empty (c ∷ s) h = cc

first-start : (s : Bytes) → well_formed_from start s ≡ true → is_empty (first s) ≡ false
unfolding well_formed_from first is_empty
first-start [] h = cc
first-start (c ∷ s) h = ground arith

-- In every mode the tokens that follow the first are acceptable after it.
well_formed-rest :
    (m : Mode) (s : Bytes)
    → well_formed_from m s ≡ true
    → acceptable (elim m [ start ↦ is_full (first s) | _ ↦ false ]) (rest s) ≡ true
unfolding well_formed_from rest acceptable first is_full kind
well_formed-rest m [] h = refl
well_formed-rest start (c ∷ s) h =
    ground (arith, well_formed-rest after s, well_formed-rest inside s, rest-empty s)
well_formed-rest inside (c ∷ s) h =
    ground
      (arith, well_formed-rest start s, well_formed-rest inside s, first-start s, tokens-cons s)
well_formed-rest after (c ∷ s) h =
    ground (arith, well_formed-rest start s, first-start s, tokens-cons s)

well_formed-acceptable : (s : Bytes) → well_formed s ≡ true → acceptable false (split s) ≡ true
unfolding acceptable
well_formed-acceptable s h =
    rw split_lem (ground (arith, first-start s h, well_formed-rest start s h))

-- `Insert` accepts every well-formed subject.
pub insert-well_formed :
    (sub : Subscription) (s : Sublist) → well_formed sub.subject ≡ true → (insert sub s).1 ≡ none
insert-well_formed sub s h =
    ground (arith, insert-acceptable sub s, well_formed-acceptable sub.subject h)
