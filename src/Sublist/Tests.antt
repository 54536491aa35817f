-- ===== src/Sublist/Tests.antt =====
-- Runs of server/sublist.go, and its theorems at concrete inputs.
use gnatsd.Prelude.{
  bytes_eq, ℕ, true, false, List, [], ◌∷◌, Bytes, none, some, ◌≡◌, refl, subst, codes,
  if◌then◌else◌,
}
use gnatsd.Sublist.Subject
use gnatsd.Sublist.Split
use gnatsd.Sublist.Trie
use gnatsd.Sublist.Subject.{split, is_valid_subject, is_valid_literal_subject, match_literal}
use gnatsd.Sublist.Trie.{Subscription, Subs, SublistResult}
use gnatsd.Sublist.Hits.{matches}
use gnatsd.Sublist.Split.{no_empty_token}
use gnatsd.Sublist.Literal.{match_literal-matches}
use gnatsd.Sublist.Store.{
  Sublist, new_sublist, insert, remove, match, err_invalid_subject, err_not_found,
}
use gnatsd.Sublist.Spec.{Represents, after_insert, new_sublist-Represents, insert-Represents}
use gnatsd.Sublist.SpecRemove.{after_remove, remove-Represents}
use gnatsd.Sublist.SpecMatch.{
  Answers, Coherent, new_sublist-Coherent, insert-Coherent, remove-Coherent, match-Coherent,
  match_level-Answers,
}
use gnatsd.Sublist.Validity.{
  acceptable, insert-acceptable, insert-is_valid_subject, insert-well_formed,
}

abbrev plain_sub : Subscription
plain_sub = record { id = 1; subject = codes "foo.*"; queue = none }

abbrev rest_sub : Subscription
rest_sub = record { id = 2; subject = codes "foo.>"; queue = none }

abbrev queue_sub : Subscription
queue_sub = record { id = 3; subject = codes "foo.bar"; queue = some (codes "workers") }

abbrev three : Sublist
three = (insert queue_sub (insert rest_sub (insert plain_sub new_sublist).0).0).0

-- Ids of the plain subscriptions and of the groups of a result.
ids : Subs → List ℕ
ids [] = []
ids (s ∷ ss) = s.id ∷ ids ss

group_ids : List Subs → List (List ℕ)
unfolding ids
group_ids [] = []
group_ids (g ∷ gs) = ids g ∷ group_ids gs

found : Bytes → Sublist → List ℕ × List (List ℕ)
unfolding ids group_ids match
found subject s = let r = (match (λ _. 0) subject s).1 in (ids r.psubs, group_ids r.qsubs)

match_three : found (codes "foo.bar") three ≡ (2 ∷ 1 ∷ [], (3 ∷ []) ∷ [])
unfolding found insert new_sublist bytes_eq
match_three = refl

match_deeper : found (codes "foo.bar.baz") three ≡ (2 ∷ [], [])
unfolding found insert new_sublist bytes_eq
match_deeper = refl

match_removed : found (codes "foo.bar") (remove rest_sub three).0 ≡ (1 ∷ [], (3 ∷ []) ∷ [])
unfolding found insert remove new_sublist bytes_eq
match_removed = refl

remove_missing : (remove plain_sub new_sublist).1 ≡ some err_not_found
unfolding remove new_sublist Subject.is_empty Subject.is_full Trie.child_of
remove_missing = refl

insert_invalid :
    (insert (record plain_sub { subject = codes "foo..bar" }) three).1 ≡ some err_invalid_subject
unfolding insert new_sublist
insert_invalid = refl

validity :
    (is_valid_subject (codes "foo.>") ≡ true)
    × (is_valid_subject (codes "foo.>.bar") ≡ false)
    × (is_valid_literal_subject (codes "foo.*") ≡ false)
unfolding is_valid_subject is_valid_literal_subject
validity = (refl, refl, refl)

-- The trie reads `fo*` as a literal, the test of the cache as a wildcard.
cache_and_trie_differ :
    (match_literal (codes "foo") (codes "fo*") ≡ true)
    × (matches (split (codes "fo*")) (split (codes "foo")) ≡ false)
unfolding match_literal matches split Subject.kind Subject.is_empty bytes_eq
cache_and_trie_differ = (refl, refl)

insert-Represents_example :
    Represents
      (insert plain_sub new_sublist).0
      (after_insert plain_sub (insert plain_sub new_sublist).1 [])
insert-Represents_example = insert-Represents plain_sub new_sublist [] new_sublist-Represents

remove-Represents_example :
    let one = insert plain_sub new_sublist in
    Represents
      (remove plain_sub one.0).0
      (after_remove plain_sub (remove plain_sub one.0).1 (after_insert plain_sub one.1 []))
unfolding insert new_sublist
remove-Represents_example =
    remove-Represents plain_sub (insert plain_sub new_sublist).0
      (after_insert plain_sub (insert plain_sub new_sublist).1 [])
      (insert-Represents plain_sub new_sublist [] new_sublist-Represents) (λ e. refl, tt)

insert-Coherent_example :
    Coherent
      (insert plain_sub new_sublist).0
      (after_insert plain_sub (insert plain_sub new_sublist).1 [])
unfolding Split.well_formed_from
insert-Coherent_example = insert-Coherent plain_sub new_sublist [] new_sublist-Coherent refl refl

remove-Coherent_example :
    let one = insert plain_sub new_sublist in
    Coherent
      (remove plain_sub one.0).0
      (after_remove plain_sub (remove plain_sub one.0).1 (after_insert plain_sub one.1 []))
unfolding insert new_sublist Split.well_formed_from
remove-Coherent_example =
    remove-Coherent plain_sub (insert plain_sub new_sublist).0
      (after_insert plain_sub (insert plain_sub new_sublist).1 [])
      (insert-Coherent plain_sub new_sublist [] new_sublist-Coherent refl refl) (λ e. refl, tt) refl

match-Coherent_example :
    let one = insert plain_sub new_sublist in
    let seen = match (λ _. 0) (codes "foo.bar") one.0 in
    Answers seen.1 (after_insert plain_sub one.1 []) (codes "foo.bar")
    × Coherent seen.0 (after_insert plain_sub one.1 [])
unfolding no_empty_token Split.well_formed_from
match-Coherent_example =
    match-Coherent (λ _. 0) (codes "foo.bar") (insert plain_sub new_sublist).0
      (after_insert plain_sub (insert plain_sub new_sublist).1 [])
      (insert-Coherent plain_sub new_sublist [] new_sublist-Coherent refl refl) refl

-- What the inserts of the three subscriptions leave live.
abbrev live_three : Subs
live_three =
    let one = insert plain_sub new_sublist in
    let two = insert rest_sub one.0 in
    after_insert queue_sub (insert queue_sub two.0).1
      (after_insert rest_sub two.1 (after_insert plain_sub one.1 []))

three-Represents : Represents three live_three
three-Represents =
    let one = insert plain_sub new_sublist in
    let two = insert rest_sub one.0 in
    insert-Represents queue_sub two.0
      (after_insert rest_sub two.1 (after_insert plain_sub one.1 []))
      (insert-Represents rest_sub one.0 (after_insert plain_sub one.1 [])
        (insert-Represents plain_sub new_sublist [] new_sublist-Represents))

all_live : live_three ≡ queue_sub ∷ rest_sub ∷ plain_sub ∷ []
unfolding insert new_sublist bytes_eq
all_live = refl

match_level-Answers_example :
    Answers
      (Trie.match_level three.root (split (codes "foo.bar")) Trie.empty_result)
      (queue_sub ∷ rest_sub ∷ plain_sub ∷ [])
      (codes "foo.bar")
match_level-Answers_example =
    match_level-Answers three (queue_sub ∷ rest_sub ∷ plain_sub ∷ []) (codes "foo.bar")
      (subst (Represents three) all_live three-Represents)

match_literal-matches_example :
    match_literal (codes "foo.bar") (codes "*.bar")
    ≡ matches (split (codes "*.bar")) (split (codes "foo.bar"))
unfolding no_empty_token Split.well_formed_from
match_literal-matches_example = match_literal-matches (codes "foo.bar") (codes "*.bar") refl refl

insert-acceptable_example :
    (insert rest_sub three).1
    ≡ (if acceptable false (split (codes "foo.>")) then none else some err_invalid_subject)
insert-acceptable_example = insert-acceptable rest_sub three

insert-is_valid_subject_example : is_valid_subject (codes "foo.>") ≡ true
unfolding insert new_sublist
insert-is_valid_subject_example = insert-is_valid_subject rest_sub new_sublist refl

rest_sub_accepted : (insert rest_sub three).1 ≡ none
unfolding Split.well_formed_from Subject.is_empty
rest_sub_accepted = insert-well_formed rest_sub three refl
