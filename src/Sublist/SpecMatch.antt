-- ===== src/Sublist/SpecMatch.antt =====
-- `Match` and the cache against the collection of live subscriptions.
use gnatsd.Prelude.{
  ℕ, ◌-◌, ◌≤◌, ◌%◌, true, false, [], ◌∷◌, Bytes, Option, none, some, ◌≡◌, refl, ◌==◌, arith, inl,
  inr, Bool-cases, Option-cases, length, ltb, ◌⊎◌, bytes_eq, bytes_eq→eq,
}
use gnatsd.Sublist.Subject.{split, match_literal}
use gnatsd.Sublist.Trie.{Subscription, Subs, Level, empty_result, SublistResult, match_level}
use gnatsd.Sublist.Removal.{Outcome, removed, invalid_subject, not_found}
use gnatsd.Sublist.Occurs.{occurs, occurs_groups, occurs_result, occurs-add_sub}
use gnatsd.Sublist.Hits.{occurs_result-match_level}
use gnatsd.Sublist.Split.{split_lem, first, rest, well_formed, no_empty_token}
use gnatsd.Sublist.Literal.{match_literal-matches}
use gnatsd.Sublist.Store.{
  Sublist, Cache, new_sublist, insert, remove, match, insert_tokens, remove_tokens, removal,
  add_to_cache, remove_from_cache, cache_lookup, bound_cache, delete_at, Error,
}
use gnatsd.Sublist.Spec.{
  demand, Represents, erase, SameSubject, after_insert, new_sublist-Represents, insert-Represents,
}
use gnatsd.Sublist.SpecRemove.{after_remove, remove-Represents, removed-live, demand-erase}

-- A result gives each subscription as often as the live ones demand.
abbrev pub Answers : SublistResult → Subs → Bytes → Type 0
Answers r live subject = (i : ℕ) → occurs_result i r ≡ demand i live (split subject)

-- A walk over the trie answers rightly, also for subjects with empty tokens or wildcards.
pub match_level-Answers :
    (s : Sublist) (live : Subs) (subject : Bytes)
    → Represents s live
    → Answers (match_level s.root (split subject) empty_result) live subject
unfolding occurs occurs_groups
match_level-Answers s live subject r i = rw split_lem (
    omega (
      arith,
      occurs_result-match_level i s.root (first subject ∷ rest subject) empty_result,
      r.reaches i (first subject) (rest subject),
    ))

-- What the cache relies on: wildcards stand alone in the live subjects, and no queue groups.
abbrev pub AllPlain : Subs → Type 0
AllPlain [] = Unit
AllPlain (s ∷ live) = (well_formed s.subject ≡ true) × (s.queue ≡ none) × AllPlain live

abbrev pub CacheAnswers : Subs → Cache → Type 0
CacheAnswers live [] = Unit
CacheAnswers live ((k, r) ∷ cache) =
    (no_empty_token true k ≡ true) × Answers r live k × CacheAnswers live cache

pub record Coherent (s : Sublist) (live : Subs) : Type 0 where
  pub represents : Represents s live
  pub answers : CacheAnswers live s.cache
  pub plain : AllPlain live

CacheAnswers-add :
    (sub : Subscription) (live : Subs) (cache : Cache)
    → well_formed sub.subject ≡ true
    → CacheAnswers live cache
    → CacheAnswers (sub ∷ live) (add_to_cache sub.subject sub cache)
unfolding add_to_cache demand
CacheAnswers-add sub live [] wf h = tt
CacheAnswers-add sub live ((k, r) ∷ cache) wf (fresh, now, later) =
    elim (Bool-cases (match_literal k sub.subject)) [
      | inl e ↦ rw e (
        fresh,
        λ i. ground (
          arith,
          occurs-add_sub i sub r.psubs r.qsubs,
          now i,
          e,
          match_literal-matches k sub.subject wf fresh,
        ),
        CacheAnswers-add sub live cache wf later,
      )
      | inr e ↦ rw e (
        fresh,
        λ i. ground (arith, now i, e, match_literal-matches k sub.subject wf fresh),
        CacheAnswers-add sub live cache wf later,
      )
    ]

CacheAnswers-remove :
    (sub : Subscription) (live : Subs) (cache : Cache)
    → well_formed sub.subject ≡ true
    → SameSubject sub live
    → 1 ≤ occurs sub.id live
    → CacheAnswers live cache
    → CacheAnswers (erase sub live) (remove_from_cache sub.subject cache)
unfolding remove_from_cache
CacheAnswers-remove sub live [] wf same was h = tt
CacheAnswers-remove sub live ((k, r) ∷ cache) wf same was (fresh, now, later) =
    elim (Bool-cases (match_literal k sub.subject)) [
      | inl e ↦ rw e (CacheAnswers-remove sub live cache wf same was later)
      | inr e ↦ rw e (
        fresh,
        λ i. ground (
          arith,
          now i,
          e,
          match_literal-matches k sub.subject wf fresh,
          demand-erase i sub live (split k) same was,
        ),
        CacheAnswers-remove sub live cache wf same was later,
      )
    ]

AllPlain-erase : (sub : Subscription) (live : Subs) → AllPlain live → AllPlain (erase sub live)
unfolding erase
AllPlain-erase sub [] h = tt
AllPlain-erase sub (s ∷ live) h = elim (Bool-cases (s.id == sub.id)) [
  | inl e ↦ rw e h.2
  | inr e ↦ rw e (h.0, h.1, AllPlain-erase sub live h.2)
]

CacheAnswers-delete_at :
    (n : ℕ) (live : Subs) (cache : Cache)
    → CacheAnswers live cache
    → CacheAnswers live (delete_at n cache)
unfolding delete_at
CacheAnswers-delete_at n live [] h = tt
CacheAnswers-delete_at n live ((k, r) ∷ cache) h = elim (Bool-cases (n == 0)) [
  | inl e ↦ rw e h.2
  | inr e ↦ rw e (h.0, h.1, CacheAnswers-delete_at (n - 1) live cache h.2)
]

CacheAnswers-bound_cache :
    (pick : Cache → ℕ) (live : Subs) (cache : Cache)
    → CacheAnswers live cache
    → CacheAnswers live (bound_cache pick cache)
unfolding bound_cache
CacheAnswers-bound_cache pick live cache h = elim (Bool-cases (ltb 1024 (length cache))) [
  | inl e ↦ rw e (CacheAnswers-delete_at (pick cache % length cache) live cache h)
  | inr e ↦ rw e h
]

pub CacheAnswers-lookup :
    (live : Subs) (subject : Bytes) (cache : Cache) {r : SublistResult}
    → CacheAnswers live cache
    → cache_lookup subject cache ≡ some r
    → Answers r live subject
unfolding cache_lookup
CacheAnswers-lookup live subject [] h e i = cc
CacheAnswers-lookup live subject ((k, r') ∷ cache) h e i = elim (Bool-cases (bytes_eq k subject)) [
  | inl same ↦ ground (arith, same, bytes_eq→eq k subject same, h.1 i, e)
  | inr other ↦ CacheAnswers-lookup live subject cache h.2 (rw other at e) i
]

-- `Insert` of a plain subscription with a well-formed subject keeps every cached answer right.
pub insert-Coherent :
    (sub : Subscription) (s : Sublist) (live : Subs)
    → Coherent s live
    → well_formed sub.subject ≡ true
    → sub.queue ≡ none
    → Coherent (insert sub s).0 (after_insert sub (insert sub s).1 live)
unfolding insert
insert-Coherent sub s live c wf plain = record {
  represents = insert-Represents sub s live c.represents;
  answers = elim accepted [
    | inl e ↦ rw (e, insert) (CacheAnswers-add sub live s.cache wf c.answers)
    | inr e ↦ rw (e, insert) c.answers
  ];
  plain = elim accepted [
    | inl e ↦ rw (e, insert) (wf, plain, c.plain)
    | inr e ↦ rw (e, insert) c.plain
  ];
}
  where
    accepted :
        ((insert_tokens sub (split sub.subject) s.root).1 ≡ true)
        ⊎ ((insert_tokens sub (split sub.subject) s.root).1 ≡ false)
    accepted = Bool-cases (insert_tokens sub (split sub.subject) s.root).1

removal-CacheAnswers :
    (sub : Subscription) (s : Sublist) (live : Subs) (root : Level) (o : Outcome)
    → CacheAnswers live s.cache
    → SameSubject sub live
    → well_formed sub.subject ≡ true
    → (o ≡ removed → 1 ≤ occurs sub.id live)
    → CacheAnswers (after_remove sub (removal sub s root o).1 live) (removal sub s root o).0.cache
unfolding removal
removal-CacheAnswers sub s live root removed c same wf was =
    CacheAnswers-remove sub live s.cache wf same (was refl) c
removal-CacheAnswers sub s live root invalid_subject c same wf was = c
removal-CacheAnswers sub s live root not_found c same wf was = c

AllPlain-after_remove :
    (sub : Subscription) (e : Option Error) (live : Subs)
    → AllPlain live
    → AllPlain (after_remove sub e live)
AllPlain-after_remove sub none live h = AllPlain-erase sub live h
AllPlain-after_remove sub (some _) live h = h

-- `Remove` keeps every cached answer right.
pub remove-Coherent :
    (sub : Subscription) (s : Sublist) (live : Subs)
    → Coherent s live
    → SameSubject sub live
    → well_formed sub.subject ≡ true
    → Coherent (remove sub s).0 (after_remove sub (remove sub s).1 live)
unfolding remove
remove-Coherent sub s live c same wf =
    let walked = remove_tokens sub (split sub.subject) s.root in
    record {
      represents = remove-Represents sub s live c.represents same;
      answers =
          removal-CacheAnswers sub s live walked.0 walked.1 c.answers same wf
            (removed-live sub s live c.represents);
      plain = AllPlain-after_remove sub (removal sub s walked.0 walked.1).1 live c.plain;
    }

-- `Match` of a subject without empty tokens gives each live subscription that covers it, as often
-- as it is live, and nothing else, whether the answer comes from the cache or from the trie, and
-- whichever entry makes room.
pub match-Coherent :
    (pick : Cache → ℕ) (subject : Bytes) (s : Sublist) (live : Subs)
    → Coherent s live
    → no_empty_token true subject ≡ true
    → Answers (match pick subject s).1 live subject × Coherent (match pick subject s).0 live
unfolding match
match-Coherent pick subject s live c ne = elim (Option-cases (cache_lookup subject s.cache)) [
  | inl e ↦
      rw (e, match)
        (
          match_level-Answers s live subject c.represents,
          record {
            represents = record {
              is_level = c.represents.is_level;
              reaches = c.represents.reaches;
              counted = c.represents.counted;
            };
            answers =
                CacheAnswers-bound_cache pick live
                  ((subject, match_level s.root (split subject) empty_result) ∷ s.cache)
                  (ne, match_level-Answers s live subject c.represents, c.answers);
            plain = c.plain;
          },
        )
  | inr (r, e) ↦
      rw (e, match)
        (
          CacheAnswers-lookup live subject s.cache c.answers e,
          record {
            represents = record {
              is_level = c.represents.is_level;
              reaches = c.represents.reaches;
              counted = c.represents.counted;
            };
            answers = c.answers;
            plain = c.plain;
          },
        )
]

pub new_sublist-Coherent : Coherent new_sublist []
unfolding new_sublist
new_sublist-Coherent = record { represents = new_sublist-Represents; answers = tt; plain = tt }
