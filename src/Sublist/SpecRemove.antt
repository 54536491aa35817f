-- ===== src/Sublist/SpecRemove.antt =====
-- `Remove` against the collection of live subscriptions.
use gnatsd.Prelude.{
  ℕ, suc, ◌+◌, ◌≤◌, true, false, ◌&&◌, List, [], ◌∷◌, Bytes, Option, none, some, ◌≡◌, refl, ◌==◌,
  if◌then◌else◌, arith, inl, inr, Bool-cases, length, ==_refl, bytes_eq_refl,
}
use gnatsd.Sublist.Subject.{Kind, partial, full, literal, kind, split}
use gnatsd.Sublist.Trie.{Subscription, Subs, Level}
use gnatsd.Sublist.Removal.{Outcome, removed, invalid_subject, not_found, is_removed}
use gnatsd.Sublist.Occurs.{is_it, occurs}
use gnatsd.Sublist.Hits.{matches, token_matches, hits}
use gnatsd.Sublist.Child.{IsLevel}
use gnatsd.Sublist.Remove.{hits-remove_level, remove_level-IsLevel}
use gnatsd.Sublist.Split.{split_lem, first, rest}
use gnatsd.Sublist.Store.{Sublist, remove, remove_tokens, removal, Error}
use gnatsd.Sublist.Spec.{demand, Represents, erase, SameSubject}

demand-le-occurs : (i : ℕ) (live : Subs) (toks : List Bytes) → demand i live toks ≤ occurs i live
unfolding demand occurs
demand-le-occurs i [] toks = omega arith
demand-le-occurs i (s ∷ live) toks = ground (arith, demand-le-occurs i live toks)

length-erase :
    (sub : Subscription) (live : Subs)
    → 1 ≤ occurs sub.id live
    → length live ≡ suc (length (erase sub live))
unfolding occurs erase
length-erase sub [] h = absurd (omega arith)
length-erase sub (s ∷ live) h = ground (arith, length-erase sub live)

pub demand-erase :
    (i : ℕ) (sub : Subscription) (live : Subs) (toks : List Bytes)
    → SameSubject sub live
    → 1 ≤ occurs sub.id live
    → demand i live toks
      ≡ demand i (erase sub live) toks
        + (if matches (split sub.subject) toks then is_it i sub else 0)
unfolding demand occurs erase
demand-erase i sub [] toks same h = absurd (omega arith)
demand-erase i sub (s ∷ live) toks same h = elim (Bool-cases (s.id == sub.id)) [
  | inl e ↦ rw e (rw (same.0 (ground arith)) (ground arith))
  | inr e ↦ ground (arith, demand-erase i sub live toks same.1)
]

token_matches_self : (k : Kind) (t : Bytes) → token_matches k t t true ≡ true
token_matches_self partial t = refl
token_matches_self full t = refl
token_matches_self literal t = rw bytes_eq_refl

matches_self : (ts : List Bytes) → matches ts ts ≡ true
unfolding matches
matches_self [] = refl
matches_self (t ∷ ts) = rw (matches_self ts) (token_matches_self (kind t) t)

hits-remove_tokens :
    (i : ℕ) (sub : Subscription) (s : Sublist) (u : Bytes) (us : List Bytes)
    → let walked = remove_tokens sub (split sub.subject) s.root in
      hits i walked.0 (u ∷ us)
        + (if is_removed walked.1 && matches (split sub.subject) (u ∷ us) then is_it i sub else 0)
      ≡ hits i s.root (u ∷ us)
unfolding remove_tokens
hits-remove_tokens i sub s u us =
    rw split_lem (hits-remove_level i sub (first sub.subject) (rest sub.subject) false s.root u us)

remove_tokens-IsLevel :
    (sub : Subscription) (toks : List Bytes) (l : Level)
    → IsLevel l
    → IsLevel (remove_tokens sub toks l).0
unfolding remove_tokens
remove_tokens-IsLevel sub [] l h = h
remove_tokens-IsLevel sub (t ∷ ts) l h = remove_level-IsLevel sub t ts false l h

-- What was removed was live.
pub removed-live :
    (sub : Subscription) (s : Sublist) (live : Subs)
    → Represents s live
    → (remove_tokens sub (split sub.subject) s.root).1 ≡ removed
    → 1 ≤ occurs sub.id live
removed-live sub s live r e =
    let toks = split sub.subject in
    let hit = hits-remove_tokens sub.id sub s (first sub.subject) (rest sub.subject) in
    let wanted = r.reaches sub.id (first sub.subject) (rest sub.subject) in
    ground (
      arith,
      hit,
      wanted,
      e,
      matches_self toks,
      split_lem sub.subject,
      demand-le-occurs sub.id live toks,
      ==_refl sub.id,
    )

-- The live subscriptions after a removal that returned the given error.
abbrev pub after_remove : Subscription → Option Error → Subs → Subs
after_remove sub none live = erase sub live
after_remove sub (some _) live = live

removal-Represents :
    (sub : Subscription) (s : Sublist) (live : Subs) (root : Level) (o : Outcome)
    → Represents s live
    → SameSubject sub live
    → (o ≡ removed → 1 ≤ occurs sub.id live)
    → IsLevel root
    → ((i : ℕ) (u : Bytes) (us : List Bytes)
        → hits i root (u ∷ us)
            + (if is_removed o && matches (split sub.subject) (u ∷ us) then is_it i sub else 0)
          ≡ hits i s.root (u ∷ us))
    → Represents (removal sub s root o).0 (after_remove sub (removal sub s root o).1 live)
unfolding removal
removal-Represents sub s live root removed r same was lvl walk = record {
  is_level = lvl;
  reaches = λ i u us.
      ground
        (arith, walk i u us, r.reaches i u us, demand-erase i sub live (u ∷ us) same (was refl));
  counted = omega (arith, r.counted, length-erase sub live (was refl));
}
removal-Represents sub s live root invalid_subject r same was lvl walk = r
removal-Represents sub s live root not_found r same was lvl walk = r

-- `Remove` takes its subscription, which was live, out of the collection once if it returns nil,
-- and else leaves what is live as it was.
pub remove-Represents :
    (sub : Subscription) (s : Sublist) (live : Subs)
    → Represents s live
    → SameSubject sub live
    → Represents (remove sub s).0 (after_remove sub (remove sub s).1 live)
unfolding remove
remove-Represents sub s live r same =
    let walked = remove_tokens sub (split sub.subject) s.root in
    removal-Represents sub s live walked.0 walked.1 r same (removed-live sub s live r)
      (remove_tokens-IsLevel sub (split sub.subject) s.root r.is_level)
      (λ i u us. hits-remove_tokens i sub s u us)
