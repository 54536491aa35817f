-- ===== src/Sublist/Spec.antt =====
-- What a `Sublist` promises: it holds a collection of live subscriptions, and a published subject
-- reaches each of them as often as it is live with a pattern that covers the subject.
use gnatsd.Prelude.{
  ℕ, ◌+◌, ◌%◌, ◌^◌, false, ◌&&◌, List, [], ◌∷◌, Bytes, Option, none, some, ◌≡◌, refl, ◌==◌,
  if◌then◌else◌, arith, inl, inr, Bool-cases, length,
}
use gnatsd.Sublist.Subject.{split}
use gnatsd.Sublist.Trie.{Subscription, Subs}
use gnatsd.Sublist.Occurs.{is_it}
use gnatsd.Sublist.Hits.{matches, hits}
use gnatsd.Sublist.Child.{IsLevel}
use gnatsd.Sublist.Insert.{hits-insert_level, hits-new_level, insert_level-IsLevel}
use gnatsd.Sublist.Split.{split_lem, first, rest}
use gnatsd.Sublist.Store.{Sublist, new_sublist, insert, insert_tokens, Error}

-- How often the subject with tokens `toks` is to reach the subscription `i`.
unfoldable pub demand : ℕ → Subs → List Bytes → ℕ
demand i [] toks = 0
demand i (s ∷ live) toks =
    (if matches (split s.subject) toks then is_it i s else 0) + demand i live toks

-- The trie holds exactly the live subscriptions, and `count` their number as a `uint32`.
pub record Represents (s : Sublist) (live : Subs) : Type 0 where
  pub is_level : IsLevel s.root
  pub reaches :
      (i : ℕ) (u : Bytes) (us : List Bytes) → hits i s.root (u ∷ us) ≡ demand i live (u ∷ us)
  pub counted : s.count ≡ length live % 2 ^ 32

pub new_sublist-Represents : Represents new_sublist []
unfolding new_sublist demand
new_sublist-Represents = record {
  is_level = tt;
  reaches = λ i u us. hits-new_level i (u ∷ us);
  counted = refl;
}

-- The live subscriptions after an insertion that returned the given error.
abbrev pub after_insert : Subscription → Option Error → Subs → Subs
after_insert sub none live = sub ∷ live
after_insert sub (some _) live = live

hits-insert_tokens :
    (i : ℕ) (sub : Subscription) (s : Sublist) (u : Bytes) (us : List Bytes)
    → IsLevel s.root
    → let walked = insert_tokens sub (split sub.subject) s.root in
      hits i walked.0 (u ∷ us)
      ≡ hits i s.root (u ∷ us)
        + (if walked.1 && matches (split sub.subject) (u ∷ us) then is_it i sub else 0)
unfolding insert_tokens
hits-insert_tokens i sub s u us h =
    rw split_lem
      (hits-insert_level i sub (first sub.subject) (rest sub.subject) false s.root u us h)

insert_tokens-IsLevel :
    (sub : Subscription) (toks : List Bytes) (s : Sublist)
    → IsLevel s.root
    → IsLevel (insert_tokens sub toks s.root).0
unfolding insert_tokens
insert_tokens-IsLevel sub [] s h = h
insert_tokens-IsLevel sub (t ∷ ts) s h = insert_level-IsLevel sub t ts false s.root h

-- `Insert` adds its subscription if it returns nil, and else leaves what is live as it was.
pub insert-Represents :
    (sub : Subscription) (s : Sublist) (live : Subs)
    → Represents s live
    → Represents (insert sub s).0 (after_insert sub (insert sub s).1 live)
unfolding insert demand
insert-Represents sub s live r =
    let toks = split sub.subject in
    elim (Bool-cases (insert_tokens sub toks s.root).1) [
      | inl e ↦ rw e (record {
        is_level = insert_tokens-IsLevel sub toks s r.is_level;
        reaches =
            λ i u us. ground (arith, hits-insert_tokens i sub s u us r.is_level, r.reaches i u us);
        counted = omega (arith, r.counted);
      })
      | inr e ↦ rw e (record {
        is_level = insert_tokens-IsLevel sub toks s r.is_level;
        reaches =
            λ i u us. ground (arith, hits-insert_tokens i sub s u us r.is_level, r.reaches i u us);
        counted = r.counted;
      })
    ]

-- The live subscriptions without the first occurrence of `sub`.
unfoldable pub erase : Subscription → Subs → Subs
erase sub [] = []
erase sub (s ∷ live) = if s.id == sub.id then live else s ∷ erase sub live

-- A pointer leads to one subscription, whose subject never changes.
abbrev pub SameSubject : Subscription → Subs → Type 0
SameSubject sub [] = Unit
SameSubject sub (s ∷ live) = (s.id ≡ sub.id → s.subject ≡ sub.subject) × SameSubject sub live
