-- ===== src/Auth/Covered.antt =====
-- Permissions that `RegisterUser` of server/client.go makes, and what their sublists cover.
use gnatsd.Prelude.{
  ℕ, ◌≤◌, Bool, true, false, List, [], ◌∷◌, Bytes, none, ◌||◌, ◌&&◌, not, ◌≡◌, refl, ◌∙◌, subst,
  arith, inl, inr, Bool-cases, length,
}
use gnatsd.Sublist.Subject.{split}
use gnatsd.Sublist.Split.{well_formed, no_empty_token}
use gnatsd.Sublist.Hits.{matches}
use gnatsd.Sublist.Trie.{Subscription, Subs}
use gnatsd.Sublist.Occurs.{occurs}
use gnatsd.Sublist.Store.{Sublist, insert, match}
use gnatsd.Sublist.Spec.{demand, after_insert}
use gnatsd.Sublist.SpecMatch.{Coherent, insert-Coherent, match-Coherent}
use gnatsd.Sublist.Validity.{insert-well_formed}
use gnatsd.Server.Client.{Env}
use gnatsd.Server.Client.Subs.{is_nil}
use gnatsd.Auth.{allow_subjects}

-- Some pattern covers the subject.
unfoldable pub covered : List Bytes → Bytes → Bool
covered [] subject = false
covered (x ∷ xs) subject = matches (split x) (split subject) || covered xs subject

unfoldable pub all_well_formed : List Bytes → Bool
all_well_formed [] = true
all_well_formed (x ∷ xs) = well_formed x && all_well_formed xs

abbrev allowance : ℕ → Bytes → Subscription
allowance n x = record { id = n; subject = x; queue = none }

abbrev pub allowed : List Bytes → Subs → Subs
allowed [] live = live
allowed (x ∷ xs) live = allowed xs (allowance (length xs) x ∷ live)

pub allow_subjects-Coherent :
    (xs : List Bytes) (s : Sublist) (live : Subs)
    → all_well_formed xs ≡ true
    → Coherent s live
    → Coherent (allow_subjects xs s) (allowed xs live)
unfolding allow_subjects all_well_formed
allow_subjects-Coherent [] s live h c = c
allow_subjects-Coherent (x ∷ xs) s live h c = elim (Bool-cases (well_formed x)) [
  | inr e ↦ absurd (ground (arith, e, h))
  | inl e ↦
      allow_subjects-Coherent xs (insert (allowance (length xs) x) s).0
        (allowance (length xs) x ∷ live) (rw e at h)
        (subst
          (λ o.
            Coherent (insert (allowance (length xs) x) s).0
              (after_insert (allowance (length xs) x) o live))
          (insert-well_formed (allowance (length xs) x) s e)
          (insert-Coherent (allowance (length xs) x) s live c e refl))
]

-- What is demanded is covered.
demand-covered :
    (i : ℕ) (xs : List Bytes) (live : Subs) (subject : Bytes)
    → covered xs subject ≡ false
    → demand i (allowed xs live) (split subject) ≡ demand i live (split subject)
unfolding covered demand
demand-covered i [] live subject h = refl
demand-covered i (x ∷ xs) live subject h = elim (Bool-cases (matches (split x) (split subject))) [
  | inl e ↦ absurd (ground (arith, e, h))
  | inr e ↦
      demand-covered i xs (allowance (length xs) x ∷ live) subject (rw e at h) ∙ ground (arith, e)
]

some-occurs : (ps : Subs) → not (is_nil ps) ≡ true → (i : ℕ) × (1 ≤ occurs i ps)
unfolding occurs
some-occurs [] h = cc
some-occurs (s ∷ ps) h = (s.id, ground arith)

-- A match among permissions that are right.
pub Coherent-covered :
    (env : Env) (xs : List Bytes) (s : Sublist) (subject : Bytes)
    → Coherent s (allowed xs [])
    → no_empty_token true subject ≡ true
    → not (is_nil (match env.first subject s).1.psubs) ≡ true
    → covered xs subject ≡ true
unfolding demand
Coherent-covered env xs s subject c n found = elim (Bool-cases (covered xs subject)) [
  | inl e ↦ e
  | inr e ↦
      let (a, _) = match-Coherent env.first subject s (allowed xs []) c n in
      let (i, k) = some-occurs (match env.first subject s).1.psubs found in
      absurd (omega (arith, a i, k, demand-covered i xs [] subject e))
]
