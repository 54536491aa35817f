-- ===== src/Swp/Link/Pieces.antt =====
-- What a receiver of swp that follows a history has delivered: a first piece of it.
use gnatsd.Prelude.{
  ℕ, zero, suc, ◌+◌, ◌-◌, ◌≤◌, ◌<◌, List, [], ◌∷◌, ◌++◌, Option, none, some, ltb, if◌then◌else◌,
  ◌≡◌, refl, sym, ◌∙◌, ap, arith, inl, inr, Bool-cases, get_or, take, map, length, Bytes,
}
use gnatsd.Swp.Receiver.{Packet, RecvState}
use gnatsd.Swp.Receiver.Slots.{prefix, contents}
use gnatsd.Swp.Link.Arrive.{Follows}

-- The bytes of a list of data.
abbrev weight : List (Option Bytes) → ℕ
weight [] = 0
weight (none ∷ ds) = weight ds
weight (some d ∷ ds) = length d + weight ds

weight-snoc :
    (ds : List (Option Bytes)) (d : Bytes) → weight (ds ++ some d ∷ []) ≡ weight ds + length d
weight-snoc [] d = omega arith
weight-snoc (none ∷ ds) d = weight-snoc ds d
weight-snoc (some c ∷ ds) d = omega (arith, weight-snoc ds d)

-- A stream that starts with a history and has no empty packet behind it.
abbrev heavier : List Bytes → ℕ → Bytes
heavier h n = if ltb n (length h) then get_or h n [] else 0 ∷ []

get_or-beyond : (h : List Bytes) (n : ℕ) → length h ≤ n → get_or h n [] ≡ []
get_or-beyond [] n le = refl
get_or-beyond (b ∷ h) zero le = absurd (omega arith)
get_or-beyond (b ∷ h) (suc n) le = get_or-beyond h n (omega arith)

weight-heavier :
    (h : List Bytes) (n : ℕ)
    → weight (prefix n (heavier h)) ≡ weight (prefix n (λ k. get_or h k [])) + (n - length h)
weight-heavier h zero = omega arith
weight-heavier h (suc n) =
    let rest = weight-heavier h n in
    let a = weight-snoc (prefix n (heavier h)) (heavier h n) in
    let b = weight-snoc (prefix n (λ k. get_or h k [])) (get_or h n []) in
    elim (Bool-cases (ltb n (length h))) [
      | inl e ↦
          let same : length (heavier h n) ≡ length (get_or h n []) = rw e refl in
          ground (arith, rest, a, b, same, e)
      | inr e ↦
          let more : length (heavier h n) ≡ 1 = rw e (omega arith) in
          let none_there : length (get_or h n []) ≡ 0 =
            ap length (get_or-beyond h n (ground (arith, e))) in
          ground (arith, rest, a, b, more, none_there, e)
    ]

map-take :
    (h : List Bytes) (n : ℕ)
    → n < length h
    → map some (take (suc n) h) ≡ map some (take n h) ++ some (get_or h n []) ∷ []
map-take [] n l = absurd (omega arith)
map-take (b ∷ h) zero l = refl
map-take (b ∷ h) (suc n) l = ap (λ ds. some b ∷ ds) (map-take h n (omega arith))

prefix-take :
    (h : List Bytes) (n : ℕ) → n ≤ length h → prefix n (λ k. get_or h k []) ≡ map some (take n h)
prefix-take h zero le = refl
prefix-take h (suc n) le =
    ap (λ ds. ds ++ some (get_or h n []) ∷ []) (prefix-take h n (omega arith))
    ∙ sym (map-take h n (omega arith))

-- A receiver that is in order for every stream that starts with a history has a piece of it.
pub Follows-take :
    (w : ℕ) (h : List Bytes) (client : List (Option Packet)) (r : RecvState)
    → Follows w h client r
    → (r.next_frame_expected ≤ length h)
      × (map contents (client ++ r.ready_for_delivery) ≡ map some (take r.next_frame_expected h))
Follows-take w h client r f =
    let n = r.next_frame_expected in
    let v = f.in_order (λ k. get_or h k []) (λ k l. refl) in
    let u = f.in_order (heavier h) (λ k l. heavier_here k l) in
    let le : n ≤ length h =
      omega (arith, weight-heavier h n, ap weight (sym u.history ∙ v.history)) in
    (le, ap (map contents) (sym v.ready) ∙ v.history ∙ prefix-take h n le)
  where
    heavier_here : (k : ℕ) → k < length h → heavier h k ≡ get_or h k []
    heavier_here k l = elim (Bool-cases (ltb k (length h))) [
      | inl e ↦ rw e refl
      | inr e ↦ absurd (ground (arith, e, l))
    ]
