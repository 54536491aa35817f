-- ===== src/Swp/Receiver/Slots.antt =====
-- The slots of the window of swp/recv.go: each holds a packet of the stream that belongs there.
use gnatsd.Prelude.{
  ℕ, zero, suc, ◌+◌, ◌%◌, ◌≤◌, ◌<◌, true, List, [], ◌∷◌, ◌++◌, Option, some, ◌≡◌, ◌≢◌, refl, sym,
  ◌∙◌, ap, arith, inl, inr, ◌==◌, Bool-cases, get_or, set, replicate, length, length-replicate,
  Bytes, none, map, get_or-set_self, get_or-set_ne, if◌then◌else◌,
}
use gnatsd.Swp.Receiver.{Packet, RxqSlot, RecvState, empty_slot, new_recv_state}
use native.Mathlib.Nat.{mod-lt}

-- The data of a packet that the receiver holds.
abbrev pub contents : Option Packet → Option Bytes
contents none = none
contents (some pack) = some pack.bytes

-- The first n packets of a stream, by their data.
abbrev pub prefix : ℕ → (ℕ → Bytes) → List (Option Bytes)
prefix zero sent = []
prefix (suc n) sent = prefix n sent ++ some (sent n) ∷ []

-- A packet of the stream, whichever the retry.
abbrev pub IsSent : (ℕ → Bytes) → Packet → Type 0
IsSent sent pack = pack.bytes ≡ sent pack.seq_num

-- A slot that has received holds the packet of the stream that belongs there in this window.
abbrev pub Holds : (ℕ → Bytes) → ℕ → ℕ → ℕ → RxqSlot → Type 0
Holds sent w nfe k slot =
    slot.received ≡ true
    → (s : ℕ) × (contents slot.pack ≡ some (sent s)) × (s % w ≡ k) × (nfe ≤ s) × (s < nfe + w)

-- What is ready is what is left of the history behind the packets `gone` to the client.
pub record IsValid (sent : ℕ → Bytes) (gone : List (Option Packet)) (r : RecvState) : Type 0 where
  pub window : 0 < r.recv_window_size
  pub storage : length r.rxq ≡ r.recv_window_size
  pub history : map contents r.recv_history ≡ prefix r.next_frame_expected sent
  pub ready : r.recv_history ≡ gone ++ r.ready_for_delivery
  pub slots :
      (k : ℕ) → Holds sent r.recv_window_size r.next_frame_expected k (get_or r.rxq k empty_slot)

module _ (sent : ℕ → Bytes) where
  pub new_recv_state-IsValid : (w b : ℕ) → 0 < w → IsValid sent [] (new_recv_state w b)
  unfolding new_recv_state
  new_recv_state-IsValid w b h = record {
    window = h;
    storage = length-replicate w empty_slot;
    history = refl;
    ready = refl;
    slots = λ k e. absurd (ground (arith, e, get_or-replicate w k));
  }
    where
      get_or-replicate : (n k : ℕ) → get_or (replicate n empty_slot) k empty_slot ≡ empty_slot
      get_or-replicate zero k = refl
      get_or-replicate (suc n) zero = refl
      get_or-replicate (suc n) (suc k) = get_or-replicate n k

  pub clear_slot :
      (w nfe k : ℕ) (rxq : List RxqSlot)
      → 0 < w
      → length rxq ≡ w
      → Holds sent w nfe k (get_or rxq k empty_slot)
      → Holds sent w (nfe + 1) k (get_or (set rxq (nfe % w) empty_slot) k empty_slot)
  clear_slot w nfe k rxq pos_w l v e = elim (Bool-cases (nfe % w == k)) [
    | inl t ↦
        let p : nfe % w ≡ k = ground arith in
        let cleared =
          get_or-set_self rxq (nfe % w) empty_slot empty_slot
            (omega (arith, mod-lt nfe {m = w} pos_w)) in
        absurd (ground (arith, e, p, cleared))
    | inr t ↦
        let ne : nfe % w ≢ k = ground arith in
        let same = get_or-set_ne rxq empty_slot empty_slot ne in
        let (s, pk, m, low, high) = v (ap (λ x. x.received) (sym same) ∙ e) in
        (s, ap (λ x. contents x.pack) same ∙ pk, m, above s m low ne, omega arith)
  ]
    where
      above : (s : ℕ) → s % w ≡ k → nfe ≤ s → nfe % w ≢ k → nfe + 1 ≤ s
      above s m low ne = elim (Bool-cases (nfe == s)) [
        | inl t ↦ let p : nfe ≡ s = ground arith in absurd (ne (ap (λ x. x % w) p ∙ m))
        | inr t ↦ ground arith
      ]

  pub fill_slot :
      (w nfe k : ℕ) (pack : Packet) (rxq : List RxqSlot)
      → IsSent sent pack
      → nfe ≤ pack.seq_num
      → pack.seq_num < nfe + w
      → length rxq ≡ w
      → Holds sent w nfe k (get_or rxq k empty_slot)
      → Holds sent w nfe k (
          get_or
            (set rxq (pack.seq_num % w) record { received = true; pack = some pack })
            k
            empty_slot)
  fill_slot w nfe k pack rxq same_data low high l v e = elim (Bool-cases (pack.seq_num % w == k)) [
    | inl t ↦
        let p : pack.seq_num % w ≡ k = ground arith in
        let filled =
          get_or-set_self rxq (pack.seq_num % w) record { received = true; pack = some pack }
            empty_slot (omega (arith, mod-lt pack.seq_num {m = w} (omega arith))) in
        (
          pack.seq_num,
          ap
                (λ i.
                  contents
                    (get_or
                      (set rxq (pack.seq_num % w) record { received = true; pack = some pack }) i
                      empty_slot).pack)
                (sym p)
              ∙ ap (λ x. contents x.pack) filled
              ∙ ap some same_data,
          p,
          low,
          high,
        )
    | inr t ↦
        let ne : pack.seq_num % w ≢ k = ground arith in
        let same = get_or-set_ne rxq record { received = true; pack = some pack } empty_slot ne in
        let (s, pk, m, low', high') = v (ap (λ x. x.received) (sym same) ∙ e) in
        (s, ap (λ x. contents x.pack) same ∙ pk, m, low', high')
  ]

abbrev pub held : List RxqSlot → ℕ
held [] = 0
held (slot ∷ rxq) = (if slot.received then 1 else 0) + held rxq

pub held-length : (rxq : List RxqSlot) → held rxq ≤ length rxq
held-length [] = omega arith
held-length (slot ∷ rxq) = ground (arith, held-length rxq)

pub held-set :
    (rxq : List RxqSlot) (i : ℕ)
    → (get_or rxq i empty_slot).received ≡ true
    → held (set rxq i empty_slot) + 1 ≡ held rxq
held-set [] i h = ground arith
held-set (slot ∷ rxq) zero h = ground (arith, h)
held-set (slot ∷ rxq) (suc i) h = omega (arith, held-set rxq i h)
