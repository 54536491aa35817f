-- ===== src/Swp/Sender/History.antt =====
-- Packets of a history: their data and their cumulated bytes, of swp/sender.go.
use gnatsd.Prelude.{
  ℕ, zero, suc, ◌+◌, ◌≤◌, ◌<◌, List, [], ◌∷◌, ◌++◌, Option, none, some, ◌≡◌, refl, sym, ◌∙◌, ap,
  arith, get_or, get_elem?, set, length, length-append, Bytes,
}
use gnatsd.Swp.Receiver.{Packet}
use gnatsd.Swp.Sender.{TxqSlot, unused_slot, next_retry, sent_pack}

-- The bytes of the first `n` packets of a history.
abbrev pub total : List Bytes → ℕ → ℕ
total [] n = 0
total (b ∷ h) zero = 0
total (b ∷ h) (suc n) = length b + total h n

pub total-append :
    (h : List Bytes) (b : Bytes) (n : ℕ) → n ≤ length h → total (h ++ b ∷ []) n ≡ total h n
total-append [] b zero le = refl
total-append [] b (suc n) le = absurd (omega arith)
total-append (c ∷ h) b zero le = refl
total-append (c ∷ h) b (suc n) le = ap (λ x. length c + x) (total-append h b n (omega arith))

pub total-append_all :
    (h : List Bytes) (b : Bytes)
    → total (h ++ b ∷ []) (suc (length h)) ≡ total h (length h) + length b
total-append_all [] b = omega arith
total-append_all (c ∷ h) b = omega (arith, total-append_all h b)

-- The bytes go up with the packets.
pub total_mono : (h : List Bytes) (m n : ℕ) → m ≤ n → total h m ≤ total h n
total_mono [] m n le = omega arith
total_mono (b ∷ h) zero n le = omega arith
total_mono (b ∷ h) (suc m) zero le = absurd (omega arith)
total_mono (b ∷ h) (suc m) (suc n) le = omega (arith, total_mono h m n (omega arith))

pub get_or-append :
    (h : List Bytes) (b : Bytes) (n : ℕ) → n < length h → get_or (h ++ b ∷ []) n [] ≡ get_or h n []
get_or-append [] b n l = absurd (omega arith)
get_or-append (c ∷ h) b zero l = refl
get_or-append (c ∷ h) b (suc n) l = get_or-append h b n (omega arith)

pub get_or-append_end : (h : List Bytes) (b : Bytes) → get_or (h ++ b ∷ []) (length h) [] ≡ b
get_or-append_end [] b = refl
get_or-append_end (c ∷ h) b = get_or-append_end h b

-- A packet of a history: its data and its cumulated bytes are those of its sequence number.
abbrev pub IsFrame : List Bytes → Packet → Type 0
IsFrame h pack =
    (pack.seq_num < length h)
    × (pack.bytes ≡ get_or h pack.seq_num [])
    × (pack.cumul ≡ total h (suc pack.seq_num))

abbrev pub IsFrame? : List Bytes → Option Packet → Type 0
IsFrame? h none = Unit
IsFrame? h (some pack) = IsFrame h pack

abbrev pub AllFrames : List Bytes → List Packet → Type 0
AllFrames h [] = Unit
AllFrames h (pack ∷ packs) = IsFrame h pack × AllFrames h packs

pub IsFrame?-append :
    (h : List Bytes) (b : Bytes) (p : Option Packet) → IsFrame? h p → IsFrame? (h ++ b ∷ []) p
IsFrame?-append h b none f = tt
IsFrame?-append h b (some p) (l, e, c) = (
  omega (arith, length-append h (b ∷ []), l),
  e ∙ sym (get_or-append h b p.seq_num l),
  c ∙ sym (total-append h b (suc p.seq_num) l),
)

pub AllFrames-append :
    (h : List Bytes) (b : Bytes) (ps : List Packet) → AllFrames h ps → AllFrames (h ++ b ∷ []) ps
AllFrames-append h b [] f = tt
AllFrames-append h b (p ∷ ps) (f, fs) = (IsFrame?-append h b (some p) f, AllFrames-append h b ps fs)

pub AllFrames-snoc :
    (h : List Bytes) (ps : List Packet) (p : Option Packet)
    → AllFrames h ps
    → IsFrame? h p
    → AllFrames h (ps ++ sent_pack p)
AllFrames-snoc h [] none fs f = tt
AllFrames-snoc h [] (some p) fs f = (f, tt)
AllFrames-snoc h (q ∷ ps) p (g, fs) f = (g, AllFrames-snoc h ps p fs f)

pub AllFrames-get :
    (h : List Bytes) (ps : List Packet) (i : ℕ) → AllFrames h ps → IsFrame? h (get_elem? ps i)
AllFrames-get h [] i f = tt
AllFrames-get h (p ∷ ps) zero (f, fs) = f
AllFrames-get h (p ∷ ps) (suc i) (f, fs) = AllFrames-get h ps i fs

pub IsFrame?-next_retry :
    (h : List Bytes) (p : Option Packet) → IsFrame? h p → IsFrame? h (next_retry p)
IsFrame?-next_retry h none f = tt
IsFrame?-next_retry h (some p) f = f

-- A write of a slot that holds a packet of the history.
pub IsFrame?-set :
    (h : List Bytes) (txq : List TxqSlot) (x k : ℕ) (slot : TxqSlot)
    → IsFrame? h slot.pack
    → IsFrame? h (get_or txq k unused_slot).pack
    → IsFrame? h (get_or (set txq x slot) k unused_slot).pack
IsFrame?-set h [] x k slot f g = g
IsFrame?-set h (s ∷ txq) zero zero slot f g = f
IsFrame?-set h (s ∷ txq) zero (suc k) slot f g = g
IsFrame?-set h (s ∷ txq) (suc x) zero slot f g = g
IsFrame?-set h (s ∷ txq) (suc x) (suc k) slot f g = IsFrame?-set h txq x k slot f g
