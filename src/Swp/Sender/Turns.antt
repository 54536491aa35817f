-- ===== src/Swp/Sender/Turns.antt =====
-- The branches of a turn of the loop of swp/sender.go.
use gnatsd.Prelude.{
  ℕ, true, false, Option, some, if◌then◌else◌, ◌⊎◌, ◌≡◌, sym, ap, subst, inl, inr, Bool-cases,
}
use gnatsd.Swp.Retree.{Rbtree}
use gnatsd.Swp.Sender.{
  SenderState, SenderEvent, too_quiet, halt, resend_due, wakeup, select, handle,
}

module _ (t : Rbtree) where
  pub wakeup-cases :
      (now : ℕ) (clk : ℕ → ℕ × ℕ) (s : SenderState t)
      → ((too_quiet t now s ≡ true) × (wakeup t now clk s ≡ halt t s))
        ⊎ ((too_quiet t now s ≡ false) × (wakeup t now clk s ≡ resend_due t now clk s))
  unfolding wakeup
  wakeup-cases now clk s = elim (Bool-cases (too_quiet t now s)) [
    | inl e ↦ inl (e, ap (λ b. if b then halt t s else resend_due t now clk s) e)
    | inr e ↦ inr (e, ap (λ b. if b then halt t s else resend_due t now clk s) e)
  ]

  -- What holds of both branches of the timer.
  pub wakeup_either :
      (P : SenderState t → Type 0) (now : ℕ) (clk : ℕ → ℕ × ℕ) (s : SenderState t)
      → P (halt t s)
      → P (resend_due t now clk s)
      → P (wakeup t now clk s)
  wakeup_either P now clk s p q = elim (wakeup-cases now clk s) [
    | inl (_, e) ↦ subst P (sym e) p
    | inr (_, e) ↦ subst P (sym e) q
  ]

  pub handle-running :
      (e : SenderEvent) (s : SenderState t) → s.halted ≡ false → handle t e s ≡ select t e s
  unfolding handle
  handle-running e s h = ap (λ b. if b then some s else select t e s) h

  -- What holds of a loop that has returned, and of one that has not.
  pub handle_either :
      (P : Option (SenderState t) → Type 0) (e : SenderEvent) (s : SenderState t)
      → P (some s)
      → P (select t e s)
      → P (handle t e s)
  unfolding handle
  handle_either P e s p q = elim (Bool-cases s.halted) [
    | inl h ↦ subst P (sym (ap (λ b. if b then some s else select t e s) h)) p
    | inr h ↦ subst P (sym (handle-running e s h)) q
  ]
