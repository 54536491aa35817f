-- ===== src/Swp/Tcp/Runs.antt =====
-- Runs of the state machine of swp/tcp.go over a sequence of events.
use gnatsd.Prelude.{
  ℕ, ◌+◌, ◌≤◌, ◌<◌, List, [], ◌∷◌, ◌≡◌, ◌≢◌, refl, arith, inl, inr, Bool, true, false, ◌||◌,
  Bool-cases, ltb,
}
use gnatsd.Swp.Tcp.{
  TcpState, fresh, closed, listen, syn_received, syn_sent, established,
  close_initiator_has_sent_fin, close_responder_got_fin, TcpEvent, event_syn_ack, event_estab_ack,
  event_keep_alive, TcpAction, send_fin, do_app_close, send_syn, update_tcp,
}

-- The state after the events, and the actions in their order.
unfoldable pub run_tcp : TcpState → List (TcpEvent × TcpState) → TcpState × List TcpAction
unfolding update_tcp
run_tcp s [] = (s, [])
run_tcp s ((e, from_state) ∷ es) =
    let r = update_tcp s e from_state in let rest = run_tcp r.0 es in (rest.0, r.1 ∷ rest.1)

-- How far a session is.
abbrev pub stage : TcpState → ℕ
stage fresh = 0
stage listen = 1
stage syn_sent = 1
stage syn_received = 2
stage established = 3
stage close_initiator_has_sent_fin = 4
stage close_responder_got_fin = 4
stage closed = 5

-- One for an action that begins to close the session.
abbrev pub closes : TcpAction → ℕ
closes send_fin = 1
closes do_app_close = 1
closes _ = 0

-- One for a SYN.
abbrev pub opens : TcpAction → ℕ
opens send_syn = 1
opens _ = 0

abbrev pub count : (TcpAction → ℕ) → List TcpAction → ℕ
count w [] = 0
count w (a ∷ acts) = w a + count w acts

-- One once the session has begun to close.
abbrev pub closing : TcpState → ℕ
closing close_initiator_has_sent_fin = 1
closing close_responder_got_fin = 1
closing closed = 1
closing _ = 0

abbrev pub opened : TcpState → ℕ
opened fresh = 0
opened _ = 1

step-forward :
    (s : TcpState) (e : TcpEvent) (f : TcpState)
    → let r = update_tcp s e f in
      (stage s ≤ stage r.0)
      × (closes r.1 + closing s ≡ closing r.0)
      × (opens r.1 + opened s ≤ opened r.0)
unfolding update_tcp
step-forward s e f = ground arith

-- What shows that the remote side takes part: a SYN-ACK, an EstabAck, or a keepalive sent in state
-- Established.
unfoldable pub shows_peer : TcpEvent × TcpState → Bool
shows_peer (event_syn_ack, f) = true
shows_peer (event_estab_ack, f) = true
shows_peer (event_keep_alive, established) = true
shows_peer _ = false

unfoldable pub some_shows : List (TcpEvent × TcpState) → Bool
unfolding shows_peer
some_shows [] = false
some_shows (x ∷ es) = shows_peer x || some_shows es

step-waits :
    (s : TcpState) (e : TcpEvent) (f : TcpState)
    → stage s < 3
    → shows_peer (e, f) ≡ false
    → (update_tcp s e f).0 ≢ established
unfolding update_tcp shows_peer
step-waits s e f h k = ground arith

step-past :
    (s : TcpState) (e : TcpEvent) (f : TcpState)
    → s ≢ established
    → 3 ≤ stage s
    → (update_tcp s e f).0 ≢ established
unfolding update_tcp
step-past s e f h k = ground arith

stays_past :
    (s : TcpState) (es : List (TcpEvent × TcpState))
    → s ≢ established
    → 3 ≤ stage s
    → (run_tcp s es).0 ≢ established
unfolding run_tcp
stays_past s [] h k = h
stays_past s ((e, f) ∷ es) h k =
    stays_past (update_tcp s e f).0 es (step-past s e f h k) (omega (arith, step-forward s e f))

-- A session that has not got as far is in state Established only after an event that shows that
-- the remote side takes part.
pub run-established :
    (s : TcpState) (es : List (TcpEvent × TcpState))
    → stage s < 3
    → (run_tcp s es).0 ≡ established
    → some_shows es ≡ true
unfolding run_tcp some_shows
run-established s [] h k = absurd (ground (arith, k))
run-established s ((e, f) ∷ es) h k = elim (Bool-cases (shows_peer (e, f))) [
  | inl t ↦ rw t refl
  | inr t ↦
      let not_yet = step-waits s e f h t in
      let n = update_tcp s e f in
      elim (Bool-cases (ltb (stage n.0) 3)) [
        | inl lt ↦ rw (t, run-established n.0 es (ground arith) k) refl
        | inr ge ↦ absurd (stays_past n.0 es not_yet (ground arith) k)
      ]
]
