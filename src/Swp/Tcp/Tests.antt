-- ===== src/Swp/Tcp/Tests.antt =====
-- Runs of the state machine of swp/tcp.go, and its theorems at concrete inputs.
use gnatsd.Prelude.{List, [], ◌∷◌, ◌≡◌, refl, true, arith}
use gnatsd.Swp.Tcp.{
  TcpState, fresh, closed, established, syn_received, TcpEvent, event_start_connect, event_syn_ack,
  event_start_close, event_fin_ack, event_keep_alive, send_syn, send_estab_ack, send_fin, no_action,
}
use gnatsd.Swp.Tcp.Runs.{run_tcp, run-established, some_shows}

abbrev client : List (TcpEvent × TcpState)
client =
    (event_start_connect, fresh)
    ∷ (event_syn_ack, syn_received)
    ∷ (event_start_close, established)
    ∷ (event_fin_ack, closed)
    ∷ []

client-run : run_tcp fresh client ≡ (closed, send_syn ∷ send_estab_ack ∷ send_fin ∷ no_action ∷ [])
unfolding run_tcp
client-run = refl

run-established_example : some_shows ((event_keep_alive, established) ∷ []) ≡ true
unfolding run_tcp
run-established_example =
    run-established syn_received ((event_keep_alive, established) ∷ []) (omega arith) refl
