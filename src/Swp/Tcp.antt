-- ===== src/Swp/Tcp.antt =====
-- swp/tcp.go: the simplified TCP state machine.
pub mod Runs
mod Tests
use gnatsd.Prelude.{ℕ, List, [], ◌∷◌, ◌==◌, if◌then◌else◌}

pub data TcpState : Type 0 where
  fresh closed listen syn_received syn_sent established : TcpState
  close_initiator_has_sent_fin close_responder_got_fin : TcpState

pub data TcpEvent : Type 0 where
  event_nil event_start_listen event_start_connect event_syn event_syn_ack : TcpEvent
  event_estab_ack event_start_close event_application_closed event_fin event_fin_ack : TcpEvent
  event_data_ack event_data event_keep_alive : TcpEvent

pub data TcpAction : Type 0 where
  no_action send_syn send_syn_ack send_estab_ack send_fin send_fin_ack do_app_close : TcpAction
  send_data_ack : TcpAction

-- `UpdateTcp`: the new state and the action; the last argument is the state that the remote
-- reports.
unfoldable pub update_tcp : TcpState → TcpEvent → TcpState → TcpState × TcpAction
update_tcp closed e from_state = (closed, send_fin_ack)
update_tcp fresh event_start_listen from_state = (listen, no_action)
update_tcp fresh event_start_connect from_state = (syn_sent, send_syn)
update_tcp listen event_syn from_state = (syn_received, send_syn_ack)
update_tcp listen event_fin from_state = (close_responder_got_fin, do_app_close)
update_tcp syn_received event_estab_ack from_state = (established, no_action)
update_tcp syn_received event_keep_alive established = (established, no_action)
update_tcp syn_received event_fin from_state = (close_responder_got_fin, do_app_close)
update_tcp syn_sent event_syn_ack from_state = (established, send_estab_ack)
update_tcp syn_sent event_syn from_state = (syn_received, send_estab_ack)
update_tcp syn_sent event_fin from_state = (close_responder_got_fin, do_app_close)
update_tcp established event_keep_alive from_state = (established, send_data_ack)
update_tcp established event_start_close from_state = (close_initiator_has_sent_fin, send_fin)
update_tcp established event_fin from_state = (close_responder_got_fin, do_app_close)
update_tcp close_initiator_has_sent_fin event_fin_ack from_state = (closed, no_action)
update_tcp close_initiator_has_sent_fin event_fin from_state = (closed, no_action)
update_tcp close_responder_got_fin event_application_closed from_state = (closed, no_action)
update_tcp s e from_state = (s, no_action)
