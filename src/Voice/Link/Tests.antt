-- ===== src/Voice/Link/Tests.antt =====
-- Runs of the websocket of a voice connection at concrete inputs.
use ekizu.Prelude.{◌≡◌, refl, true, false, some, none, List, [], ◌∷◌, ◌++◌, arith}
use ekizu.Voice.Link.{
  Link, ready_state, Input, request_stop, read_failed, connected, reconnect_fired, text, resumed,
  hello, timer_fired, handled, initiate_reconnect, on_timer, is_resumable_close_code,
}
use ekizu.Voice.Link.Machine.{handle_all}
use ekizu.Voice.Link.Asks.{asks}
use ekizu.Voice.Link.Heartbeats.{is_heartbeat, goes_on, no_heartbeat_after_reconnect}
use ekizu.Voice.Link.Final.{is_connect, stays_closed, stopped-final}
use ekizu.Voice.Link.Dead.{dead_connection_given_up}

abbrev link : Link
link = record {
  ws = true;
  heartbeat_timer = true;
  heartbeat_interval_ms = 5000;
  last_heartbeat_acked = false;
  heartbeat_running = true;
  missed_heartbeats = 2;
  last_seq = 40;
  connection_state = ready_state;
  disconnected = false;
  ready_chan = true;
  udp = true;
  dave = some true;
}

abbrev reconnects : List Input
reconnects =
    reconnect_fired false
    ∷ connected true
    ∷ text none (hello 5000)
    ∷ handled
    ∷ text (some 41) resumed
    ∷ timer_fired false
    ∷ []

abbrev after_stop : List Input
after_stop = timer_fired true ∷ read_failed (some 1001) ∷ reconnect_fired false ∷ []

close_codes :
    (is_resumable_close_code 1001 ≡ true)
    × (is_resumable_close_code 4006 ≡ false)
    × (is_resumable_close_code 4015 ≡ true)
unfolding is_resumable_close_code
close_codes = (refl, refl, refl)

no_heartbeat_after_reconnect_example :
    asks is_heartbeat
      ((initiate_reconnect link).1 ++ (handle_all reconnects (initiate_reconnect link).0).1)
    ≡ false
unfolding goes_on
no_heartbeat_after_reconnect_example = no_heartbeat_after_reconnect link reconnects refl refl refl

stopped-final_example :
    ((handle_all (request_stop ∷ after_stop) link).0.disconnected ≡ true)
    × (asks is_connect (handle_all (request_stop ∷ after_stop) link).1 ≡ false)
unfolding stays_closed
stopped-final_example = stopped-final link after_stop refl

dead_connection_given_up_example :
    (asks is_connect (on_timer false link).1 ≡ true)
    × ((handle_all (read_failed none ∷ after_stop) (on_timer false link).0).0.disconnected ≡ true)
    × (asks is_connect (handle_all (read_failed none ∷ after_stop) (on_timer false link).0).1
        ≡ false)
unfolding stays_closed
dead_connection_given_up_example =
    dead_connection_given_up link none after_stop refl refl (omega arith) refl refl
