-- ===== src/Gateway/Tests.antt =====
-- Runs of the shard of src/shard.cpp.
use ekizu.Prelude.{
  ◌+◌, ◌≤◌, ◌%◌, ◌^◌, ◌≡◌, refl, true, false, none, some, List, [], ◌∷◌, ◌++◌, ◌⊎◌, inl,
}
use ekizu.Gateway.Json.{
  Json, unsigned, end, field, object, number, boolean, at, find, as_boolean, as_number, to_unsigned,
  as_text, as_object,
}
use ekizu.Gateway.Shard.{
  Shard, new_shard, caller, reader, ignored, complete, failed, thrown, success, start_timer, send,
  resume, connect, resumed, close_ws, cancel_timer, back_off, session_expired, close_impl, on_tick,
}
use ekizu.Gateway.Connection.{reconnect_async}
use ekizu.Gateway.Messages.{on_invalid_session, on_message, handle_gateway_payload, on_dispatch}
use ekizu.Gateway.Machine.{Input, received, next_event, backed_off, connected, handle, run}
use ekizu.Gateway.Effects.{pending, throws, NoConnecting}
use ekizu.Gateway.Pending.{of_input, misfits, handle-pending}
use ekizu.Gateway.Closing.{close_impl-final, invalid_session-final}
use ekizu.Gateway.Attempts.{failures, wait_of, waits_for_failures}
use ekizu.Gateway.Heartbeats.{round, answered_round, rounds, beat_of, repeated, heartbeats_decide}
use ekizu.Gateway.Resume.{
  Later, dispatch_json, message, hello_json, last_sequence, session_inputs, reconnecting,
  session_resumed,
}

abbrev live : Shard
live = record new_shard {
  has_timer = true;
  heartbeat_interval = 41250;
  has_ws = true;
  heartbeat_running = true;
  session = some (record { id = "abc"; sequence = 7 });
}

abbrev invalid_json : Json
invalid_json = object (field "op" (number (unsigned 9)) (field "d" (boolean false) end))

handle-pending_example :
    (pending (handle (message invalid_json) live).1 + throws (handle (message invalid_json) live).1
      ≡ of_input (message invalid_json))
    × (throws (handle (message invalid_json) live).1 ≤ misfits (message invalid_json))
handle-pending_example = handle-pending (message invalid_json) live

close_impl-final_example :
    ((close_impl 1000 (caller 3) live).0.session ≡ none)
    × ((close_impl 1000 (caller 3) live).0.resume_gateway_url ≡ none)
    × ((run (next_event false ∷ []) (close_impl 1000 (caller 3) live).0).0.intentional_close ≡ true)
    × NoConnecting (run (next_event false ∷ []) (close_impl 1000 (caller 3) live).0).1
close_impl-final_example = close_impl-final 1000 (caller 3) live (next_event false ∷ []) (inl refl)

invalid_session-final_example :
    ((on_invalid_session invalid_json live).0.intentional_close ≡ true)
    × NoConnecting (run (next_event false ∷ []) (on_invalid_session invalid_json live).0).1
unfolding as_boolean at find
invalid_session-final_example = invalid_session-final invalid_json live (next_event false ∷ []) refl

abbrev failing : List Input
failing =
    next_event false ∷ backed_off none ∷ connected (some success) none ∷ connected none none ∷ []

waits_for_failures_example :
    ((run failing new_shard).0.reconnect_attempts ≡ failures failing % 2 ^ 64)
    × (((run failing new_shard).0.intentional_close ≡ true)
        ⊎ ((reconnect_async (run failing new_shard).0).1
            ≡ back_off (wait_of (failures failing % 2 ^ 64)) ∷ []))
waits_for_failures_example = waits_for_failures failing

heartbeats_decide_example :
    ((rounds 5 answered_round live).1 ≡ repeated 5 (beat_of live ++ complete (failed success) ∷ []))
    × ((rounds 3 round live).1 ≡ repeated 3 (beat_of live))
    × (on_tick none (rounds 3 round live).0 ≡ (
      record live {
        missed_heartbeats = 3;
        last_heartbeat_acked = false;
        heartbeat_running = false;
        has_timer = false;
      },
      cancel_timer ∷ close_ws session_expired ignored ∷ [],
    ))
heartbeats_decide_example =
    heartbeats_decide live 5 (record { connected = refl; timed = refl; running = refl }) refl

abbrev created : Later
created = record { name = "MESSAGE_CREATE"; sequence = 9; fields = end; not_ready = refl }

session_resumed_example :
    let t =
      (run reconnecting (run (session_inputs "abc" "wss://x" 1 end (created ∷ [])) live).0).0 in
    ((handle (backed_off none) t).1 ≡ connect (resumed "wss://x") ∷ [])
    × ((handle
          (message (hello_json 41250))
          (run (backed_off none ∷ connected none none ∷ []) t).0).1
        ≡ start_timer (41250 % 2 ^ 32)
          ∷ send (resume "abc" (last_sequence (1 % 2 ^ 64) (created ∷ []))) reader
          ∷ [])
session_resumed_example = session_resumed "abc" "wss://x" 1 41250 end (created ∷ []) live refl

-- A known event whose data do not fit it leaves the call without an answer.
abbrev misfit_message : Input
misfit_message = received (record {
  is_binary = false;
  plain = some (dispatch_json "MESSAGE_CREATE" 9 end);
  inflated = none;
  inflate_error = none;
  converts = false;
})

misfit_test : ((handle misfit_message live).1 ≡ thrown ∷ [])
unfolding handle on_message handle_gateway_payload as_number at to_unsigned on_dispatch as_text
    as_object
misfit_test = refl
