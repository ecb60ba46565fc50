-- ===== src/Gateway/Messages.antt =====
-- What src/shard.cpp does with a message of the gateway: `event_from_str`, and `on_message` and
-- `handle_gateway_payload` of the `Op` of `next_event_impl`.
pub mod Events
use Prim.Native.String.{String}
use text.Mathlib.Text.{◌==◌ as str_eq}
use Events.{event_names}
use ekizu.Prelude.{
  ℕ, ◌+◌, ◌%◌, ◌^◌, min, Bool, true, false, not, ◌&&◌, ◌||◌, Option, none, some, List, [], ◌∷◌,
  ◌++◌, ◌==◌, if◌then◌else◌,
}
use ekizu.Gateway.Json.{
  Json, Number, at, to_unsigned, as_number, as_unsigned, as_text, as_boolean, as_object,
}
use ekizu.Gateway.Shard.{
  ErrorCode, success, not_connected, invalid_argument, operation_canceled, operation_aborted, eof,
  connection_reset, ws_closed, stream_truncated, other, Result, Session, Payload, heartbeat,
  identify, resume, Handler, caller, reader, ticker, ignored, Url, gateway_url, resumed, Answer,
  event, failed, Action, complete, thrown, read, back_off, connect, send, close_ws, call,
  start_timer, cancel_timer, Shard, new_shard, Step, ◌>>◌, act, normal, close_resume, close_impl,
  send_heartbeat_async, send_identify_async, send_resume_async, start_heartbeat, heartbeat_tick,
  on_tick, join_voice_channel_impl, leave_voice_channel_impl, update_presence_impl,
  is_transient_read_error,
}

-- `event_from_str`. To convert the data to the type of the event is up to the `from_json` functions
-- of the API types, which are not modelled: whether they return is the argument `converts`, and none
-- is their exception. `RESUMED` has no data, and an event that is not known gives an error code of
-- value zero.
unfoldable pub is_known : String → List String → Bool
is_known name [] = false
is_known name (n ∷ ns) = str_eq name n || is_known name ns

unfoldable pub event_from_str : Bool → String → Json → Option Answer
unfolding is_known
event_from_str converts name value =
    if is_known name event_names
    then if converts || str_eq name "RESUMED" then some (event name value) else none
    else some (failed success)

unfoldable pub complete_or_throw : Option Answer → Action
complete_or_throw none = thrown
complete_or_throw (some a) = complete a

-- The session after a dispatch.
unfoldable pub note_sequence : Option Session → Option ℕ → Option Session
note_sequence (some ses) (some n) = some (record ses { sequence = n })
note_sequence ses _ = ses

unfoldable pub finish_dispatch : Bool → String → Json → Option ℕ → Step
unfolding event_from_str complete_or_throw note_sequence
finish_dispatch converts name value sequence s =
    act (complete_or_throw (event_from_str converts name value))
      (record s { session = note_sequence s.session sequence })

abbrev pub or_zero : Option ℕ → ℕ
or_zero none = 0
or_zero (some n) = n

-- The fields of `READY`.
unfoldable pub ready_with : Bool → Option String → Option String → Json → Option ℕ → Step
ready_with converts (some url) (some id) value sequence s =
    finish_dispatch converts "READY" value sequence (record s {
      session = some (record { id = id; sequence = or_zero sequence });
      resume_gateway_url = some url;
    })
ready_with converts _ _ value sequence s = act (complete (failed invalid_argument)) s

unfoldable pub as_sequence : Option Number → Option ℕ
as_sequence none = none
as_sequence (some n) = some (to_unsigned 64 n)

unfoldable pub dispatch_with : Bool → Option String → Option Json → Option ℕ → Step
unfolding ready_with finish_dispatch
dispatch_with converts (some name) (some value) sequence s =
    if str_eq name "READY"
    then ready_with converts (as_text (at "resume_gateway_url" value))
        (as_text (at "session_id" value)) value sequence s
    else finish_dispatch converts name value sequence s
dispatch_with converts _ _ sequence s = act (complete (failed invalid_argument)) s

unfoldable pub on_dispatch : Bool → Json → Step
unfolding dispatch_with as_sequence
on_dispatch converts json =
    dispatch_with converts (as_text (at "t" json)) (as_object (at "d" json))
      (as_sequence (as_number (at "s" json)))

unfoldable pub on_reconnect : Step
on_reconnect = close_impl close_resume reader

unfoldable pub invalid_session_with : Option Bool → Step
invalid_session_with none s = act (complete (failed invalid_argument)) s
invalid_session_with (some true) s = close_impl close_resume reader s
invalid_session_with (some false) s = close_impl normal reader s

unfoldable pub on_invalid_session : Json → Step
unfolding invalid_session_with
on_invalid_session json = invalid_session_with (as_boolean (at "d" json))

-- Identifies, or resumes if there is a session.
unfoldable pub introduce : Option Session → Step
introduce none = send_identify_async reader
introduce (some ses) = send_resume_async reader

-- `hello["heartbeat_interval"]` is converted to 32 bits.
unfoldable pub hello_with : Option ℕ → Step
unfolding introduce
hello_with none s = act (complete (failed invalid_argument)) s
hello_with (some interval) s = (start_heartbeat (interval % 2 ^ 32) >> introduce s.session) s

unfoldable pub hello_value : Option Json → Option ℕ
hello_value none = none
hello_value (some hello) = as_unsigned (at "heartbeat_interval" hello)

unfoldable pub on_hello : Json → Step
unfolding hello_with hello_value
on_hello json s = hello_with (hello_value (at "d" json)) (record s { last_heartbeat_acked = true })

unfoldable pub on_heartbeat_ack : Step
on_heartbeat_ack s = act (complete (failed success)) (record s { last_heartbeat_acked = true })

-- The switch on the opcode.
unfoldable pub on_opcode : Bool → ℕ → Json → Step
on_opcode converts op json =
    if op == 0
    then on_dispatch converts json
    else if op == 1
    then send_heartbeat_async reader
    else if op == 7
    then on_reconnect
    else if op == 9
    then on_invalid_session json
    else if op == 10
    then on_hello json
    else if op == 11
    then on_heartbeat_ack
    else act (complete (failed success))

unfoldable pub opcode_with : Bool → Option Number → Json → Step
unfolding on_opcode
opcode_with converts none json = act (complete (failed invalid_argument))
opcode_with converts (some op) json = on_opcode converts (to_unsigned 8 op) json

-- The payload as the parser gives it: none where it is discarded.
unfoldable pub handle_gateway_payload : Bool → Option Json → Step
unfolding opcode_with
handle_gateway_payload converts none = act (complete (failed invalid_argument))
handle_gateway_payload converts (some json) = opcode_with converts (as_number (at "op" json)) json

-- A message, what inflating and parsing it give, and whether the conversion of the data of its event
-- returns.
pub record Message : Type 0 where
  pub is_binary : Bool
  pub plain : Option Json
  pub inflated : Option Json
  pub inflate_error : Result
  pub converts : Bool

unfoldable pub inflate_with : Bool → Result → Option Json → Step
inflate_with converts (some ec) json = act (complete (failed ec))
inflate_with converts none json = handle_gateway_payload converts json

unfoldable pub on_message : Message → Step
unfolding inflate_with
on_message msg s =
    if s.has_inflater && msg.is_binary
    then inflate_with msg.converts msg.inflate_error msg.inflated s
    else handle_gateway_payload msg.converts msg.plain s
