-- ===== src/Gateway/Shard.antt =====
-- `Shard` of src/shard.cpp: one connection to the gateway, which is identified or resumed, kept
-- alive by heartbeats, and opened again when it is lost.
--
-- A function of the source that starts something asynchronous is a step: the state after it, and
-- what it asks for, in order. What the strand runs when that is done is another step, one for each
-- constructor of `Input` in Gateway.Machine. A handler that is called at once with an error is the action `call`, the
-- last one of its step. `m_ws` and `m_timer` are kept as whether they are engaged; whether the
-- socket is open is the library's answer, an argument.
use Prim.Native.String.{String}
use ekizu.Prelude.{
  ℕ, ◌+◌, Bool, true, false, not, ◌&&◌, ◌||◌, Option, none, some, List, [], ◌∷◌, ◌++◌, leb, ◌==◌,
  if◌then◌else◌,
}
use ekizu.Gateway.Json.{Json}

-- The codes that the steps tell apart; `success` is an error code of value zero.
pub data ErrorCode : Type 0 where
  success not_connected invalid_argument operation_canceled operation_not_permitted : ErrorCode
  operation_aborted eof connection_reset ws_closed stream_truncated : ErrorCode
  other : ℕ → ErrorCode

-- A result without a value: `none` is success.
abbrev pub Result : Type 0
Result = Option ErrorCode

pub record Session : Type 0 where
  pub id : String
  pub sequence : ℕ

pub data Payload : Type 0 where
  heartbeat : Option ℕ → Payload
  identify : Payload
  resume : String → ℕ → Payload
  voice_state : ℕ → Option ℕ → Payload
  presence : Payload

-- The completion handlers: of a caller, of the call of `next_event` that reads, of a heartbeat, and
-- of a close that nobody waits for.
pub data Handler : Type 0 where
  caller : ℕ → Handler
  reader : Handler
  ticker : Handler
  ignored : Handler

pub data Url : Type 0 where
  gateway_url : Url
  resumed : String → Url

-- What `next_event` gives its caller.
pub data Answer : Type 0 where
  event : String → Json → Answer
  failed : ErrorCode → Answer

-- `thrown` is an exception, which leaves the step where it stands. The time of `back_off` is none
-- where the source leaves it undefined.
pub data Action : Type 0 where
  complete : Answer → Action
  thrown : Action
  read : Action
  back_off : Option ℕ → Action
  connect : Url → Action
  send : Payload → Handler → Action
  close_ws : ℕ → Handler → Action
  call : Handler → ErrorCode → Action
  start_timer : ℕ → Action
  cancel_timer : Action

pub record Shard : Type 0 where
  pub has_timer : Bool
  pub last_heartbeat_acked : Bool
  pub heartbeat_interval : ℕ
  pub has_inflater : Bool
  pub compression : Bool
  pub session : Option Session
  pub resume_gateway_url : Option String
  pub has_ws : Bool
  pub reconnect_attempts : ℕ
  pub heartbeat_running : Bool
  pub intentional_close : Bool
  pub missed_heartbeats : ℕ

-- The constructor.
abbrev pub new_shard : Shard
new_shard = record {
  has_timer = false;
  last_heartbeat_acked = true;
  heartbeat_interval = 0;
  has_inflater = false;
  compression = true;
  session = none;
  resume_gateway_url = none;
  has_ws = false;
  reconnect_attempts = 0;
  heartbeat_running = false;
  intentional_close = false;
  missed_heartbeats = 0;
}

abbrev pub Step : Type 0
Step = Shard → Shard × List Action

-- One step and then another.
infixl 5 ◌>>◌
abbrev pub ◌>>◌ : Step → Step → Step
◌>>◌ f g s = let (t, first) = f s in let (u, rest) = g t in (u, first ++ rest)

abbrev pub act : Action → Step
act a s = (s, a ∷ [])

abbrev pub normal : ℕ
normal = 1000

abbrev pub going_away : ℕ
going_away = 1001

abbrev pub close_resume : ℕ
close_resume = 4000

abbrev pub session_expired : ℕ
session_expired = 4009

abbrev pub max_missed_heartbeats : ℕ
max_missed_heartbeats = 3

unfoldable pub is_transient_read_error : ErrorCode → Bool
is_transient_read_error operation_aborted = true
is_transient_read_error eof = true
is_transient_read_error connection_reset = true
is_transient_read_error ws_closed = true
is_transient_read_error stream_truncated = true
is_transient_read_error _ = false

-- The parts of `close_impl`: forgetting the session, stopping the timer, closing the socket.
unfoldable pub forget_session : ℕ → Step
forget_session code s =
    if code == normal || code == going_away
    then (record s { intentional_close = true; resume_gateway_url = none; session = none }, [])
    else (s, [])

unfoldable pub stop_timer : Step
stop_timer s =
    if s.has_timer
    then (record s { heartbeat_running = false; has_timer = false }, cancel_timer ∷ [])
    else (s, [])

unfoldable pub close_socket : ℕ → Handler → Step
close_socket code h s =
    if s.has_ws then (s, close_ws code h ∷ []) else (s, call h not_connected ∷ [])

unfoldable pub close_impl : ℕ → Handler → Step
unfolding forget_session stop_timer close_socket
close_impl code h = forget_session code >> stop_timer >> close_socket code h

-- Sends what needs nothing but a connection.
unfoldable pub send_if_connected : Payload → Handler → Step
send_if_connected p h s = if s.has_ws then (s, send p h ∷ []) else (s, call h not_connected ∷ [])

unfoldable pub join_voice_channel_impl : ℕ → ℕ → Handler → Step
unfolding send_if_connected
join_voice_channel_impl guild_id channel_id h =
    send_if_connected (voice_state guild_id (some channel_id)) h

unfoldable pub leave_voice_channel_impl : ℕ → Handler → Step
unfolding send_if_connected
leave_voice_channel_impl guild_id h = send_if_connected (voice_state guild_id none) h

unfoldable pub update_presence_impl : Handler → Step
unfolding send_if_connected
update_presence_impl h = send_if_connected presence h

unfoldable pub heartbeat_tick : Step
heartbeat_tick s =
    if s.has_timer && s.heartbeat_running
    then (s, start_timer s.heartbeat_interval ∷ [])
    else (s, [])

unfoldable pub start_heartbeat : ℕ → Step
unfolding heartbeat_tick
start_heartbeat interval s =
    if s.has_ws
    then heartbeat_tick
        (record s { heartbeat_interval = interval; has_timer = true; heartbeat_running = true })
    else (s, [])

abbrev pub sequence_of : Option Session → Option ℕ
sequence_of none = none
sequence_of (some ses) = some ses.sequence

unfoldable pub send_heartbeat_async : Handler → Step
unfolding send_if_connected
send_heartbeat_async h s = send_if_connected (heartbeat (sequence_of s.session)) h s

unfoldable pub send_identify_async : Handler → Step
unfolding send_if_connected
send_identify_async h = send_if_connected identify h

-- A resume needs a session.
unfoldable pub resume_with : Option Session → Handler → Step
resume_with none h s = (s, call h operation_not_permitted ∷ [])
resume_with (some ses) h s = (s, send (resume ses.id ses.sequence) h ∷ [])

unfoldable pub send_resume_async : Handler → Step
unfolding resume_with
send_resume_async h s =
    if s.has_ws then resume_with s.session h s else (s, call h not_connected ∷ [])

-- The handler of the heartbeat timer, by whether the last heartbeat was answered.
unfoldable pub beat : Step
unfolding send_heartbeat_async
beat s = send_heartbeat_async ticker (record s { last_heartbeat_acked = false })

unfoldable pub miss : ℕ → Step
unfolding beat close_impl
miss missed s =
    if leb max_missed_heartbeats missed
    then close_impl session_expired ignored
        (record s { missed_heartbeats = missed; heartbeat_running = false })
    else beat (record s { missed_heartbeats = missed })

unfoldable pub on_tick : Result → Step
unfolding miss beat
on_tick (some ec) s = (s, [])
on_tick none s =
    if not s.heartbeat_running || not s.has_ws
    then (s, [])
    else if s.last_heartbeat_acked
    then beat (record s { missed_heartbeats = 0 })
    else miss (s.missed_heartbeats + 1) s
