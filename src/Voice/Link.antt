-- ===== src/Voice/Link.antt =====
-- The websocket of a voice connection: its state, and src/voice/voice_heartbeat.cpp and
-- voice_reconnect.cpp. What the strand runs is an input; a step gives the state after it and the
-- operations it starts.
use ekizu.Prelude.{
  ℕ, ◌+◌, Bool, true, false, not, Option, none, some, List, [], ◌∷◌, ◌++◌, ltb, leb, ◌||◌, ◌&&◌,
  ◌==◌, if◌then◌else◌,
}
mod Asks
mod Dead
mod Final
mod Heartbeats
mod Machine
mod Tests

pub data ConnectionState : Type 0 where
  disconnected_state connecting identifying ready_state resuming closed : ConnectionState

-- The numbers of messages are not negative. `dave` is none for a null `m_dave`, and else whether its session has an external sender; `ws`,
-- `heartbeat_timer`, `udp` and `ready_chan` say whether the fields of those names hold a value.
pub record Link : Type 0 where
  pub ws : Bool
  pub heartbeat_timer : Bool
  pub heartbeat_interval_ms : ℕ
  pub last_heartbeat_acked : Bool
  pub heartbeat_running : Bool
  pub missed_heartbeats : ℕ
  pub last_seq : ℕ
  pub connection_state : ConnectionState
  pub disconnected : Bool
  pub ready_chan : Bool
  pub udp : Bool
  pub dave : Option Bool

-- What a step starts. `undefined` is the use of a field that holds no value.
pub data Action : Type 0 where
  read wait cancel_timer cancel_ws close_ws reconnect_wait connect setup_udp : Action
  other_handler undefined : Action
  send_heartbeat send_resume : ℕ → Action
  send_identify resume_again : Action
  result : Bool → Action

-- The messages of the server that these fields depend on. Of the others, `other` starts a handler
-- that ends with `handled`, and `skipped` only has the loop go on, as what cannot be parsed does.
pub data Message : Type 0 where
  ready heartbeat_ack resumed other skipped : Message
  hello : ℕ → Message

-- `binary` has what its handler leaves of `m_dave`. `handled` ends a handler or a send of the loop.
-- `udp_set` is what `setup_udp_async` leaves of `m_udp`. `close` has whether the UDP socket can be closed, `timer_fired` and `reconnect_fired` have whether there is an error code, the others of the kind
-- whether the operation succeeded.
pub data Input : Type 0 where
  run reconnect request_stop handled heartbeat_sent final_read : Input
  close close_done udp_set connected run_connected : Bool → Input
  timer_fired reconnect_fired : Bool → Input
  text : Option ℕ → Message → Input
  binary : ℕ → Option Bool → Input
  read_failed : Option ℕ → Input

abbrev pub max_missed_heartbeats : ℕ
max_missed_heartbeats = 3

-- `should_resume` holds for 4015 alone.
unfoldable pub should_resume : ℕ → Bool
should_resume code = code == 4015

unfoldable pub is_resumable_close_code : ℕ → Bool
unfolding should_resume
is_resumable_close_code code =
    if ltb code 4000
    then true
    else if leb 4001 code && leb code 4016
    then should_resume code
    else true

unfoldable pub is_ready : ConnectionState → Bool
is_ready disconnected_state = false
is_ready connecting = false
is_ready identifying = false
is_ready ready_state = true
is_ready resuming = false
is_ready closed = false

unfoldable pub is_resuming : ConnectionState → Bool
is_resuming disconnected_state = false
is_resuming connecting = false
is_resuming identifying = false
is_resuming ready_state = false
is_resuming resuming = true
is_resuming closed = false

-- An operation on the websocket, which is undefined where there is none.
unfoldable pub on_ws : Bool → Action → List Action
on_ws true a = a ∷ []
on_ws false a = undefined ∷ []

unfoldable pub if_set : Bool → Action → List Action
if_set true a = a ∷ []
if_set false a = []

-- `ListenOp::step`.
unfoldable pub step : Link → Link × List Action
unfolding if_set
step l = (l, if_set l.ws read)

unfoldable pub heartbeat_tick : Link → Link × List Action
heartbeat_tick l =
    if not l.heartbeat_running || not l.heartbeat_timer then (l, []) else (l, wait ∷ [])

unfoldable pub setup_heartbeat : ℕ → Link → Link × List Action
unfolding heartbeat_tick
setup_heartbeat interval l =
    if l.heartbeat_timer
    then (l, [])
    else heartbeat_tick (record l {
      heartbeat_interval_ms = interval;
      heartbeat_timer = true;
      heartbeat_running = true;
    })

unfoldable pub initiate_reconnect : Link → Link × List Action
unfolding is_ready if_set
initiate_reconnect l = if l.disconnected then (l, []) else (
  record l {
    heartbeat_running = false;
    connection_state = (if is_ready l.connection_state then resuming else connecting);
    ws = false;
  },
  if_set l.heartbeat_timer cancel_timer ++ (if_set l.ws cancel_ws ++ (reconnect_wait ∷ [])),
)

-- The completion of `send_heartbeat`.
unfoldable pub on_heartbeat_sent : Link → Link × List Action
unfolding heartbeat_tick
on_heartbeat_sent l = heartbeat_tick l

unfoldable pub send_heartbeat_now : Link → Link × List Action
unfolding on_heartbeat_sent
send_heartbeat_now l = if l.ws then (l, send_heartbeat l.last_seq ∷ []) else on_heartbeat_sent l

unfoldable pub beat : Link → Link × List Action
unfolding send_heartbeat_now
beat l = send_heartbeat_now (record l { last_heartbeat_acked = false })

unfoldable pub on_timer : Bool → Link → Link × List Action
unfolding beat initiate_reconnect
on_timer ec l =
    if ec || not l.heartbeat_running
    then (l, [])
    else if l.last_heartbeat_acked
    then beat (record l { missed_heartbeats = 0 })
    else if leb max_missed_heartbeats (l.missed_heartbeats + 1)
    then initiate_reconnect (record l { missed_heartbeats = l.missed_heartbeats + 1 })
    else beat (record l { missed_heartbeats = l.missed_heartbeats + 1 })

unfoldable pub on_reconnect_timer : Bool → Link → Link × List Action
on_reconnect_timer ec l = if ec || l.disconnected then (l, []) else (l, connect ∷ [])

-- The completion of `connect_ws_async`, with its handler.
unfoldable pub on_connected : Bool → Link → Link × List Action
on_connected false l = (record l { connection_state = closed; disconnected = true }, [])
on_connected true l =
    (record l { ws = true; last_heartbeat_acked = true; missed_heartbeats = 0 }, read ∷ [])

-- The close code, 1006 where there is none.
unfoldable pub close_code : Bool → Option ℕ → ℕ
close_code false code = 1006
close_code true none = 1006
close_code true (some code) = code

unfoldable pub on_read_failed : Option ℕ → Link → Link × List Action
unfolding is_resumable_close_code is_ready close_code initiate_reconnect
on_read_failed code l =
    if is_resumable_close_code (close_code l.ws code) && is_ready l.connection_state
    then initiate_reconnect l
    else (record l { connection_state = closed; disconnected = true }, [])
