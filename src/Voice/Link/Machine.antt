-- ===== src/Voice/Link/Machine.antt =====
-- The loop of src/voice/voice_websocket.cpp, and `run`, `reconnect`, `close` and `request_stop` of
-- voice_connection_impl.cpp, in one function from the inputs of Voice.Link to their steps.
use ekizu.Prelude.{
  ℕ, Bool, true, false, not, Option, none, some, List, [], ◌∷◌, ◌++◌, ◌&&◌, if◌then◌else◌,
}
use ekizu.Voice.Link.{
  Link, Action, read, cancel_timer, cancel_ws, close_ws, connect, setup_udp, other_handler,
  undefined, send_resume, send_identify, resume_again, result, Message, ready, heartbeat_ack,
  resumed, other, skipped, hello, Input, run, reconnect, request_stop, handled, heartbeat_sent,
  final_read, close, close_done, udp_set, connected, run_connected, timer_fired, reconnect_fired,
  text, binary, read_failed, ready_state, identifying, is_resuming, on_ws, if_set, step,
  setup_heartbeat, on_heartbeat_sent, on_timer, on_reconnect_timer, on_connected, on_read_failed,
}

-- `setup_udp_async` makes the `DaveState` first.
unfoldable pub with_dave : Option Bool → Option Bool
with_dave none = some false
with_dave (some b) = some b

-- Resume or Identify after Hello.
unfoldable pub identify : Link → Link × List Action
unfolding is_resuming on_ws
identify l =
    if is_resuming l.connection_state
    then (l, on_ws l.ws (send_resume l.last_seq))
    else (record l { connection_state = identifying }, on_ws l.ws send_identify)

unfoldable pub on_hello : ℕ → Link → Link × List Action
unfolding setup_heartbeat identify
on_hello interval l =
    let s = setup_heartbeat interval l in let i = identify s.0 in (i.0, s.1 ++ i.1)

unfoldable pub on_message : Message → Link → Link × List Action
unfolding with_dave step on_hello
on_message ready l = (
  record l { disconnected = false; connection_state = ready_state; dave = with_dave l.dave },
  setup_udp ∷ [],
)
on_message heartbeat_ack l = step (record l { last_heartbeat_acked = true })
on_message resumed l =
    step (record l { connection_state = ready_state; missed_heartbeats = 0; disconnected = false })
on_message other l = (l, other_handler ∷ [])
on_message skipped l = step l
on_message (hello interval) l = on_hello interval l

unfoldable pub note_seq : Option ℕ → Link → Link
note_seq none l = l
note_seq (some seq) l = record l { last_seq = seq }

unfoldable pub run_link : Link → Link × List Action
run_link l =
    if l.ready_chan
    then (l, result true ∷ [])
    else (record l { ready_chan = true }, (if l.ws then read else connect) ∷ [])

-- The completion of the connect of `run`, which then waits on the channel.
unfoldable pub on_run_connected : Bool → Link → Link × List Action
unfolding if_set
on_run_connected false l = (l, result false ∷ [])
on_run_connected true l = (record l { ws = true }, read ∷ if_set (not l.ready_chan) undefined)

unfoldable pub stop_link : Link → Link × List Action
unfolding if_set
stop_link l = (
  record l {
    disconnected = true;
    heartbeat_running = false;
    ready_chan = false;
    heartbeat_timer = false;
    udp = false;
    dave = none;
  },
  if_set l.heartbeat_timer cancel_timer ++ if_set l.ws cancel_ws,
)

-- The end of `close`, once the UDP socket is closed.
unfoldable pub close_dave : Option Bool → Link → Link × List Action
close_dave none l = (l, undefined ∷ [])
close_dave (some false) l = (l, result true ∷ [])
close_dave (some true) l =
    if l.ws then (l, close_ws ∷ []) else (record l { disconnected = true }, result true ∷ [])

-- `close`, with whether the UDP socket can be closed.
unfoldable pub close_link : Bool → Link → Link × List Action
unfolding close_dave if_set
close_link udp_ok l =
    let stopped : Link = record l {
      heartbeat_running = false;
      ready_chan = false;
      heartbeat_timer = false;
      udp = false;
    } in
    let cancelled = if_set l.heartbeat_timer cancel_timer in
    if l.udp && not udp_ok
    then (stopped, cancelled ++ (result false ∷ []))
    else let r = close_dave l.dave stopped in (r.0, cancelled ++ r.1)

-- The completions of the close of the websocket and of the last read.
unfoldable pub on_close_done : Bool → Link → Link × List Action
unfolding on_ws
on_close_done false l = (l, result false ∷ [])
on_close_done true l = (l, on_ws l.ws read)

unfoldable pub on_final_read : Link → Link × List Action
on_final_read l = (record l { ws = false; disconnected = true }, result true ∷ [])

unfoldable pub reconnect_link : Link → Link × List Action
reconnect_link l = (l, (if l.ws then resume_again else result false) ∷ [])

unfoldable pub handle : Input → Link → Link × List Action
unfolding note_seq
handle run l = run_link l
handle (run_connected ok) l = on_run_connected ok l
handle reconnect l = reconnect_link l
handle request_stop l = stop_link l
handle (close udp_ok) l = close_link udp_ok l
handle (udp_set ok) l = (record l { udp = ok }, [])
handle (close_done ok) l = on_close_done ok l
handle final_read l = on_final_read l
handle handled l = step l
handle heartbeat_sent l = on_heartbeat_sent l
handle (timer_fired ec) l = on_timer ec l
handle (reconnect_fired ec) l = on_reconnect_timer ec l
handle (connected ok) l = on_connected ok l
handle (text seq m) l = on_message m (note_seq seq l)
handle (binary seq dave) l = (record l { last_seq = seq; dave = dave }, other_handler ∷ [])
handle (read_failed code) l = on_read_failed code l

unfoldable pub handle_all : List Input → Link → Link × List Action
unfolding handle
handle_all [] l = (l, [])
handle_all (x ∷ xs) l =
    let r = handle x l in let rest = handle_all xs r.0 in (rest.0, r.1 ++ rest.1)
