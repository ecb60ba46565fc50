-- ===== src/Gateway/Pending.antt =====
-- A call of `next_event` of src/shard.cpp is answered once, or waits for one thing.
use ekizu.Prelude.{ℕ, ◌+◌, ◌≤◌, ◌≡◌, refl, Bool, true, ◌||◌, none, some, List, arith}
use ekizu.Gateway.Shard.{
  ErrorCode, Result, voice_state, presence, Handler, caller, reader, ticker, ignored, Action, Shard,
  join_voice_channel_impl, leave_voice_channel_impl, update_presence_impl,
}
use ekizu.Gateway.Connection.{
  after_reconnect, on_backoff, on_connected, ensure_connected_then_read, on_read_error, on_done,
}
use ekizu.Gateway.Machine.{
  Input, next_event, close, join_voice, leave_voice, update_presence, backed_off, connected,
  read_failed, received, ticked, done, handle,
}
use ekizu.Gateway.Effects.{
  of_handler, Answers, misfit, pending, throws, Handled, close_impl-Handled, send-Handled,
  on_tick-Handled, on_message-Handled,
}

-- Whether an input starts or continues a call of `next_event`.
abbrev pub of_input : Input → ℕ
of_input (next_event is_open) = 1
of_input (backed_off r) = 1
of_input (connected r inflater) = 1
of_input (read_failed is_open ec) = 1
of_input (received msg) = 1
of_input (done h r) = of_handler h
of_input _ = 0

ensure-pending : (o : Bool) (s : Shard) → Answers 0 1 (ensure_connected_then_read o s).1
unfolding ensure_connected_then_read
ensure-pending o s = ground arith

reconnect-pending : (r : Result) (s : Shard) → Answers 0 1 (after_reconnect r s).1
unfolding after_reconnect
reconnect-pending none s = ground arith
reconnect-pending (some ec) s = (refl, omega arith)

on_backoff-pending : (r : Result) (s : Shard) → Answers 0 1 (on_backoff r s).1
unfolding on_backoff
on_backoff-pending none s = ground arith
on_backoff-pending (some ec) s = (refl, omega arith)

on_connected-pending : (r i : Result) (s : Shard) → Answers 0 1 (on_connected r i s).1
unfolding on_connected
on_connected-pending none none s =
    reconnect-pending none
      (record s { has_ws = true; has_inflater = s.compression || s.has_inflater })
on_connected-pending none (some ec) s =
    ground (arith, reconnect-pending none (record s { has_ws = true }))
on_connected-pending (some ec) i s = (refl, omega arith)

on_read_error-pending :
    (o : Bool) (ec : ErrorCode) (s : Shard) → Answers 0 1 (on_read_error o ec s).1
unfolding on_read_error
on_read_error-pending o ec s = ground (arith, ensure-pending o s)

on_done-pending :
    (h : Handler) (r : Result) (s : Shard) → Answers 0 (of_handler h) (on_done h r s).1
unfolding on_done
on_done-pending reader none s = (refl, omega arith)
on_done-pending reader (some ec) s = (refl, omega arith)
on_done-pending ticker r s = ground arith
on_done-pending (caller n) r s = (refl, omega arith)
on_done-pending ignored r s = (refl, omega arith)

-- The exceptions that an input may end with: one, for a message with data that do not fit its event.
abbrev pub misfits : Input → ℕ
misfits (received msg) = misfit msg.converts
misfits _ = 0

handled : (n : ℕ) (k : ℕ) (s : Shard) (r : Shard × List Action) → Handled k n s r → Answers k n r.1
handled n k s r (p, a, c, q, t) = (p, t)

-- Whatever the state, an input that starts or continues a call of `next_event` does one thing for
-- it: it answers the call, asks for one thing whose completion continues it, or ends by an
-- exception, which leaves the call without an answer; every other input does none of these. The
-- exception is possible only for a message whose data the type of its event does not convert.
pub handle-pending :
    (i : Input) (s : Shard)
    → (pending (handle i s).1 + throws (handle i s).1 ≡ of_input i)
      × (throws (handle i s).1 ≤ misfits i)
unfolding handle join_voice_channel_impl leave_voice_channel_impl update_presence_impl
handle-pending (next_event o) s = ensure-pending o s
handle-pending (close code n) s =
    handled _ _ s (handle (close code n) s) (close_impl-Handled code (caller n) s)
handle-pending (join_voice g c n) s =
    handled _ _ s (handle (join_voice g c n) s) (send-Handled (voice_state g (some c)) (caller n) s)
handle-pending (leave_voice g n) s =
    handled _ _ s (handle (leave_voice g n) s) (send-Handled (voice_state g none) (caller n) s)
handle-pending (update_presence n) s =
    handled _ _ s (handle (update_presence n) s) (send-Handled presence (caller n) s)
handle-pending (backed_off r) s = on_backoff-pending r s
handle-pending (connected r i) s = on_connected-pending r i s
handle-pending (read_failed o ec) s = on_read_error-pending o ec s
handle-pending (received msg) s = handled _ _ s (handle (received msg) s) (on_message-Handled msg s)
handle-pending (ticked r) s = handled _ _ s (handle (ticked r) s) (on_tick-Handled r s)
handle-pending (done h r) s = on_done-pending h r s
