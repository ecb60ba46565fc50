-- ===== src/Gateway/Connection.antt =====
-- How src/shard.cpp connects, reads and reconnects: `reconnect_async`, and the parts of the `Op` of
-- `next_event_impl` that deal with the socket.
use Prim.Native.String.{String}
use ekizu.Prelude.{
  ℕ, ◌+◌, ◌%◌, ◌^◌, min, Bool, true, not, ◌||◌, Option, none, some, [], ltb, if◌then◌else◌,
}
use ekizu.Gateway.Shard.{
  ErrorCode, success, not_connected, operation_canceled, Result, Handler, caller, reader, ticker,
  ignored, Url, gateway_url, resumed, failed, complete, read, back_off, connect, Step, act,
  heartbeat_tick, is_transient_read_error,
}

-- `Op::read_one`.
unfoldable pub read_one : Step
read_one s = if s.has_ws then act read s else act (complete (failed not_connected)) s

-- The handler that `next_event` gives to `reconnect_async`.
unfoldable pub after_reconnect : Result → Step
unfolding read_one
after_reconnect none s = read_one s
after_reconnect (some ec) s = act (complete (failed ec)) s

-- Seconds to wait before the next attempt. The power is a `double` that is cast to 64 bits before the
-- minimum is taken, which is undefined from 2 ^ 64 on: none.
unfoldable pub backoff : ℕ → Option ℕ
backoff attempts = if ltb attempts 64 then some (min (2 ^ attempts) 128) else none

unfoldable pub reconnect_async : Step
unfolding after_reconnect backoff
reconnect_async s =
    if s.intentional_close
    then after_reconnect (some operation_canceled) s
    else act (back_off (backoff s.reconnect_attempts)) s

abbrev pub url_of : Option String → Url
url_of none = gateway_url
url_of (some url) = resumed url

unfoldable pub on_backoff : Result → Step
unfolding after_reconnect
on_backoff (some ec) s = after_reconnect (some ec) s
on_backoff none s =
    if s.intentional_close
    then after_reconnect (some operation_canceled) s
    else act (connect (url_of s.resume_gateway_url)) s

-- The results of connecting and, where it is asked for, of making an inflater.
unfoldable pub on_connected : Result → Result → Step
unfolding after_reconnect
on_connected (some ec) inflater s = after_reconnect (some ec) (record s {
  reconnect_attempts = (s.reconnect_attempts + 1) % 2 ^ 64;
  resume_gateway_url = none;
})
on_connected none none s =
    after_reconnect none
      (record s { has_ws = true; has_inflater = s.compression || s.has_inflater })
on_connected none (some ec) s =
    if s.compression
    then after_reconnect (some ec) (record s { has_ws = true })
    else after_reconnect none (record s { has_ws = true })

-- `Op::ensure_connected_then_read`; `is_open` is what the socket says, if there is one.
unfoldable pub ensure_connected_then_read : Bool → Step
unfolding reconnect_async read_one
ensure_connected_then_read is_open s =
    if not s.has_ws || not is_open
    then if s.intentional_close then act (complete (failed not_connected)) s else reconnect_async s
    else read_one s

unfoldable pub on_read_error : Bool → ErrorCode → Step
unfolding ensure_connected_then_read is_transient_read_error
on_read_error is_open ec s =
    if s.intentional_close
    then act (complete (failed ec)) s
    else if is_transient_read_error ec
    then ensure_connected_then_read is_open s
    else act (complete (failed ec)) s

-- The handler with which a call of `next_event` ends after a send or a close.
unfoldable pub after_send : Result → Step
after_send none = act (complete (failed success))
after_send (some ec) = act (complete (failed ec))

unfoldable pub on_done : Handler → Result → Step
unfolding after_send heartbeat_tick
on_done reader r s = after_send r s
on_done ticker r s = heartbeat_tick s
on_done (caller n) r s = (s, [])
on_done ignored r s = (s, [])
