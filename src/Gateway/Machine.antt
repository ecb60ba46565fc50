-- ===== src/Gateway/Machine.antt =====
-- The shard of src/shard.cpp as a machine: all that its strand runs.
use ekizu.Prelude.{ℕ, Bool, List, [], ◌∷◌}
use ekizu.Gateway.Shard.{
  ErrorCode, Result, Handler, caller, Step, ◌>>◌, close_impl, on_tick, join_voice_channel_impl,
  leave_voice_channel_impl, update_presence_impl,
}
use ekizu.Gateway.Connection.{
  ensure_connected_then_read, on_backoff, on_connected, on_read_error, on_done,
}
use ekizu.Gateway.Messages.{Message, on_message}

-- What the strand runs: calls of the user, and the completion of what the shard asked for.
pub data Input : Type 0 where
  next_event : Bool → Input
  close : ℕ → ℕ → Input
  join_voice : ℕ → ℕ → ℕ → Input
  leave_voice : ℕ → ℕ → Input
  update_presence : ℕ → Input
  backed_off : Result → Input
  connected : Result → Result → Input
  read_failed : Bool → ErrorCode → Input
  received : Message → Input
  ticked : Result → Input
  done : Handler → Result → Input

unfoldable pub handle : Input → Step
handle (next_event is_open) = ensure_connected_then_read is_open
handle (close code n) = close_impl code (caller n)
handle (join_voice guild_id channel_id n) = join_voice_channel_impl guild_id channel_id (caller n)
handle (leave_voice guild_id n) = leave_voice_channel_impl guild_id (caller n)
handle (update_presence n) = update_presence_impl (caller n)
handle (backed_off r) = on_backoff r
handle (connected r inflater) = on_connected r inflater
handle (read_failed is_open ec) = on_read_error is_open ec
handle (received msg) = on_message msg
handle (ticked r) = on_tick r
handle (done h r) = on_done h r

unfoldable pub run : List Input → Step
unfolding handle
run [] s = (s, [])
run (i ∷ is) s = (handle i >> run is) s
