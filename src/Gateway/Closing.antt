-- ===== src/Gateway/Closing.antt =====
-- What is left of a shard of src/shard.cpp once it is closed on purpose.
use ekizu.Prelude.{
  ℕ, ◌≡◌, refl, Bool, true, false, not, ◌||◌, none, some, List, [], ◌∷◌, arith, All-append, ◌⊎◌,
  inl, inr,
}
use ekizu.Gateway.Json.{Json, at, as_boolean}
use ekizu.Gateway.Shard.{
  ErrorCode, Result, voice_state, presence, Handler, caller, reader, ticker, ignored, Action, Shard,
  close_impl, join_voice_channel_impl, leave_voice_channel_impl, update_presence_impl,
}
use ekizu.Gateway.Connection.{
  after_reconnect, on_backoff, on_connected, ensure_connected_then_read, on_read_error, on_done,
}
use ekizu.Gateway.Messages.{invalid_session_with, on_invalid_session}
use ekizu.Gateway.Machine.{
  Input, next_event, close, join_voice, leave_voice, update_presence, backed_off, connected,
  read_failed, received, ticked, done, handle, run,
}
use ekizu.Gateway.Effects.{
  is_connecting, NoConnecting, Handled, close_impl-Handled, send-Handled, on_tick-Handled,
  on_message-Handled,
}

-- What a step leaves of a shard that was closed: it stays so, and does not connect.
abbrev pub StaysClosed : Shard × List Action → Type 0
StaysClosed r = (r.0.intentional_close ≡ true) × NoConnecting r.1

Handled-StaysClosed :
    (m n : ℕ) (s : Shard) (r : Shard × List Action)
    → Handled m n s r
    → s.intentional_close ≡ true
    → StaysClosed r
Handled-StaysClosed m n s r (p, a, k, q, t) c =
    (still s.intentional_close r.0.intentional_close c k, q)
  where
    still : (a b : Bool) → a ≡ true → (not a || b) ≡ true → b ≡ true
    still true b h k = k
    still false b h k = absurd (cc)

ensure-StaysClosed :
    (o : Bool) (s : Shard)
    → s.intentional_close ≡ true
    → StaysClosed (ensure_connected_then_read o s)
unfolding ensure_connected_then_read
ensure-StaysClosed o s c = ground arith

reconnect-StaysClosed :
    (r : Result) (s : Shard) → s.intentional_close ≡ true → StaysClosed (after_reconnect r s)
unfolding after_reconnect
reconnect-StaysClosed none s c = ground arith
reconnect-StaysClosed (some ec) s c = (c, (refl, tt))

on_backoff-StaysClosed :
    (r : Result) (s : Shard) → s.intentional_close ≡ true → StaysClosed (on_backoff r s)
unfolding on_backoff
on_backoff-StaysClosed none s c = ground arith
on_backoff-StaysClosed (some ec) s c = (c, (refl, tt))

on_connected-StaysClosed :
    (r i : Result) (s : Shard) → s.intentional_close ≡ true → StaysClosed (on_connected r i s)
unfolding on_connected
on_connected-StaysClosed none none s c =
    reconnect-StaysClosed none
      (record s { has_ws = true; has_inflater = s.compression || s.has_inflater }) c
on_connected-StaysClosed none (some ec) s c =
    ground (arith, reconnect-StaysClosed none (record s { has_ws = true }) c)
on_connected-StaysClosed (some ec) i s c = (c, (refl, tt))

on_read_error-StaysClosed :
    (o : Bool) (ec : ErrorCode) (s : Shard)
    → s.intentional_close ≡ true
    → StaysClosed (on_read_error o ec s)
unfolding on_read_error
on_read_error-StaysClosed o ec s c = ground (arith, ensure-StaysClosed o s c)

on_done-StaysClosed :
    (h : Handler) (r : Result) (s : Shard)
    → s.intentional_close ≡ true
    → StaysClosed (on_done h r s)
unfolding on_done
on_done-StaysClosed reader none s c = (c, (refl, tt))
on_done-StaysClosed reader (some ec) s c = (c, (refl, tt))
on_done-StaysClosed ticker r s c = ground arith
on_done-StaysClosed (caller n) r s c = (c, tt)
on_done-StaysClosed ignored r s c = (c, tt)

handle-StaysClosed : (i : Input) (s : Shard) → s.intentional_close ≡ true → StaysClosed (handle i s)
unfolding handle join_voice_channel_impl leave_voice_channel_impl update_presence_impl
handle-StaysClosed (next_event o) s c = ensure-StaysClosed o s c
handle-StaysClosed (close code n) s c =
    Handled-StaysClosed _ _ s (handle (close code n) s) (close_impl-Handled code (caller n) s) c
handle-StaysClosed (join_voice g ch n) s c =
    Handled-StaysClosed _ _ s (handle (join_voice g ch n) s)
      (send-Handled (voice_state g (some ch)) (caller n) s) c
handle-StaysClosed (leave_voice g n) s c =
    Handled-StaysClosed _ _ s (handle (leave_voice g n) s)
      (send-Handled (voice_state g none) (caller n) s) c
handle-StaysClosed (update_presence n) s c =
    Handled-StaysClosed _ _ s (handle (update_presence n) s) (send-Handled presence (caller n) s) c
handle-StaysClosed (backed_off r) s c = on_backoff-StaysClosed r s c
handle-StaysClosed (connected r i) s c = on_connected-StaysClosed r i s c
handle-StaysClosed (read_failed o ec) s c = on_read_error-StaysClosed o ec s c
handle-StaysClosed (received msg) s c =
    Handled-StaysClosed _ _ s (handle (received msg) s) (on_message-Handled msg s) c
handle-StaysClosed (ticked r) s c =
    Handled-StaysClosed _ _ s (handle (ticked r) s) (on_tick-Handled r s) c
handle-StaysClosed (done h r) s c = on_done-StaysClosed h r s c

run-StaysClosed :
    (is : List Input) (s : Shard) → s.intentional_close ≡ true → StaysClosed (run is s)
unfolding run
run-StaysClosed [] s c = (c, tt)
run-StaysClosed (i ∷ is) s c =
    let (c1, q1) = handle-StaysClosed i s c in
    let (c2, q2) = run-StaysClosed is (handle i s).0 c1 in
    (c2, All-append (λ a. is_connecting a ≡ false) _ _ q1 q2)

closed :
    (code : ℕ) (h : Handler) (s : Shard)
    → (code ≡ 1000) ⊎ (code ≡ 1001)
    → ((close_impl code h s).0.session ≡ none)
      × ((close_impl code h s).0.resume_gateway_url ≡ none)
      × ((close_impl code h s).0.intentional_close ≡ true)
unfolding close_impl
closed code h s (inl e) = ground arith
closed code h s (inr e) = ground arith

-- When a shard is closed with the code 1000 or 1001, it has forgotten its session and the address to
-- resume at by the end of the close; it stays marked as closed on purpose, and asks for no connect
-- and for no wait before one, whatever its strand runs later.
pub close_impl-final :
    (code : ℕ) (h : Handler) (s : Shard) (is : List Input)
    → (code ≡ 1000) ⊎ (code ≡ 1001)
    → ((close_impl code h s).0.session ≡ none)
      × ((close_impl code h s).0.resume_gateway_url ≡ none)
      × ((run is (close_impl code h s).0).0.intentional_close ≡ true)
      × NoConnecting (run is (close_impl code h s).0).1
close_impl-final code h s is e =
    let (ses, url, c) = closed code h s e in
    let (stays, quiet) = run-StaysClosed is _ c in (ses, url, stays, quiet)

-- A shard that is told that its session is invalid and cannot be resumed is marked as closed on
-- purpose, and asks for no connect and for no wait before one, whatever its strand runs later.
pub invalid_session-final :
    (json : Json) (s : Shard) (is : List Input)
    → as_boolean (at "d" json) ≡ some false
    → ((on_invalid_session json s).0.intentional_close ≡ true)
      × NoConnecting (run is (on_invalid_session json s).0).1
unfolding on_invalid_session invalid_session_with
invalid_session-final json s is e =
    rw e (let (ses, url, c) = closed 1000 reader s (inl refl) in (c, (run-StaysClosed is _ c).1))
