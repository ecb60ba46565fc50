-- ===== src/Voice/Link/Heartbeats.antt =====
-- Heartbeats of the websocket of a voice connection after `initiate_reconnect`.
use mathlib.Core.Path.{subst}
use ekizu.Prelude.{
  ℕ, ◌⊎◌, ◌≡◌, refl, sym, ◌∙◌, Bool, true, false, not, Option, none, some, List, [], ◌∷◌, ◌++◌,
  if◌then◌else◌, if_true, inl, inr, arith,
}
use ekizu.Voice.Link.{
  Link, Action, read, cancel_timer, cancel_ws, reconnect_wait, undefined, send_heartbeat,
  send_resume, send_identify, Message, ready, heartbeat_ack, resumed, other, skipped, hello, Input,
  run, reconnect, request_stop, handled, heartbeat_sent, final_read, close, close_done, udp_set,
  connected, run_connected, timer_fired, reconnect_fired, text, binary, read_failed, if_set, step,
  heartbeat_tick, setup_heartbeat, initiate_reconnect, on_heartbeat_sent, on_timer,
  on_reconnect_timer, on_connected, on_read_failed,
}
use ekizu.Voice.Link.Machine.{
  identify, on_hello, on_message, note_seq, run_link, on_run_connected, on_close_done,
  on_final_read, reconnect_link, handle, handle_all,
}
use ekizu.Voice.Link.Asks.{asks, asks-++, asks-if_set, asks-on_ws}

-- The two calls that end the heartbeat timer.
unfoldable pub ends_timer : Input → Bool
ends_timer request_stop = true
ends_timer (close udp_ok) = true
ends_timer x = false

unfoldable pub is_heartbeat : Action → Bool
is_heartbeat (send_heartbeat seq) = true
is_heartbeat a = false

pub record IsWedged (r : Link × List Action) : Type 0 where
  pub timer_kept : r.0.heartbeat_timer ≡ true
  pub not_running : r.0.heartbeat_running ≡ false
  pub quiet : asks is_heartbeat r.1 ≡ false

initiate-IsWedged :
    (l : Link)
    → l.heartbeat_timer ≡ true
    → (l.disconnected ≡ false) ⊎ (l.heartbeat_running ≡ false)
    → IsWedged (initiate_reconnect l)
unfolding initiate_reconnect asks is_heartbeat
initiate-IsWedged l t h = record {
  timer_kept = ground arith;
  not_running = ground arith;
  quiet = ground (
    arith,
    asks-if_set is_heartbeat l.heartbeat_timer cancel_timer refl,
    asks-if_set is_heartbeat l.ws cancel_ws refl,
    asks-++ is_heartbeat (if_set l.heartbeat_timer cancel_timer)
        (if_set l.ws cancel_ws ++ (reconnect_wait ∷ [])),
    asks-++ is_heartbeat (if_set l.ws cancel_ws) (reconnect_wait ∷ []),
  );
}

timer-IsWedged :
    (ec : Bool) (l : Link)
    → l.heartbeat_timer ≡ true
    → l.heartbeat_running ≡ false
    → IsWedged (on_timer ec l)
unfolding on_timer asks is_heartbeat
timer-IsWedged ec l t r = record {
  timer_kept = ground arith;
  not_running = ground arith;
  quiet = ground arith;
}

tick-IsWedged :
    (l : Link)
    → l.heartbeat_timer ≡ true
    → l.heartbeat_running ≡ false
    → IsWedged (heartbeat_tick l)
unfolding heartbeat_tick asks is_heartbeat
tick-IsWedged l t r = record {
  timer_kept = ground arith;
  not_running = ground arith;
  quiet = ground arith;
}

identify-IsWedged :
    (l : Link) → l.heartbeat_timer ≡ true → l.heartbeat_running ≡ false → IsWedged (identify l)
unfolding identify asks is_heartbeat
identify-IsWedged l t r = record {
  timer_kept = ground arith;
  not_running = ground arith;
  quiet = ground (
    arith,
    asks-on_ws is_heartbeat l.ws (send_resume l.last_seq) refl refl,
    asks-on_ws is_heartbeat l.ws send_identify refl refl,
  );
}

hello-IsWedged :
    (interval : ℕ) (l : Link)
    → l.heartbeat_timer ≡ true
    → l.heartbeat_running ≡ false
    → IsWedged (on_hello interval l)
unfolding on_hello setup_heartbeat
hello-IsWedged interval l t r =
    subst (λ (s : Link × List Action). IsWedged ((identify s.0).0, s.1 ++ (identify s.0).1))
      (sym (if_true _ _ t)) (identify-IsWedged l t r)

message-IsWedged :
    (m : Message) (l : Link)
    → l.heartbeat_timer ≡ true
    → l.heartbeat_running ≡ false
    → IsWedged (on_message m l)
unfolding on_message step asks is_heartbeat
message-IsWedged ready l t r = record { timer_kept = t; not_running = r; quiet = refl }
message-IsWedged heartbeat_ack l t r = record {
  timer_kept = t;
  not_running = r;
  quiet = asks-if_set is_heartbeat l.ws read refl;
}
message-IsWedged resumed l t r = record {
  timer_kept = t;
  not_running = r;
  quiet = asks-if_set is_heartbeat l.ws read refl;
}
message-IsWedged other l t r = record { timer_kept = t; not_running = r; quiet = refl }
message-IsWedged skipped l t r = record {
  timer_kept = t;
  not_running = r;
  quiet = asks-if_set is_heartbeat l.ws read refl;
}
message-IsWedged (hello interval) l t r = hello-IsWedged interval l t r

keep :
    (l : Link) (xs : List Action)
    → l.heartbeat_timer ≡ true
    → l.heartbeat_running ≡ false
    → asks is_heartbeat xs ≡ false
    → IsWedged (l, xs)
keep l xs t r q = record { timer_kept = t; not_running = r; quiet = q }

read_failed-IsWedged :
    (code : Option ℕ) (l : Link)
    → l.heartbeat_timer ≡ true
    → l.heartbeat_running ≡ false
    → IsWedged (on_read_failed code l)
unfolding on_read_failed asks is_heartbeat
read_failed-IsWedged code l t r =
    let again = initiate-IsWedged l t (inr r) in
    record {
      timer_kept = ground (arith, again.timer_kept);
      not_running = ground (arith, again.not_running);
      quiet = ground (arith, again.quiet);
    }

note_seq-fields :
    (seq : Option ℕ) (l : Link)
    → (l.heartbeat_timer ≡ (note_seq seq l).heartbeat_timer)
      × (l.heartbeat_running ≡ (note_seq seq l).heartbeat_running)
unfolding note_seq
note_seq-fields none l = (refl, refl)
note_seq-fields (some seq) l = (refl, refl)

handle-IsWedged :
    (x : Input) (l : Link)
    → ends_timer x ≡ false
    → l.heartbeat_timer ≡ true
    → l.heartbeat_running ≡ false
    → IsWedged (handle x l)
unfolding ends_timer handle run_link on_run_connected on_close_done on_final_read reconnect_link
    on_reconnect_timer on_connected on_heartbeat_sent step asks is_heartbeat
handle-IsWedged run l e t r = record {
  timer_kept = ground arith;
  not_running = ground arith;
  quiet = ground arith;
}
handle-IsWedged reconnect l e t r = record {
  timer_kept = ground arith;
  not_running = ground arith;
  quiet = ground arith;
}
handle-IsWedged request_stop l e t r = absurd (cc)
handle-IsWedged handled l e t r = keep l _ t r (asks-if_set is_heartbeat l.ws read refl)
handle-IsWedged heartbeat_sent l e t r = tick-IsWedged l t r
handle-IsWedged final_read l e t r = record { timer_kept = t; not_running = r; quiet = refl }
handle-IsWedged (close ok) l e t r = absurd (cc)
handle-IsWedged (close_done true) l e t r =
    keep l _ t r (asks-on_ws is_heartbeat l.ws read refl refl)
handle-IsWedged (close_done false) l e t r = keep l _ t r refl
handle-IsWedged (udp_set ok) l e t r = record { timer_kept = t; not_running = r; quiet = refl }
handle-IsWedged (connected true) l e t r = record { timer_kept = t; not_running = r; quiet = refl }
handle-IsWedged (connected false) l e t r = record { timer_kept = t; not_running = r; quiet = refl }
handle-IsWedged (run_connected true) l e t r = record {
  timer_kept = t;
  not_running = r;
  quiet = asks-if_set is_heartbeat (not l.ready_chan) undefined refl;
}
handle-IsWedged (run_connected false) l e t r = keep l _ t r refl
handle-IsWedged (timer_fired ec) l e t r = timer-IsWedged ec l t r
handle-IsWedged (reconnect_fired ec) l e t r = record {
  timer_kept = ground arith;
  not_running = ground arith;
  quiet = ground arith;
}
handle-IsWedged (text seq m) l e t r =
    let (a, b) = note_seq-fields seq l in
    message-IsWedged m (note_seq seq l) (sym a ∙ t) (sym b ∙ r)
handle-IsWedged (binary seq dave) l e t r = record { timer_kept = t; not_running = r; quiet = refl }
handle-IsWedged (read_failed code) l e t r = read_failed-IsWedged code l t r

-- Inputs among which is no call of `close` or `request_stop`.
unfoldable pub goes_on : List Input → Bool
unfolding ends_timer
goes_on [] = true
goes_on (x ∷ xs) = if ends_timer x then false else goes_on xs

run-IsWedged :
    (xs : List Input) (l : Link)
    → goes_on xs ≡ true
    → l.heartbeat_timer ≡ true
    → l.heartbeat_running ≡ false
    → IsWedged (handle_all xs l)
unfolding handle_all goes_on asks is_heartbeat
run-IsWedged [] l g t r = record { timer_kept = t; not_running = r; quiet = refl }
run-IsWedged (x ∷ xs) l g t r =
    let first = handle-IsWedged x l (ground arith) t r in
    let rest = run-IsWedged xs (handle x l).0 (ground arith) first.timer_kept first.not_running in
    record {
      timer_kept = rest.timer_kept;
      not_running = rest.not_running;
      quiet =
          asks-++ is_heartbeat (handle x l).1 (handle_all xs (handle x l).0).1 first.quiet
            rest.quiet;
    }

-- Once a connection with a heartbeat timer begins to reconnect, it sends no heartbeat, whatever
-- happens then, a new websocket, a Hello and a Resumed among it, until `close` or `request_stop` is
-- called: `initiate_reconnect` keeps the timer, and with a timer `setup_heartbeat` does nothing.
pub no_heartbeat_after_reconnect :
    (l : Link) (xs : List Input)
    → l.heartbeat_timer ≡ true
    → l.disconnected ≡ false
    → goes_on xs ≡ true
    → asks is_heartbeat ((initiate_reconnect l).1 ++ (handle_all xs (initiate_reconnect l).0).1)
      ≡ false
no_heartbeat_after_reconnect l xs t d g =
    let first = initiate-IsWedged l t (inl d) in
    let rest = run-IsWedged xs (initiate_reconnect l).0 g first.timer_kept first.not_running in
    asks-++ is_heartbeat (initiate_reconnect l).1 (handle_all xs (initiate_reconnect l).0).1
      first.quiet rest.quiet
