-- ===== src/Voice/Link/Final.antt =====
-- A voice connection whose flag of disconnection is set does not come back by itself.
use ekizu.Prelude.{
  ℕ, ◌≡◌, refl, sym, ◌∙◌, Bool, true, false, not, ◌||◌, ◌&&◌, Option, none, some, List, [], ◌∷◌,
  if◌then◌else◌, ◌+◌, leb, arith,
}
use ekizu.Voice.Link.{
  Link, Action, max_missed_heartbeats, read, cancel_timer, cancel_ws, reconnect_wait, connect,
  undefined, send_resume, send_identify, result, Message, ready, heartbeat_ack, resumed, other,
  skipped, hello, Input, run, reconnect, request_stop, handled, heartbeat_sent, final_read, close,
  close_done, udp_set, connected, run_connected, timer_fired, reconnect_fired, text, binary,
  read_failed, if_set, step, heartbeat_tick, setup_heartbeat, initiate_reconnect, on_heartbeat_sent,
  send_heartbeat_now, beat, on_timer, on_reconnect_timer, on_connected, on_read_failed,
}
use ekizu.Voice.Link.Machine.{
  identify, on_hello, on_message, note_seq, on_run_connected, on_close_done, on_final_read,
  reconnect_link, stop_link, close_link, close_dave, handle, handle_all,
}
use ekizu.Voice.Link.Asks.{asks, asks-++, asks-if_set, asks-on_ws}

-- What takes the flag away, or connects by itself: the messages Ready and Resumed, and `run`.
unfoldable pub revives_message : Message → Bool
revives_message ready = true
revives_message resumed = true
revives_message m = false

unfoldable pub revives : Input → Bool
unfolding revives_message
revives run = true
revives (text seq m) = revives_message m
revives x = false

unfoldable pub is_connect : Action → Bool
is_connect connect = true
is_connect reconnect_wait = true
is_connect a = false

pub record IsFinal (r : Link × List Action) : Type 0 where
  pub flag : r.0.disconnected ≡ true
  pub quiet : asks is_connect r.1 ≡ false

final :
    (l : Link) (xs : List Action)
    → l.disconnected ≡ true
    → asks is_connect xs ≡ false
    → IsFinal (l, xs)
final l xs d q = record { flag = d; quiet = q }

initiate-IsFinal : (l : Link) → l.disconnected ≡ true → IsFinal (initiate_reconnect l)
unfolding initiate_reconnect asks is_connect
initiate-IsFinal l d = record { flag = ground arith; quiet = ground arith }

tick-IsFinal : (l : Link) → l.disconnected ≡ true → IsFinal (heartbeat_tick l)
unfolding heartbeat_tick asks is_connect
tick-IsFinal l d = record { flag = ground arith; quiet = ground arith }

beat-IsFinal : (l : Link) → l.disconnected ≡ true → IsFinal (beat l)
unfolding beat send_heartbeat_now on_heartbeat_sent asks is_connect
beat-IsFinal l d =
    let tick = tick-IsFinal (record l { last_heartbeat_acked = false }) d in
    record { flag = ground (arith, tick.flag); quiet = ground (arith, tick.quiet) }

if-IsFinal :
    (b : Bool) (r s : Link × List Action) → IsFinal r → IsFinal s → IsFinal (if b then r else s)
if-IsFinal true r s x y = x
if-IsFinal false r s x y = y

timer-IsFinal : (ec : Bool) (l : Link) → l.disconnected ≡ true → IsFinal (on_timer ec l)
unfolding on_timer asks is_connect
timer-IsFinal ec l d = if-IsFinal (ec || not l.heartbeat_running) _ _ (final l [] d refl) (
    if-IsFinal l.last_heartbeat_acked _ _ (beat-IsFinal (record l { missed_heartbeats = 0 }) d) (
      if-IsFinal (leb max_missed_heartbeats (l.missed_heartbeats + 1)) _ _
        (initiate-IsFinal (record l { missed_heartbeats = l.missed_heartbeats + 1 }) d)
        (beat-IsFinal (record l { missed_heartbeats = l.missed_heartbeats + 1 }) d)))

read_failed-IsFinal :
    (code : Option ℕ) (l : Link) → l.disconnected ≡ true → IsFinal (on_read_failed code l)
unfolding on_read_failed asks is_connect
read_failed-IsFinal code l d =
    let again = initiate-IsFinal l d in
    record { flag = ground (arith, again.flag); quiet = ground (arith, again.quiet) }

setup-IsFinal :
    (interval : ℕ) (l : Link) → l.disconnected ≡ true → IsFinal (setup_heartbeat interval l)
unfolding setup_heartbeat asks is_connect
setup-IsFinal interval l d =
    let tick =
      tick-IsFinal
        (record l {
          heartbeat_interval_ms = interval;
          heartbeat_timer = true;
          heartbeat_running = true;
        })
        d in
    record { flag = ground (arith, tick.flag); quiet = ground (arith, tick.quiet) }

identify-IsFinal : (l : Link) → l.disconnected ≡ true → IsFinal (identify l)
unfolding identify asks is_connect
identify-IsFinal l d = record {
  flag = ground arith;
  quiet = ground (
    arith,
    asks-on_ws is_connect l.ws (send_resume l.last_seq) refl refl,
    asks-on_ws is_connect l.ws send_identify refl refl,
  );
}

hello-IsFinal : (interval : ℕ) (l : Link) → l.disconnected ≡ true → IsFinal (on_hello interval l)
unfolding on_hello
hello-IsFinal interval l d =
    let s = setup-IsFinal interval l d in
    let i = identify-IsFinal (setup_heartbeat interval l).0 s.flag in
    record {
      flag = i.flag;
      quiet =
          asks-++ is_connect (setup_heartbeat interval l).1
            (identify (setup_heartbeat interval l).0).1 s.quiet i.quiet;
    }

message-IsFinal :
    (m : Message) (l : Link)
    → revives_message m ≡ false
    → l.disconnected ≡ true
    → IsFinal (on_message m l)
unfolding on_message revives_message step asks is_connect
message-IsFinal ready l e d = absurd (cc)
message-IsFinal heartbeat_ack l e d = record {
  flag = d;
  quiet = asks-if_set is_connect l.ws read refl;
}
message-IsFinal resumed l e d = absurd (cc)
message-IsFinal other l e d = final l _ d refl
message-IsFinal skipped l e d = final l _ d (asks-if_set is_connect l.ws read refl)
message-IsFinal (hello interval) l e d = hello-IsFinal interval l d

note_seq-flag : (seq : Option ℕ) (l : Link) → l.disconnected ≡ (note_seq seq l).disconnected
unfolding note_seq
note_seq-flag none l = refl
note_seq-flag (some seq) l = refl

close_dave-IsFinal : (o : Option Bool) (l : Link) → l.disconnected ≡ true → IsFinal (close_dave o l)
unfolding close_dave asks is_connect
close_dave-IsFinal none l d = final l _ d refl
close_dave-IsFinal (some false) l d = final l _ d refl
close_dave-IsFinal (some true) l d =
    if-IsFinal l.ws _ _ (final l _ d refl) (record { flag = refl; quiet = refl })

close-IsFinal : (udp_ok : Bool) (l : Link) → l.disconnected ≡ true → IsFinal (close_link udp_ok l)
unfolding close_link asks is_connect
close-IsFinal udp_ok l d =
    let cancelled = asks-if_set is_connect l.heartbeat_timer cancel_timer refl in
    let stopped : Link = record l {
      heartbeat_running = false;
      ready_chan = false;
      heartbeat_timer = false;
      udp = false;
    } in
    let last = close_dave-IsFinal l.dave stopped d in
    if-IsFinal (l.udp && not udp_ok) _ _
      (final stopped _ d (
        asks-++ is_connect (if_set l.heartbeat_timer cancel_timer) (result false ∷ []) cancelled
          refl))
      (record {
        flag = last.flag;
        quiet =
            asks-++ is_connect (if_set l.heartbeat_timer cancel_timer) (close_dave l.dave stopped).1
              cancelled last.quiet;
      })

handle-IsFinal :
    (x : Input) (l : Link) → revives x ≡ false → l.disconnected ≡ true → IsFinal (handle x l)
unfolding revives handle on_run_connected on_close_done on_final_read reconnect_link
    on_reconnect_timer on_connected on_heartbeat_sent step stop_link asks is_connect
handle-IsFinal run l e d = absurd (cc)
handle-IsFinal reconnect l e d = record { flag = d; quiet = ground arith }
handle-IsFinal request_stop l e d = record {
  flag = refl;
  quiet =
      asks-++ is_connect (if_set l.heartbeat_timer cancel_timer) (if_set l.ws cancel_ws)
        (asks-if_set is_connect l.heartbeat_timer cancel_timer refl)
        (asks-if_set is_connect l.ws cancel_ws refl);
}
handle-IsFinal handled l e d = final l _ d (asks-if_set is_connect l.ws read refl)
handle-IsFinal heartbeat_sent l e d = tick-IsFinal l d
handle-IsFinal final_read l e d = record { flag = refl; quiet = refl }
handle-IsFinal (close ok) l e d = close-IsFinal ok l d
handle-IsFinal (close_done true) l e d = final l _ d (asks-on_ws is_connect l.ws read refl refl)
handle-IsFinal (close_done false) l e d = final l _ d refl
handle-IsFinal (udp_set ok) l e d = record { flag = d; quiet = refl }
handle-IsFinal (connected true) l e d = record { flag = d; quiet = refl }
handle-IsFinal (connected false) l e d = record { flag = refl; quiet = refl }
handle-IsFinal (run_connected true) l e d = record {
  flag = d;
  quiet = asks-if_set is_connect (not l.ready_chan) undefined refl;
}
handle-IsFinal (run_connected false) l e d = final l _ d refl
handle-IsFinal (timer_fired ec) l e d = timer-IsFinal ec l d
handle-IsFinal (reconnect_fired ec) l e d = record { flag = ground arith; quiet = ground arith }
handle-IsFinal (text seq m) l e d =
    message-IsFinal m (note_seq seq l) e (sym (note_seq-flag seq l) ∙ d)
handle-IsFinal (binary seq dave) l e d = record { flag = d; quiet = refl }
handle-IsFinal (read_failed code) l e d = read_failed-IsFinal code l d

unfoldable pub stays_closed : List Input → Bool
unfolding revives
stays_closed [] = true
stays_closed (x ∷ xs) = if revives x then false else stays_closed xs

pub run-IsFinal :
    (xs : List Input) (l : Link)
    → stays_closed xs ≡ true
    → l.disconnected ≡ true
    → IsFinal (handle_all xs l)
unfolding handle_all stays_closed asks is_connect
run-IsFinal [] l g d = final l [] d refl
run-IsFinal (x ∷ xs) l g d =
    let first = handle-IsFinal x l (ground arith) d in
    let rest = run-IsFinal xs (handle x l).0 (ground arith) first.flag in
    record {
      flag = rest.flag;
      quiet =
          asks-++ is_connect (handle x l).1 (handle_all xs (handle x l).0).1 first.quiet rest.quiet;
    }

-- Once `request_stop` is called, the connection asks for no connect and for no wait before one, and
-- keeps the flag of disconnection, whatever timers, reads, sends and calls then end, as long as `run`
-- is not called and no Ready and no Resumed is read.
pub stopped-final :
    (l : Link) (xs : List Input)
    → stays_closed xs ≡ true
    → ((handle_all (request_stop ∷ xs) l).0.disconnected ≡ true)
      × (asks is_connect (handle_all (request_stop ∷ xs) l).1 ≡ false)
unfolding handle_all handle stop_link revives
stopped-final l xs g =
    let first : IsFinal (stop_link l) =
      handle-IsFinal request_stop (record l { disconnected = true }) refl refl in
    let rest = run-IsFinal xs (stop_link l).0 g refl in
    (
      rest.flag,
      asks-++ is_connect (stop_link l).1 (handle_all xs (stop_link l).0).1 first.quiet rest.quiet,
    )
