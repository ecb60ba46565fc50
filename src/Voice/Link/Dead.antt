-- ===== src/Voice/Link/Dead.antt =====
-- A voice connection whose heartbeats are not answered.
use ekizu.Prelude.{
  ℕ, ◌≡◌, ◌≤◌, refl, ap, ◌∙◌, Bool, true, false, not, ◌&&◌, Option, List, [], ◌∷◌, ◌++◌,
  if◌then◌else◌, if_true, if_false, ◌+◌, le→leb, arith,
}
use ekizu.Voice.Link.{
  Link, Action, cancel_timer, cancel_ws, reconnect_wait, max_missed_heartbeats, ConnectionState,
  disconnected_state, connecting, identifying, ready_state, resuming, closed, Input, read_failed,
  is_ready, if_set, initiate_reconnect, on_timer, on_read_failed, close_code,
  is_resumable_close_code,
}
use ekizu.Voice.Link.Machine.{handle, handle_all}
use ekizu.Voice.Link.Asks.{asks}
use ekizu.Voice.Link.Final.{is_connect, stays_closed, run-IsFinal}

-- What `initiate_reconnect` leaves.
abbrev reconnecting : Link → Link
reconnecting l = record l {
  heartbeat_running = false;
  connection_state = (if is_ready l.connection_state then resuming else connecting);
  ws = false;
}

timer_dead :
    (l : Link)
    → l.heartbeat_running ≡ true
    → l.last_heartbeat_acked ≡ false
    → 2 ≤ l.missed_heartbeats
    → on_timer false l
      ≡ initiate_reconnect (record l { missed_heartbeats = l.missed_heartbeats + 1 })
unfolding on_timer
timer_dead l r a m =
    if_false _ _ (ap not r)
    ∙ (if_false _ _ a
        ∙ if_true _ _ (le→leb max_missed_heartbeats (l.missed_heartbeats + 1) (omega (arith, m))))

initiated : (l : Link) → l.disconnected ≡ false → (initiate_reconnect l).0 ≡ reconnecting l
unfolding initiate_reconnect
initiated l d = ap (λ (r : Link × List Action). r.0) (if_false _ _ d)

asks_any : (xs ys : List Action) → asks is_connect ys ≡ true → asks is_connect (xs ++ ys) ≡ true
unfolding asks is_connect
asks_any [] ys h = h
asks_any (x ∷ xs) ys h = ground (arith, asks_any xs ys h)

initiated_asks :
    (l : Link) → l.disconnected ≡ false → asks is_connect (initiate_reconnect l).1 ≡ true
unfolding initiate_reconnect asks is_connect
initiated_asks l d =
    ap (λ (r : Link × List Action). asks is_connect r.1) (if_false _ _ d)
    ∙ asks_any (if_set l.heartbeat_timer cancel_timer)
        (if_set l.ws cancel_ws ++ (reconnect_wait ∷ []))
        (asks_any (if_set l.ws cancel_ws) (reconnect_wait ∷ []) refl)

not_ready : (s : ConnectionState) → is_ready (if is_ready s then resuming else connecting) ≡ false
unfolding is_ready
not_ready disconnected_state = refl
not_ready connecting = refl
not_ready identifying = refl
not_ready ready_state = refl
not_ready resuming = refl
not_ready closed = refl

and_false : (a b : Bool) → b ≡ false → (a && b) ≡ false
and_false true b e = e
and_false false b e = refl

failed_closed :
    (code : Option ℕ) (l : Link)
    → is_ready l.connection_state ≡ false
    → on_read_failed code l ≡ (record l { connection_state = closed; disconnected = true }, [])
unfolding on_read_failed
failed_closed code l e =
    if_false _ _
      (and_false (is_resumable_close_code (close_code l.ws code)) (is_ready l.connection_state) e)

dead_not_ready :
    (l : Link)
    → l.heartbeat_running ≡ true
    → l.last_heartbeat_acked ≡ false
    → 2 ≤ l.missed_heartbeats
    → l.disconnected ≡ false
    → is_ready (on_timer false l).0.connection_state ≡ false
dead_not_ready l r a m d =
    ap (λ (t : Link × List Action). is_ready t.0.connection_state) (timer_dead l r a m)
    ∙ (ap (λ (t : Link). is_ready t.connection_state)
          (initiated (record l { missed_heartbeats = l.missed_heartbeats + 1 }) d)
        ∙ not_ready l.connection_state)

-- When a third heartbeat in a row has no answer and the connection was not given up before, the
-- timer's step starts to reconnect. But when the read fails after that, with any close code, the
-- connection counts as disconnected: it asks for no connect and for no wait before one, whatever
-- timers, sends and calls then end, until `run` is called or a Ready or a Resumed is read.
pub dead_connection_given_up :
    (l : Link) (code : Option ℕ) (xs : List Input)
    → l.heartbeat_running ≡ true
    → l.last_heartbeat_acked ≡ false
    → 2 ≤ l.missed_heartbeats
    → l.disconnected ≡ false
    → stays_closed xs ≡ true
    → (asks is_connect (on_timer false l).1 ≡ true)
      × ((handle_all (read_failed code ∷ xs) (on_timer false l).0).0.disconnected ≡ true)
      × (asks is_connect (handle_all (read_failed code ∷ xs) (on_timer false l).0).1 ≡ false)
unfolding handle_all handle
dead_connection_given_up l code xs r a m d g =
    let failed = failed_closed code (on_timer false l).0 (dead_not_ready l r a m d) in
    let flag = ap (λ (t : Link × List Action). t.0.disconnected) failed in
    let rest = run-IsFinal xs (on_read_failed code (on_timer false l).0).0 g flag in
    (
      ap (λ (t : Link × List Action). asks is_connect t.1) (timer_dead l r a m)
          ∙ initiated_asks (record l { missed_heartbeats = l.missed_heartbeats + 1 }) d,
      rest.flag,
      ap
            (λ (t : Link × List Action).
              asks is_connect
                (t.1 ++ (handle_all xs (on_read_failed code (on_timer false l).0).0).1))
            failed
          ∙ rest.quiet,
    )
