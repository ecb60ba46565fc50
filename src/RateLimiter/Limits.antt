-- ===== src/RateLimiter/Limits.antt =====
-- src/rate_limiter.cpp sends no request that a recorded rate limit forbids.
use mathlib.Core.Path.{subst}
use ekizu.Prelude.{
  ℕ, ◌≡◌, ◌≢◌, refl, sym, ap, ◌∙◌, Bool, true, false, Option, none, some, [], ◌∷◌, ◌++◌, ◌⊎◌, inl,
  inr, Bool-cases, Option-cases, arith, if_true, if_false, some_inj,
}
use ekizu.RateLimiter.{
  RateLimiter, RateLimit, Pending, Reply, Context, store_limits, RateLimits, new_rate_limiter,
}
use ekizu.RateLimiter.Machine.{
  Event, send, timer, completion, stop, Outcome, got, failed, finish_one, do_send, start_next,
  timer_over, on_timer, on_response, receive, handle, wait_for, reset_of,
}
use ekizu.RateLimiter.Headers.{Time, is_before}
use ekizu.RateLimiter.Starts.{Starts, settled, sent, waits, skips, start_next-Starts, busy_next}
use ekizu.RateLimiter.Steps.{
  ValidWhen, size, is_none, throws_in, accepted, armed_none, sending_busy, sending_busy, unqueued,
}
use ekizu.RateLimiter.Order.{throws, stops, handle-Keeps}

-- The timer of a request that waits expires at the reset time of a limit for the request.
abbrev pub TimedFor : Option Pending → RateLimits → Option Time → Type 0
TimedFor none limits armed = Unit
TimedFor (some p) limits armed =
    (rl : RateLimit) × (limits p.req.verb p.req.target ≡ some rl) × (armed ≡ some rl.reset_time)

-- What a start at `now` leaves: a timer that is set so, and a request that may be sent now.
record Fresh (now : ℕ) (s : RateLimiter) : Type 0 where
  timed : TimedFor s.waiting s.rate_limits s.armed
  free : (p : Pending) → s.in_flight ≡ some p → reset_of s.rate_limits p.req now ≡ none

wait_for-some :
    (o : Option RateLimit) (now : ℕ) (t : Time)
    → wait_for o now ≡ some t
    → (rl : RateLimit) × (o ≡ some rl) × (rl.reset_time ≡ t)
unfolding wait_for
wait_for-some none now t h = cc
wait_for-some (some rl) now t h = (rl, refl, ground arith)

wait_for_over :
    (rl : RateLimit) (now : ℕ) → is_before now rl.reset_time ≡ false → wait_for (some rl) now ≡ none
unfolding wait_for
wait_for_over rl now h = ground arith

nothing_waits : (s : RateLimiter) → s.waiting ≡ none → TimedFor s.waiting s.rate_limits s.armed
nothing_waits s w = rw w tt

Starts-Fresh : {now : ℕ} {s t : RateLimiter} → Starts now s t → Fresh now t
unfolding reset_of
Starts-Fresh {t} (settled i e) = record {
  timed = nothing_waits t i.none_waits;
  free = λ p f. absurd (cc (i.none_sent));
}
Starts-Fresh {now} {s} {t} (sent p rest i e h) = record {
  timed = nothing_waits t i.none_waits;
  free = λ q f. subst (λ (r : Pending). reset_of s.rate_limits r.req now ≡ none) (some_inj f) h;
}
Starts-Fresh {now} {s} (waits p rest t i e h) =
    let (rl, found, time) = wait_for-some (s.rate_limits p.req.verb p.req.target) now t h in
    record { timed = (rl, found, ap some (sym time)); free = λ q f. absurd (cc (i.none_sent)) }
Starts-Fresh (skips p rest i e st) = Starts-Fresh st

unfoldable pub frees : Event → Bool
frees (completion now out) = true
frees _ = false

unfoldable pub time_of : Event → ℕ
time_of (send now p) = now
time_of (timer now ec) = now
time_of (completion now out) = now
time_of (stop now) = now

-- The handler of a timer that was not cancelled runs at the expiry or later.
unfoldable pub OnTime : Event → RateLimiter → Type 0
OnTime (timer now none) s = (t : Time) → s.armed ≡ some t → is_before now t ≡ false
OnTime _ s = Unit

-- What an event leaves if no request was in flight before, or it takes that away.
Sends : Event → RateLimiter → Type 0
Sends e s = (s.in_flight ≡ none) ⊎ (frees e ≡ true)

finish-Fresh :
    (now : ℕ) (p : Pending) (r : Reply) (c : Option Context) (s : RateLimiter)
    → s.stopping ≡ false
    → s.waiting ≡ none
    → s.in_flight ≡ none
    → Fresh now (finish_one (start_next now) p r c s)
unfolding finish_one
finish-Fresh now p r c s run w f =
    Starts-Fresh (
      start_next-Starts now _
        (record { running = run; idle = refl; none_waits = w; none_sent = f }))

queued-Fresh :
    (now : ℕ) (p : Pending) (s : RateLimiter) (b : Bool)
    → s.busy ≡ b
    → s.stopping ≡ false
    → ValidWhen false s
    → TimedFor s.waiting s.rate_limits s.armed
    → s.in_flight ≡ none
    → Fresh now (start_next now (record s { queue = s.queue ++ p ∷ [] }))
queued-Fresh now p s true b r v t f =
    subst (Fresh now) (sym (busy_next now _ r b)) (record { timed = t; free = λ q e. absurd (cc) })
queued-Fresh now p s false b r (inl c, v1, v2) t f = absurd (cc)
queued-Fresh now p s false b r (inr (q, w, f), v1, v2) t f' =
    Starts-Fresh
      (start_next-Starts now _ (record { running = r; idle = b; none_waits = w; none_sent = f }))

do_send-Fresh :
    (now : ℕ) (p : Pending) (s : RateLimiter) (b : Bool)
    → s.has_send_fn ≡ b
    → s.stopping ≡ false
    → s.waiting ≡ none
    → s.in_flight ≡ none
    → reset_of s.rate_limits p.req now ≡ none
    → Fresh now (do_send (start_next now) p s)
unfolding do_send
do_send-Fresh now p s true h r w f free =
    subst (Fresh now) (sym (if_false _ _ r ∙ if_true (record s { in_flight = some p }) _ h))
      (record {
        timed = nothing_waits s w;
        free = λ q e.
            subst (λ (x : Pending). reset_of s.rate_limits x.req now ≡ none) (some_inj e) free;
      })
do_send-Fresh now p s false h r w f free =
    subst (Fresh now) (sym (if_false _ _ r ∙ if_false _ _ h)) (finish-Fresh now p _ _ s r w f)

timer-Fresh :
    (w : Option Pending) (now : ℕ) (ec : Option ℕ) (s : RateLimiter)
    → s.waiting ≡ w
    → s.stopping ≡ false
    → ValidWhen false s
    → TimedFor w s.rate_limits s.armed
    → OnTime (timer now ec) s
    → s.in_flight ≡ none
    → s.armed ≢ none
    → Fresh now (timer_over w now ec (record s { waiting = none; armed = none }))
unfolding timer_over OnTime reset_of
timer-Fresh none now ec s e r v t o f a = absurd (a (armed_none s (v.2 ∙ ap size e)))
timer-Fresh (some p) now none s e r v (rl, found, time) o f a =
    subst (Fresh now) (sym (if_false _ _ r)) (
      do_send-Fresh now p _ s.has_send_fn refl r refl f
        (ap (λ x. wait_for x now) found ∙ wait_for_over rl now (o rl.reset_time time)))
timer-Fresh (some p) now (some code) s e r v t o f a =
    subst (Fresh now) (sym (if_false _ _ r)) (finish-Fresh now p _ _ _ r refl f)

timer_event-Fresh :
    (a : Option Time) (now : ℕ) (ec : Option ℕ) (s : RateLimiter)
    → s.armed ≡ a
    → s.stopping ≡ false
    → ValidWhen false s
    → TimedFor s.waiting s.rate_limits s.armed
    → OnTime (timer now ec) s
    → s.in_flight ≡ none
    → Fresh now (elim a [ none ↦ s | some _ ↦ on_timer now ec s ])
unfolding on_timer
timer_event-Fresh none now ec s e r v t o f = record { timed = t; free = λ q h. absurd (cc) }
timer_event-Fresh (some a) now ec s e r v t o f =
    timer-Fresh s.waiting now ec s refl r v t o f (λ h. cc)

taken-Fresh :
    {now : ℕ} (o : Option RateLimits) (f : RateLimits → RateLimiter) (s : RateLimiter)
    → is_none o ≡ false
    → ((limits : RateLimits) → Fresh now (f limits))
    → Fresh now (elim o [ none ↦ s | some limits ↦ f limits ])
taken-Fresh none f s h k = absurd (cc)
taken-Fresh (some limits) f s h k = k limits

response-Fresh :
    (f : Option Pending) (now : ℕ) (out : Outcome) (s : RateLimiter)
    → s.in_flight ≡ f
    → throws_in f out s.rate_limits ≡ false
    → s.stopping ≡ false
    → ValidWhen false s
    → TimedFor s.waiting s.rate_limits s.armed
    → Fresh now (receive f now out (record s { in_flight = none }))
unfolding receive
response-Fresh none now out s e h r v t = record { timed = t; free = λ q h. absurd (cc) }
response-Fresh (some p) now (failed code) s e h r v t =
    finish-Fresh now p _ _ _ r (unqueued s p e v.1) refl
response-Fresh (some p) now (got res) s e h r v t =
    taken-Fresh (store_limits p.req res s.rate_limits) _ _ h
      (λ limits. finish-Fresh now p _ _ _ r (unqueued s p e v.1) refl)

handle-Fresh :
    (e : Event) (s : RateLimiter)
    → stops e ≡ false
    → throws e s ≡ false
    → s.stopping ≡ false
    → ValidWhen false s
    → TimedFor s.waiting s.rate_limits s.armed
    → OnTime e s
    → Sends e s
    → Fresh (time_of e) (handle e s)
unfolding handle throws stops on_response time_of Sends frees
handle-Fresh (send now p) s h t r v m o (inl f) =
    subst (Fresh now) (sym (accepted now p s r)) (queued-Fresh now p s s.busy refl r v m f)
handle-Fresh (timer now ec) s h t r v m o (inl f) =
    timer_event-Fresh s.armed now ec s refl r v m o f
handle-Fresh (completion now out) s h t r v m o f =
    response-Fresh s.in_flight now out s refl t r v m
handle-Fresh (stop now) s h t r v m o f = absurd (cc)
handle-Fresh (send now p) s h t r v m o (inr f) = absurd (cc)
handle-Fresh (timer now ec) s h t r v m o (inr f) = absurd (cc)

-- While a request is in flight, nothing waits.
still_timed :
    (e : Event) (s : RateLimiter) (p : Pending)
    → s.in_flight ≡ some p
    → stops e ≡ false
    → frees e ≡ false
    → s.stopping ≡ false
    → ValidWhen false s
    → TimedFor s.waiting s.rate_limits s.armed
    → TimedFor (handle e s).waiting (handle e s).rate_limits (handle e s).armed
unfolding handle stops frees
still_timed (send now q) s p e h f r v t =
    subst (λ (x : RateLimiter). TimedFor x.waiting x.rate_limits x.armed)
      (sym (accepted now q s r ∙ busy_next now _ r (sending_busy s p e v.0))) t
still_timed (timer now ec) s p e h f r v t =
    let unarmed = armed_none s (v.2 ∙ ap size (unqueued s p e v.1)) in
    subst
      (λ (a : Option Time).
        let x : RateLimiter = elim a [ none ↦ s | some _ ↦ on_timer now ec s ] in
        TimedFor x.waiting x.rate_limits x.armed)
      (sym unarmed) t
still_timed (completion now out) s p e h f r v t = absurd (cc)
still_timed (stop now) s p e h f r v t = absurd (cc)

-- The states of a limiter that is not shut down, whose timers are on time and where no header
-- value throws.
pub data Runs : RateLimiter → Type 0 where
  begin : (has_send_fn : Bool) → Runs (new_rate_limiter has_send_fn)
  next :
      {s : RateLimiter} (e : Event)
      → Runs s
      → stops e ≡ false
      → throws e s ≡ false
      → OnTime e s
      → Runs (handle e s)

record Sound (s : RateLimiter) : Type 0 where
  running : s.stopping ≡ false
  valid : ValidWhen false s
  timed : TimedFor s.waiting s.rate_limits s.armed

handle-Sound :
    (e : Event) (s : RateLimiter)
    → stops e ≡ false
    → throws e s ≡ false
    → OnTime e s
    → Sound s
    → Sound (handle e s)
unfolding Sends
handle-Sound e s h t o k =
    let keeps = handle-Keeps e s h t k.running k.valid in
    record {
      running = keeps.running;
      valid = keeps.valid;
      timed = elim (Option-cases s.in_flight) [
        | inl f ↦ (handle-Fresh e s h t k.running k.valid k.timed o (inl f)).timed
        | inr (p, f) ↦ elim (Bool-cases (frees e)) [
          | inl c ↦ (handle-Fresh e s h t k.running k.valid k.timed o (inr c)).timed
          | inr c ↦ still_timed e s p f h c k.running k.valid k.timed
        ]
      ];
    }

Runs-Sound : {s : RateLimiter} → Runs s → Sound s
Runs-Sound (begin b) = record {
  running = refl;
  valid = (inr (refl, refl, refl), inl refl, refl);
  timed = tt;
}
Runs-Sound (next e r h t o) = handle-Sound e _ h t o (Runs-Sound r)

-- A limiter that is not shut down, whose timers are not early and where no header value throws
-- puts a request in flight only at a time at which no recorded rate limit for its method and
-- target has none remaining and a reset time ahead.
pub sends_within_limits :
    {s : RateLimiter} (e : Event) (p : Pending)
    → Runs s
    → stops e ≡ false
    → throws e s ≡ false
    → OnTime e s
    → (s.in_flight ≡ none) ⊎ (frees e ≡ true)
    → (handle e s).in_flight ≡ some p
    → reset_of (handle e s).rate_limits p.req (time_of e) ≡ none
unfolding Sends
sends_within_limits {s} e p r h t o f put =
    let k = Runs-Sound r in (handle-Fresh e s h t k.running k.valid k.timed o f).free p put

-- A limiter that is not shut down has at most one request out of its queue: one that waits for a
-- timer or one in flight. It is busy then, and if it is not busy the queue is empty. This needs
-- timers that are not early and that no header value throws.
pub one_at_a_time : {s : RateLimiter} → Runs s → ValidWhen false s
one_at_a_time r = (Runs-Sound r).valid
