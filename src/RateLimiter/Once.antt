-- ===== src/RateLimiter/Once.antt =====
-- Every request given to src/rate_limiter.cpp is completed at most once, and none is forgotten, across
-- a shutdown.
use mathlib.Core.Path.{subst}
use ekizu.Prelude.{
  ℕ, ◌+◌, ◌≡◌, refl, sym, ap, ◌∙◌, Bool, true, false, Option, none, some, List, [], ◌∷◌, ◌⊎◌, inl,
  inr, arith, if_true, if_false,
}
use ekizu.RateLimiter.{
  error, rate_limiter_stopped, shutting_down, RateLimiter, Pending, Reply, Context, store_limits,
  RateLimits, new_rate_limiter,
}
use ekizu.RateLimiter.Machine.{
  Event, send, timer, completion, stop, Outcome, got, failed, finish_one, start_next,
  async_send_impl, timer_over, on_timer, on_response, receive, shutdown, handle,
}
use ekizu.RateLimiter.Starts.{stopped_next}
use ekizu.RateLimiter.Headers.{Time}
use ekizu.RateLimiter.Steps.{ValidWhen, held, account, is_none, throws_in}
use ekizu.RateLimiter.Order.{throws, brings, run, requests, stops, handle-Keeps}
use ekizu.RateLimiter.Shutdown.{
  count, count-append, tally, tally_lem, count-answered, Stopped, finish_one_stopped,
  stop_all-Stopped,
}

-- A handler for each request that an event brings is added to the account.
After : (ℕ → ℕ) → Event → RateLimiter → Type 0
After n e s = Stopped (λ a. n a + count a (brings e)) s

same_tally : {n : ℕ → ℕ} {s : RateLimiter} → Stopped n s → Stopped (λ a. n a + count a []) s
unfolding count
same_tally k = record {
  stopped = k.stopped;
  none_waits = k.none_waits;
  none_queued = k.none_queued;
  tallied = λ a. omega (arith, k.tallied a);
}

Stopped-send :
    {n : ℕ → ℕ} (now : ℕ) (p : Pending) (s : RateLimiter)
    → Stopped n s
    → Stopped (λ a. n a + count a (p.handler ∷ [])) (async_send_impl now p s)
unfolding async_send_impl tally
Stopped-send now p s k = subst (Stopped _) (sym (if_true _ _ k.stopped)) (record {
  stopped = k.stopped;
  none_waits = k.none_waits;
  none_queued = k.none_queued;
  tallied = λ a. omega (
    arith,
    k.tallied a,
    count-answered a s.completed (record {
      handler = p.handler;
      result = error rate_limiter_stopped;
      context = some shutting_down;
    }),
  );
})

Stopped-timer :
    {n : ℕ → ℕ} (w : Option Pending) (now : ℕ) (ec : Option ℕ) (s : RateLimiter)
    → s.waiting ≡ w
    → Stopped n s
    → Stopped n (timer_over w now ec (record s { waiting = none; armed = none }))
unfolding timer_over tally count
Stopped-timer none now ec s e k =
    subst (Stopped _)
      (sym (stopped_next now (record s { busy = false; waiting = none; armed = none }) k.stopped))
      (record {
        stopped = k.stopped;
        none_waits = refl;
        none_queued = k.none_queued;
        tallied = λ a. omega (arith, k.tallied a, ap (λ f. count a (held f)) e);
      })
Stopped-timer (some p) now ec s e k = absurd (cc (k.none_waits))

Stopped-timer_event :
    {n : ℕ → ℕ} (a : Option Time) (now : ℕ) (ec : Option ℕ) (s : RateLimiter)
    → Stopped n s
    → Stopped n (elim a [ none ↦ s | some _ ↦ on_timer now ec s ])
unfolding on_timer
Stopped-timer_event none now ec s k = k
Stopped-timer_event (some t) now ec s k = Stopped-timer s.waiting now ec s refl k

-- A response completes the request that was sent.
Stopped-finish :
    {n : ℕ → ℕ} (p : Pending) (now : ℕ) (r : Reply) (c : Option Context) (limits : RateLimits)
    (s : RateLimiter)
    → s.in_flight ≡ some p
    → Stopped n s
    → Stopped n
        (finish_one (start_next now) p r c (record s { in_flight = none; rate_limits = limits }))
unfolding tally count
Stopped-finish p now r c limits s e k =
    subst (Stopped _)
      (sym (
        finish_one_stopped now p r c (record s { in_flight = none; rate_limits = limits })
          k.stopped))
      (record {
        stopped = k.stopped;
        none_waits = k.none_waits;
        none_queued = k.none_queued;
        tallied = λ a. omega (
          arith,
          k.tallied a,
          ap (λ f. count a (held f)) e,
          count-answered a s.completed (record { handler = p.handler; result = r; context = c }),
        );
      })

Stopped-taken :
    {n : ℕ → ℕ} (o : Option RateLimits) (f : RateLimits → RateLimiter) (s : RateLimiter)
    → is_none o ≡ false
    → ((limits : RateLimits) → Stopped n (f limits))
    → Stopped n (elim o [ none ↦ s | some limits ↦ f limits ])
Stopped-taken none f s h k = absurd (cc)
Stopped-taken (some limits) f s h k = k limits

Stopped-response :
    {n : ℕ → ℕ} (f : Option Pending) (now : ℕ) (out : Outcome) (s : RateLimiter)
    → s.in_flight ≡ f
    → throws_in f out s.rate_limits ≡ false
    → Stopped n s
    → Stopped n (receive f now out (record s { in_flight = none }))
unfolding receive tally count
Stopped-response none now out s e h k = record {
  stopped = k.stopped;
  none_waits = k.none_waits;
  none_queued = k.none_queued;
  tallied = λ a. omega (arith, k.tallied a, ap (λ f. count a (held f)) e);
}
Stopped-response (some p) now (failed code) s e h k = Stopped-finish p now _ _ s.rate_limits s e k
Stopped-response (some p) now (got res) s e h k =
    Stopped-taken (store_limits p.req res s.rate_limits) _ _ h
      (λ limits. Stopped-finish p now _ _ limits s e k)

Stopped-handle :
    {n : ℕ → ℕ} (e : Event) (s : RateLimiter)
    → throws e s ≡ false
    → Stopped n s
    → Stopped (λ a. n a + count a (brings e)) (handle e s)
unfolding handle throws brings on_response shutdown
Stopped-handle (send now p) s t k = Stopped-send now p s k
Stopped-handle (timer now ec) s t k = same_tally (Stopped-timer_event s.armed now ec s k)
Stopped-handle (completion now out) s t k =
    same_tally (Stopped-response s.in_flight now out s refl t k)
Stopped-handle (stop now) s t k = same_tally (subst (Stopped _) (sym (if_true _ _ k.stopped)) k)

-- A limiter that runs, by the tally of its account.
record Running (n : ℕ → ℕ) (s : RateLimiter) : Type 0 where
  running : s.stopping ≡ false
  valid : ValidWhen false s
  tallied : (a : ℕ) → tally a s ≡ n a

Running-shutdown :
    {n : ℕ → ℕ} (now : ℕ) (s : RateLimiter) → Running n s → Stopped n (shutdown now s)
unfolding shutdown tally
Running-shutdown now s k =
    let t = stop_all-Stopped now (record s { stopping = true; has_send_fn = false }) refl in
    subst (Stopped _) (sym (if_false _ _ k.running)) (record {
      stopped = t.stopped;
      none_waits = t.none_waits;
      none_queued = t.none_queued;
      tallied = λ a. t.tallied a ∙ k.tallied a;
    })

Running-handle :
    {n : ℕ → ℕ} (e : Event) (s : RateLimiter)
    → stops e ≡ false
    → throws e s ≡ false
    → Running n s
    → Running (λ a. n a + count a (brings e)) (handle e s)
Running-handle e s h t k =
    let r = handle-Keeps e s h t k.running k.valid in
    record {
      running = r.running;
      valid = r.valid;
      tallied = λ a. omega (
        arith,
        k.tallied a,
        tally_lem a s,
        tally_lem a (handle e s),
        ap (count a) r.kept,
        count-append a (account s) (brings e),
      );
    }

-- Running or stopped.
abbrev Tallied : (ℕ → ℕ) → RateLimiter → Type 0
Tallied n s = Running n s ⊎ Stopped n s

handle-Tallied :
    (n : ℕ → ℕ) (e : Event) (s : RateLimiter)
    → throws e s ≡ false
    → Tallied n s
    → Tallied (λ a. n a + count a (brings e)) (handle e s)
unfolding handle brings stops throws
handle-Tallied n (stop now) s t (inl k) = inr (same_tally (Running-shutdown now s k))
handle-Tallied n (send now p) s t (inl k) = inl (Running-handle (send now p) s refl t k)
handle-Tallied n (timer now ec) s t (inl k) = inl (Running-handle (timer now ec) s refl t k)
handle-Tallied n (completion now out) s t (inl k) =
    inl (Running-handle (completion now out) s refl t k)
handle-Tallied n e s t (inr k) = inr (Stopped-handle e s t k)

-- No header value throws.
unfoldable pub Quiet : List Event → RateLimiter → Type 0
unfolding throws
Quiet [] s = Unit
Quiet (e ∷ es) s = (throws e s ≡ false) × Quiet es (handle e s)

tally_of : (n : ℕ → ℕ) (a : ℕ) (s : RateLimiter) → Tallied n s → tally a s ≡ n a
tally_of n a s (inl k) = k.tallied a
tally_of n a s (inr k) = k.tallied a

tally-run :
    (n : ℕ → ℕ) (es : List Event) (s : RateLimiter)
    → Quiet es s
    → Tallied n s
    → (a : ℕ) → tally a (run es s) ≡ n a + count a (requests es)
unfolding run requests Quiet count
tally-run n [] s q k a = omega (arith, tally_of n a s k)
tally-run n (e ∷ es) s (t, q) k a = omega (
  arith,
  tally-run (λ b. n b + count b (brings e)) es (handle e s) q (handle-Tallied n e s t k) a,
  count-append a (brings e) (requests es),
)

-- If no header value throws, then through calls, timers, responses and shutdowns in any order, each
-- handler is as often among the completed, the waiting, the sent and the queued requests together as
-- it was given.
pub each_once :
    (has_send_fn : Bool) (es : List Event)
    → Quiet es (new_rate_limiter has_send_fn)
    → (a : ℕ) → count a (account (run es (new_rate_limiter has_send_fn))) ≡ count a (requests es)
unfolding tally count
each_once has_send_fn es q a = omega (
  arith,
  tally_lem a (run es (new_rate_limiter has_send_fn)),
  tally-run (λ b. 0) es (new_rate_limiter has_send_fn) q
      (inl (record {
        running = refl;
        valid = (inr (refl, refl, refl), inl refl, refl);
        tallied = λ a. refl;
      }))
      a,
)
