-- ===== src/RateLimiter/Shutdown.antt =====
-- `shutdown` of src/rate_limiter.cpp, and what happens to a limiter that is stopped.
use ekizu.Prelude.{
  ℕ, ◌+◌, ◌≡◌, refl, ap, ◌∙◌, true, false, Option, none, some, List, [], ◌∷◌, ◌++◌, ◌==◌,
  if◌then◌else◌, arith,
}
use ekizu.RateLimiter.{
  error, rate_limiter_stopped, shutting_down, RateLimiter, Pending, Completion, Reply, Context,
}
use ekizu.RateLimiter.Machine.{finish_one, start_next, fail_queued, fail_waiting, stop_all}
use ekizu.RateLimiter.Starts.{stopped_next}
use ekizu.RateLimiter.Steps.{held, handlers, answered, account}

unfoldable pub count : ℕ → List ℕ → ℕ
count a [] = 0
count a (x ∷ xs) = (if x == a then 1 else 0) + count a xs

pub count-append : (a : ℕ) (xs ys : List ℕ) → count a (xs ++ ys) ≡ count a xs + count a ys
unfolding count
count-append a [] ys = omega arith
count-append a (x ∷ xs) ys = omega (arith, count-append a xs ys)

-- The number of times that a handler is in the account, by the parts of the state.
unfoldable pub tally : ℕ → RateLimiter → ℕ
unfolding count
tally a s =
    count a (answered s.completed)
    + (count a (held s.waiting) + (count a (held s.in_flight) + count a (handlers s.queue)))

pub tally_lem : (a : ℕ) (s : RateLimiter) → count a (account s) ≡ tally a s
unfolding tally
tally_lem a s = omega (
  arith,
  count-append a (answered s.completed) (held s.waiting ++ (held s.in_flight ++ handlers s.queue)),
  count-append a (held s.waiting) (held s.in_flight ++ handlers s.queue),
  count-append a (held s.in_flight) (handlers s.queue),
)

answered-append :
    (cs : List Completion) (c : Completion)
    → answered (cs ++ c ∷ []) ≡ answered cs ++ c.handler ∷ []
answered-append [] c = refl
answered-append (d ∷ cs) c = ap (◌∷◌ d.handler) (answered-append cs c)

pub count-answered :
    (a : ℕ) (cs : List Completion) (c : Completion)
    → count a (answered (cs ++ c ∷ [])) ≡ count a (answered cs) + count a (c.handler ∷ [])
count-answered a cs c = ap (count a) (answered-append cs c) ∙ count-append a (answered cs) _

-- A limiter that is stopped, with everything but the request that is sent completed; `n a` times
-- the handler `a` is in its account.
pub record Stopped (n : ℕ → ℕ) (s : RateLimiter) : Type 0 where
  pub stopped : s.stopping ≡ true
  pub none_waits : s.waiting ≡ none
  pub none_queued : s.queue ≡ []
  pub tallied : (a : ℕ) → tally a s ≡ n a

abbrev pub posted : Pending → Reply → Option Context → RateLimiter → RateLimiter
posted p r c s = record s {
  completed = s.completed ++ record { handler = p.handler; result = r; context = c } ∷ [];
  busy = false;
}

pub finish_one_stopped :
    (now : ℕ) (p : Pending) (r : Reply) (c : Option Context) (s : RateLimiter)
    → s.stopping ≡ true
    → finish_one (start_next now) p r c s ≡ posted p r c s
unfolding finish_one
finish_one_stopped now p r c s h = stopped_next now _ h

-- The loop of `shutdown` completes the whole queue, and leaves the rest.
record Failed (q : List Pending) (s t : RateLimiter) : Type 0 where
  stopped : t.stopping ≡ true
  waiting : t.waiting ≡ s.waiting
  in_flight : t.in_flight ≡ s.in_flight
  queue : t.queue ≡ []
  tallied :
      (a : ℕ)
      → count a (answered t.completed) ≡ count a (answered s.completed) + count a (handlers q)

Failed-next :
    (p : Pending) (q : List Pending) (r : Reply) (c : Option Context) (s t : RateLimiter)
    → Failed q (posted p r c (record s { queue = q })) t
    → Failed (p ∷ q) s t
unfolding count
Failed-next p q r c s t k = record {
  stopped = k.stopped;
  waiting = k.waiting;
  in_flight = k.in_flight;
  queue = k.queue;
  tallied = λ a. omega (
    arith,
    k.tallied a,
    count-answered a s.completed (record { handler = p.handler; result = r; context = c }),
  );
}

fail_queued-Failed :
    (q : List Pending) (now : ℕ) (s : RateLimiter)
    → s.stopping ≡ true
    → Failed q s (fail_queued q now s)
unfolding fail_queued count
fail_queued-Failed [] now s h = record {
  stopped = h;
  waiting = refl;
  in_flight = refl;
  queue = refl;
  tallied = λ a. omega arith;
}
fail_queued-Failed (p ∷ rest) now s h =
    Failed-next p rest (error rate_limiter_stopped) (some shutting_down) s
      (fail_queued (p ∷ rest) now s)
      (rw
        (finish_one_stopped now p (error rate_limiter_stopped) (some shutting_down)
          (record s { queue = rest }) h)
        (fail_queued-Failed rest now _ h))

-- `shutdown` completes the request that waits, before the queue.
record Cleared (s t : RateLimiter) : Type 0 where
  stopped : t.stopping ≡ true
  waiting : t.waiting ≡ none
  in_flight : t.in_flight ≡ s.in_flight
  queue : t.queue ≡ s.queue
  tallied :
      (a : ℕ)
      → count a (answered t.completed) ≡ count a (answered s.completed) + count a (held s.waiting)

fail_waiting-Cleared :
    (w : Option Pending) (now : ℕ) (s : RateLimiter)
    → s.waiting ≡ w
    → s.stopping ≡ true
    → Cleared s (fail_waiting w now s)
unfolding fail_waiting count
fail_waiting-Cleared none now s e h = record {
  stopped = h;
  waiting = e;
  in_flight = refl;
  queue = refl;
  tallied = λ a. rw e (omega arith);
}
fail_waiting-Cleared (some p) now s e h =
    rw
      (finish_one_stopped now p (error rate_limiter_stopped) (some shutting_down)
        (record s { waiting = none }) h)
      (record {
        stopped = h;
        waiting = refl;
        in_flight = refl;
        queue = refl;
        tallied = λ a. count-answered a s.completed _ ∙ rw e;
      })

pub stop_all-Stopped :
    (now : ℕ) (s : RateLimiter) → s.stopping ≡ true → Stopped (λ a. tally a s) (stop_all now s)
unfolding stop_all tally
stop_all-Stopped now s h =
    let c = fail_waiting-Cleared s.waiting now s refl h in
    let f =
      fail_queued-Failed (fail_waiting s.waiting now s).queue now (fail_waiting s.waiting now s)
        c.stopped in
    record {
      stopped = f.stopped;
      none_waits = f.waiting ∙ c.waiting;
      none_queued = f.queue;
      tallied = λ a.
          rw (f.waiting ∙ c.waiting, f.queue, f.in_flight ∙ c.in_flight)
            (omega (arith, f.tallied a, c.tallied a, ap (λ q. count a (handlers q)) c.queue));
    }
