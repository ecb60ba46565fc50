-- ===== src/RateLimiter/Starts.antt =====
-- What `start_next` of src/rate_limiter.cpp may do on an idle limiter, as a relation.
use mathlib.Core.Path.{subst}
use ekizu.Prelude.{
  inl, inr, ℕ, ◌≡◌, refl, sym, true, false, none, some, List, [], ◌∷◌, ◌++◌, Bool-cases,
  Option-cases, arith,
}
use ekizu.RateLimiter.{RateLimiter, Pending, error, rate_limiter_send_disabled, send_not_set}
use ekizu.RateLimiter.Machine.{do_send, reset_of, maybe_wait_then_send, start_next_on, start_next}
use ekizu.RateLimiter.Headers.{Time}

-- A limiter that runs and has no request out of its queue.
pub record IsIdle (s : RateLimiter) : Type 0 where
  pub running : s.stopping ≡ false
  pub idle : s.busy ≡ false
  pub none_waits : s.waiting ≡ none
  pub none_sent : s.in_flight ≡ none

abbrev pub refused : Pending → List Pending → RateLimiter → RateLimiter
refused p rest s = record s {
  queue = rest;
  busy = false;
  completed =
      s.completed
      ++ record {
        handler = p.handler;
        result = error rate_limiter_send_disabled;
        context = some send_not_set;
      }
        ∷ [];
}

-- From an idle limiter: nothing is queued; or the first request is sent, or waits, or is refused.
pub data Starts (now : ℕ) : RateLimiter → RateLimiter → Type 0 where
  settled : {s : RateLimiter} → IsIdle s → s.queue ≡ [] → Starts now s s
  sent :
      {s : RateLimiter} (p : Pending) (rest : List Pending)
      → IsIdle s
      → s.queue ≡ p ∷ rest
      → reset_of s.rate_limits p.req now ≡ none
      → Starts now s (record s { busy = true; queue = rest; in_flight = some p })
  waits :
      {s : RateLimiter} (p : Pending) (rest : List Pending) (t : Time)
      → IsIdle s
      → s.queue ≡ p ∷ rest
      → reset_of s.rate_limits p.req now ≡ some t
      → Starts now s (record s { busy = true; queue = rest; waiting = some p; armed = some t })
  skips :
      {s t : RateLimiter} (p : Pending) (rest : List Pending)
      → IsIdle s
      → s.queue ≡ p ∷ rest
      → Starts now (refused p rest s) t
      → Starts now s t

refused-IsIdle :
    (p : Pending) (rest : List Pending) (s : RateLimiter) → IsIdle s → IsIdle (refused p rest s)
refused-IsIdle p rest s i = record {
  running = i.running;
  idle = refl;
  none_waits = i.none_waits;
  none_sent = i.none_sent;
}

-- The parts of `start_next_on` at a request, as equations.
on_sent :
    (p : Pending) (rest : List Pending) (now : ℕ) (s : RateLimiter)
    → IsIdle s
    → reset_of s.rate_limits p.req now ≡ none
    → s.has_send_fn ≡ true
    → start_next_on (p ∷ rest) now s ≡ record s { busy = true; queue = rest; in_flight = some p }
unfolding start_next_on maybe_wait_then_send do_send
on_sent p rest now s i e h = ground (arith, i.running, i.idle)

on_waits :
    (p : Pending) (rest : List Pending) (now : ℕ) (s : RateLimiter) (t : Time)
    → IsIdle s
    → reset_of s.rate_limits p.req now ≡ some t
    → start_next_on (p ∷ rest) now s
      ≡ record s { busy = true; queue = rest; waiting = some p; armed = some t }
unfolding start_next_on maybe_wait_then_send do_send
on_waits p rest now s t i e = ground (arith, i.running, i.idle)

on_skips :
    (p : Pending) (rest : List Pending) (now : ℕ) (s : RateLimiter)
    → IsIdle s
    → reset_of s.rate_limits p.req now ≡ none
    → s.has_send_fn ≡ false
    → start_next_on (p ∷ rest) now s ≡ start_next_on rest now (refused p rest s)
unfolding start_next_on maybe_wait_then_send do_send
on_skips p rest now s i e h = ground (arith, i.running, i.idle)

on_settled : (now : ℕ) (s : RateLimiter) → IsIdle s → start_next_on [] now s ≡ s
unfolding start_next_on
on_settled now s i = ground (arith, i.running, i.idle)

start_next_on-Starts :
    (q : List Pending) (now : ℕ) (s : RateLimiter)
    → IsIdle s
    → s.queue ≡ q
    → Starts now s (start_next_on q now s)
start_next_on-Starts [] now s i e =
    subst (λ t. Starts now s t) (sym (on_settled now s i)) (settled i e)
start_next_on-Starts (p ∷ rest) now s i e = elim (Option-cases (reset_of s.rate_limits p.req now)) [
  | inr (t, w) ↦
      subst (λ t'. Starts now s t') (sym (on_waits p rest now s t i w)) (waits p rest t i e w)
  | inl free ↦ elim (Bool-cases s.has_send_fn) [
    | inl h ↦
        subst (λ t'. Starts now s t') (sym (on_sent p rest now s i free h)) (sent p rest i e free)
    | inr h ↦
        subst (λ t'. Starts now s t') (sym (on_skips p rest now s i free h))
          (skips p rest i e
            (start_next_on-Starts rest now (refused p rest s) (refused-IsIdle p rest s i) refl))
  ]
]

pub start_next-Starts : (now : ℕ) (s : RateLimiter) → IsIdle s → Starts now s (start_next now s)
unfolding start_next
start_next-Starts now s i = start_next_on-Starts s.queue now s i refl

-- A call on a busy limiter does nothing, and one on a stopped limiter marks it idle.
busy_next_on :
    (q : List Pending) (now : ℕ) (s : RateLimiter)
    → s.stopping ≡ false
    → s.busy ≡ true
    → start_next_on q now s ≡ s
unfolding start_next_on
busy_next_on [] now s r b = ground arith
busy_next_on (p ∷ q) now s r b = ground arith

stopped_next_on :
    (q : List Pending) (now : ℕ) (s : RateLimiter)
    → s.stopping ≡ true
    → start_next_on q now s ≡ record s { busy = false }
unfolding start_next_on
stopped_next_on [] now s r = ground arith
stopped_next_on (p ∷ q) now s r = ground arith

pub busy_next :
    (now : ℕ) (s : RateLimiter) → s.stopping ≡ false → s.busy ≡ true → start_next now s ≡ s
unfolding start_next
busy_next now s = busy_next_on s.queue now s

pub stopped_next :
    (now : ℕ) (s : RateLimiter) → s.stopping ≡ true → start_next now s ≡ record s { busy = false }
unfolding start_next
stopped_next now s = stopped_next_on s.queue now s
