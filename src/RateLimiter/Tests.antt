-- ===== src/RateLimiter/Tests.antt =====
-- Runs of the limiter of src/rate_limiter.cpp.
use mathlib.Core.Path.{subst}
use ekizu.Prelude.{ℕ, ◌≡◌, refl, true, false, none, some, List, [], ◌∷◌, inl, some_inj}
use ekizu.RateLimiter.{
  RateLimiter, Pending, Response, new_rate_limiter, store_limits, read_limit, insert_or_assign,
}
use ekizu.RateLimiter.Machine.{
  Event, send, timer, completion, stop, got, failed, handle, reset_of, start_next,
  maybe_wait_then_send, do_send,
}
use ekizu.RateLimiter.Headers.{Time, before, stoul, stol, is_before}
use ekizu.RateLimiter.Steps.{account}
use ekizu.RateLimiter.Order.{run, requests, Undisturbed, account_in_order, throws, stops}
use ekizu.RateLimiter.Shutdown.{count}
use ekizu.RateLimiter.Once.{Quiet, each_once}
use ekizu.RateLimiter.Limits.{Runs, begin, next, OnTime, time_of, sends_within_limits}
use ekizu.RateLimiter.Stuck.{NoStop, malformed_header_wedges}

-- " 42x" is 42, "-1" wraps, and "" throws.
stoul_42 : stoul (32 ∷ 52 ∷ 50 ∷ 120 ∷ []) ≡ some 42
unfolding stoul
stoul_42 = refl

stoul_minus : stoul (45 ∷ 49 ∷ []) ≡ some 18446744073709551615
unfolding stoul
stoul_minus = refl

stoul_empty : stoul [] ≡ none
unfolding stoul
stoul_empty = refl

stol_minus : stol (45 ∷ 49 ∷ []) ≡ some (before 1)
unfolding stol
stol_minus = refl

abbrev request : ℕ → Pending
request n = record { req = record { verb = 1; target = "/users"; bot = true }; handler = n }

-- One request allowed, none remaining, reset at second 9.
abbrev limited : Response
limited = record {
  status = 200;
  body = [];
  limit_header = some (49 ∷ []);
  remaining_header = some (48 ∷ []);
  reset_header = some (57 ∷ []);
}

abbrev unreadable : Response
unreadable = record limited { reset_header = some (110 ∷ []) }

abbrev answered_once : List Event
answered_once =
    send 1 (request 1) ∷ send 2 (request 2) ∷ completion 3 (got limited) ∷ send 4 (request 3) ∷ []

account_in_order_example :
    account (run answered_once (new_rate_limiter true)) ≡ requests answered_once
unfolding Undisturbed handle start_next maybe_wait_then_send reset_of do_send store_limits
    read_limit stoul stol insert_or_assign is_before
account_in_order_example =
    account_in_order true answered_once (refl, refl, (refl, refl, (refl, refl, (refl, refl, tt))))

-- The second request waits, the third is queued.
order_lem : account (run answered_once (new_rate_limiter true)) ≡ 1 ∷ 2 ∷ 3 ∷ []
unfolding run handle start_next maybe_wait_then_send reset_of do_send store_limits read_limit stoul
    stol insert_or_assign is_before
order_lem = refl

abbrev stopped_early : List Event
stopped_early = send 1 (request 1) ∷ send 2 (request 2) ∷ stop 3 ∷ completion 4 (failed 7) ∷ []

each_once_example :
    count 2 (account (run stopped_early (new_rate_limiter true))) ≡ count 2 (requests stopped_early)
unfolding Quiet handle start_next maybe_wait_then_send reset_of do_send store_limits read_limit
    stoul stol insert_or_assign is_before
each_once_example = each_once true stopped_early (refl, (refl, (refl, (refl, tt)))) 2

abbrev waiting_limiter : RateLimiter
waiting_limiter =
    handle (send 4 (request 2))
      (handle (completion 3 (got limited)) (handle (send 1 (request 1)) (new_rate_limiter true)))

waiting_limiter-Runs : Runs waiting_limiter
unfolding handle stops throws OnTime start_next maybe_wait_then_send reset_of do_send store_limits
    read_limit stoul stol insert_or_assign is_before
waiting_limiter-Runs =
    next (send 4 (request 2))
      (next (completion 3 (got limited)) (next (send 1 (request 1)) (begin true) refl refl tt) refl
        refl tt)
      refl refl tt

on_time : OnTime (timer 9000000000 none) waiting_limiter
unfolding OnTime handle start_next maybe_wait_then_send reset_of do_send store_limits read_limit
    stoul stol insert_or_assign is_before
on_time t h = subst (λ (x : Time). is_before 9000000000 x ≡ false) (some_inj h) refl

sends_within_limits_example :
    reset_of
      (handle (timer 9000000000 none) waiting_limiter).rate_limits
      (request 2).req
      (time_of (timer 9000000000 none))
    ≡ none
unfolding handle stops throws start_next maybe_wait_then_send reset_of do_send store_limits
    read_limit stoul stol insert_or_assign is_before
sends_within_limits_example =
    sends_within_limits (timer 9000000000 none) (request 2) waiting_limiter-Runs refl refl on_time
      (inl refl) refl

abbrev sending : RateLimiter
sending = handle (send 1 (request 1)) (new_rate_limiter true)

malformed_header_wedges_example :
    ((run (send 5 (request 2) ∷ []) (handle (completion 3 (got unreadable)) sending)).completed
      ≡ sending.completed)
    × ((run (send 5 (request 2) ∷ []) (handle (completion 3 (got unreadable)) sending)).in_flight
        ≡ none)
unfolding handle throws NoStop stops start_next maybe_wait_then_send reset_of do_send store_limits
    read_limit stoul stol insert_or_assign is_before
malformed_header_wedges_example =
    malformed_header_wedges 3 (got unreadable) sending (send 5 (request 2) ∷ []) refl refl
      (inl refl, inl refl, refl) (refl, tt)
