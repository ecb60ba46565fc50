-- ===== src/RateLimiter/Machine.antt =====
-- The steps of `RateLimiter` of src/rate_limiter.cpp.
--
-- All of it runs on one strand, so the functions are steps on a state: `async_send_impl`,
-- `on_timer`, `on_response` and `shutdown` are what the strand runs. `dispatch` on the strand by
-- code that runs on it is a call. What `post` hands to another executor is entered in
-- `completed`, in order. The send function's work is not modelled: `in_flight` is the request that
-- its completion handler holds, and `on_response` is that handler, which runs later. `armed` is
-- the time at which the handler of a timer wait that is still to run expires. A time that is passed
-- in counts nanoseconds.
use ekizu.Prelude.{
  ℕ, true, false, ◌&&◌, Option, none, some, List, [], ◌∷◌, ◌++◌, leb, ltb, ◌==◌, if◌then◌else◌,
}
use ekizu.RateLimiter.Headers.{Time, is_before}
use ekizu.RateLimiter.{
  DiscordApiRequest, Response, Reply, Context, RateLimit, Pending, RateLimits, RateLimiter,
  build_http_status_context, map_http_status_to_errc, store_limits, rate_limiter_stopped,
  rate_limiter_send_disabled, transport_error, timer_error, response, error, shutting_down,
  send_not_set, http_transport,
}

-- Posts the handler, marks the limiter idle and goes on with `next`, which is `start_next`.
unfoldable pub finish_one :
    (RateLimiter → RateLimiter) → Pending → Reply → Option Context → RateLimiter → RateLimiter
finish_one next p result context s = next (record s {
  completed =
      s.completed ++ record { handler = p.handler; result = result; context = context } ∷ [];
  busy = false;
})

unfoldable pub do_send : (RateLimiter → RateLimiter) → Pending → RateLimiter → RateLimiter
unfolding finish_one
do_send next p s =
    if s.stopping
    then finish_one next p (error rate_limiter_stopped) (some shutting_down) s
    else if s.has_send_fn
    then record s { in_flight = some p }
    else finish_one next p (error rate_limiter_send_disabled) (some send_not_set) s

-- The time to wait for before the request may be sent.
unfoldable pub wait_for : Option RateLimit → ℕ → Option Time
wait_for none now = none
wait_for (some rl) now =
    if rl.remaining == 0 && is_before now rl.reset_time then some rl.reset_time else none

unfoldable pub reset_of : RateLimits → DiscordApiRequest → ℕ → Option Time
unfolding wait_for
reset_of limits req now = wait_for (limits req.verb req.target) now

-- Sends at once, or keeps the request and starts the timer.
send_or_wait : Option Time → (RateLimiter → RateLimiter) → Pending → RateLimiter → RateLimiter
send_or_wait none next p s = do_send next p s
send_or_wait (some reset) next p s = record s { waiting = some p; armed = some reset }

unfoldable pub maybe_wait_then_send :
    (RateLimiter → RateLimiter) → ℕ → Pending → RateLimiter → RateLimiter
unfolding send_or_wait
maybe_wait_then_send next now p s =
    if s.stopping
    then finish_one next p (error rate_limiter_stopped) (some shutting_down) s
    else send_or_wait (reset_of s.rate_limits p.req now) next p s

-- `start_next` where `q` is the queue. It is called again once a request is finished.
unfoldable pub start_next_on : List Pending → ℕ → RateLimiter → RateLimiter
start_next_on [] now s = if s.stopping then record s { busy = false } else s
start_next_on (p ∷ rest) now s =
    if s.stopping
    then record s { busy = false }
    else if s.busy
    then s
    else maybe_wait_then_send (start_next_on rest now) now p
        (record s { busy = true; queue = rest })

unfoldable pub start_next : ℕ → RateLimiter → RateLimiter
unfolding start_next_on
start_next now s = start_next_on s.queue now s

unfoldable pub async_send_impl : ℕ → Pending → RateLimiter → RateLimiter
async_send_impl now p s =
    if s.stopping
    then record s {
      completed =
          s.completed
          ++ record {
            handler = p.handler;
            result = error rate_limiter_stopped;
            context = some shutting_down;
          }
            ∷ [];
    }
    else start_next now (record s { queue = s.queue ++ p ∷ [] })

-- The handler of the timer, with the request that waits.
unfoldable pub timer_over : Option Pending → ℕ → Option ℕ → RateLimiter → RateLimiter
timer_over none now ec s = start_next now (record s { busy = false })
timer_over (some p) now ec s =
    if s.stopping
    then finish_one (start_next now) p (error rate_limiter_stopped) (some shutting_down) s
    else elim ec [
      | some code ↦ finish_one (start_next now) p (error (timer_error code)) none s
      | none ↦ do_send (start_next now) p s
    ]

unfoldable pub on_timer : ℕ → Option ℕ → RateLimiter → RateLimiter
unfolding timer_over
on_timer now ec s = timer_over s.waiting now ec (record s { waiting = none; armed = none })

-- The answer for the caller.
unfoldable pub answer : Response → Reply
answer res =
    if leb 200 res.status && ltb res.status 300
    then response res
    else error (map_http_status_to_errc res.status)

unfoldable pub context_of : Response → Option Context
context_of res =
    if leb 200 res.status && ltb res.status 300 then none else some (build_http_status_context res)

-- A result of the send function: a response, or the code of a failure below HTTP.
pub data Outcome : Type 0 where
  got : Response → Outcome
  failed : ℕ → Outcome

-- The completion handler of `do_send`. An exception from a header value leaves it: the request is
-- gone with it, and nothing else of the state has changed.
unfoldable pub receive : Option Pending → ℕ → Outcome → RateLimiter → RateLimiter
receive none now out s = s
receive (some p) now (failed code) s =
    finish_one (start_next now) p (error (transport_error code))
      (some (http_transport (transport_error code))) s
receive (some p) now (got res) s = elim (store_limits p.req res s.rate_limits) [
  | none ↦ s
  | some limits ↦
      finish_one (start_next now) p (answer res) (context_of res)
        (record s { rate_limits = limits })
]

unfoldable pub on_response : ℕ → Outcome → RateLimiter → RateLimiter
unfolding receive
on_response now out s = receive s.in_flight now out (record s { in_flight = none })

-- The loop of `shutdown`, which fails every request in the queue.
unfoldable pub fail_queued : List Pending → ℕ → RateLimiter → RateLimiter
fail_queued [] now s = record s { queue = [] }
fail_queued (p ∷ rest) now s = fail_queued rest now (
    finish_one (start_next now) p (error rate_limiter_stopped) (some shutting_down)
      (record s { queue = rest }))

unfoldable pub fail_waiting : Option Pending → ℕ → RateLimiter → RateLimiter
fail_waiting none now s = s
fail_waiting (some p) now s =
    finish_one (start_next now) p (error rate_limiter_stopped) (some shutting_down)
      (record s { waiting = none })

-- Cancelling the timer leaves its handler to run, with an error.
unfoldable pub stop_all : ℕ → RateLimiter → RateLimiter
unfolding fail_queued fail_waiting
stop_all now s =
    let t = fail_waiting s.waiting now s in record (fail_queued t.queue now t) { busy = false }

unfoldable pub shutdown : ℕ → RateLimiter → RateLimiter
unfolding stop_all
shutdown now s =
    if s.stopping then s else stop_all now (record s { stopping = true; has_send_fn = false })

-- What the strand runs next.
pub data Event : Type 0 where
  send : ℕ → Pending → Event
  timer : ℕ → Option ℕ → Event
  completion : ℕ → Outcome → Event
  stop : ℕ → Event

unfoldable pub handle : Event → RateLimiter → RateLimiter
unfolding async_send_impl on_timer on_response shutdown
handle (send now p) s = async_send_impl now p s
handle (timer now ec) s = elim s.armed [ none ↦ s | some _ ↦ on_timer now ec s ]
handle (completion now out) s = on_response now out s
handle (stop now) s = shutdown now s
