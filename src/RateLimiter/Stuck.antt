-- ===== src/RateLimiter/Stuck.antt =====
-- What a header value that `std::stoul` or `std::stol` refuses does to src/rate_limiter.cpp.
use mathlib.Core.Path.{subst}
use ekizu.Prelude.{ℕ, ◌≡◌, refl, sym, ap, ◌∙◌, true, false, Option, none, some, List, [], ◌∷◌}
use ekizu.RateLimiter.{RateLimiter, Pending, Completion, store_limits, RateLimits}
use ekizu.RateLimiter.Machine.{
  Event, send, timer, completion, stop, Outcome, got, failed, on_timer, on_response, receive,
  handle,
}
use ekizu.RateLimiter.Headers.{Time}
use ekizu.RateLimiter.Starts.{busy_next}
use ekizu.RateLimiter.Steps.{
  ValidWhen, size, is_none, throws_in, accepted, unqueued, armed_none, sending_busy,
}
use ekizu.RateLimiter.Order.{throws, stops, run}

-- Busy for ever: no request waits and none is in flight, but the limiter is marked busy.
record IsStuck (done : List Completion) (s : RateLimiter) : Type 0 where
  running : s.stopping ≡ false
  busy : s.busy ≡ true
  unarmed : s.armed ≡ none
  none_waits : s.waiting ≡ none
  none_sent : s.in_flight ≡ none
  completed : s.completed ≡ done

IsStuck-timer :
    {done : List Completion} (a : Option Time) (now : ℕ) (ec : Option ℕ) (s : RateLimiter)
    → s.armed ≡ a
    → IsStuck done s
    → IsStuck done (elim a [ none ↦ s | some _ ↦ on_timer now ec s ])
IsStuck-timer none now ec s e k = k
IsStuck-timer (some t) now ec s e k = absurd (cc (k.unarmed))

IsStuck-response :
    {done : List Completion} (f : Option Pending) (now : ℕ) (out : Outcome) (s : RateLimiter)
    → s.in_flight ≡ f
    → IsStuck done s
    → IsStuck done (receive f now out (record s { in_flight = none }))
unfolding receive
IsStuck-response none now out s e k = record {
  running = k.running;
  busy = k.busy;
  unarmed = k.unarmed;
  none_waits = k.none_waits;
  none_sent = refl;
  completed = k.completed;
}
IsStuck-response (some p) now out s e k = absurd (cc (k.none_sent))

handle-IsStuck :
    {done : List Completion} (e : Event) (s : RateLimiter)
    → stops e ≡ false
    → IsStuck done s
    → IsStuck done (handle e s)
unfolding handle stops on_response
handle-IsStuck {done} (send now p) s h k =
    subst (IsStuck done) (sym (accepted now p s k.running ∙ busy_next now _ k.running k.busy))
      (record {
        running = k.running;
        busy = k.busy;
        unarmed = k.unarmed;
        none_waits = k.none_waits;
        none_sent = k.none_sent;
        completed = k.completed;
      })
handle-IsStuck (timer now ec) s h k = IsStuck-timer s.armed now ec s refl k
handle-IsStuck (completion now out) s h k = IsStuck-response s.in_flight now out s refl k
handle-IsStuck (stop now) s h k = absurd (cc)

unfoldable pub NoStop : List Event → Type 0
unfolding stops
NoStop [] = Unit
NoStop (e ∷ es) = (stops e ≡ false) × NoStop es

run-IsStuck :
    {done : List Completion} (es : List Event) (s : RateLimiter)
    → NoStop es
    → IsStuck done s
    → IsStuck done (run es s)
unfolding run NoStop
run-IsStuck [] s h k = k
run-IsStuck (e ∷ es) s h k = run-IsStuck es (handle e s) h.1 (handle-IsStuck e s h.0 k)

thrown :
    (o : Option RateLimits) (f : RateLimits → RateLimiter) (s : RateLimiter)
    → is_none o ≡ true
    → elim o [ none ↦ s | some limits ↦ f limits ] ≡ s
thrown none f s h = refl
thrown (some limits) f s h = absurd (cc)

throw_leaves :
    (f : Option Pending) (out : Outcome) (now : ℕ) (s : RateLimiter)
    → throws_in f out s.rate_limits ≡ true
    → ((p : Pending) × (f ≡ some p))
      × (receive f now out (record s { in_flight = none }) ≡ record s { in_flight = none })
unfolding receive
throw_leaves none out now s h = absurd (cc)
throw_leaves (some p) (failed code) now s h = absurd (cc)
throw_leaves (some p) (got res) now s h =
    ((p, refl), thrown (store_limits p.req res s.rate_limits) _ _ h)

throw-IsStuck :
    (now : ℕ) (out : Outcome) (s : RateLimiter)
    → throws (completion now out) s ≡ true
    → s.stopping ≡ false
    → ValidWhen false s
    → IsStuck s.completed (handle (completion now out) s)
unfolding throws handle on_response
throw-IsStuck now out s h r v =
    let ((p, e), left) = throw_leaves s.in_flight out now s h in
    let w = unqueued s p e v.1 in
    subst (IsStuck s.completed) (sym left) (record {
      running = r;
      busy = sending_busy s p e v.0;
      unarmed = armed_none s (v.2 ∙ ap size w);
      none_waits = w;
      none_sent = refl;
      completed = refl;
    })

-- If a header value of a response throws, then the limiter completes no request any more, neither
-- the one in flight nor any other, and puts none in flight, whatever happens but a shutdown. This
-- is for a limiter that is valid and not shut down.
pub malformed_header_wedges :
    (now : ℕ) (out : Outcome) (s : RateLimiter) (es : List Event)
    → throws (completion now out) s ≡ true
    → s.stopping ≡ false
    → ValidWhen false s
    → NoStop es
    → ((run es (handle (completion now out) s)).completed ≡ s.completed)
      × ((run es (handle (completion now out) s)).in_flight ≡ none)
malformed_header_wedges now out s es h r v n =
    let k = run-IsStuck es (handle (completion now out) s) n (throw-IsStuck now out s h r v) in
    (k.completed, k.none_sent)
