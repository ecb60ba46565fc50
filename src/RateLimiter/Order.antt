-- ===== src/RateLimiter/Order.antt =====
-- The order in which src/rate_limiter.cpp handles requests, and that it keeps account of them.
use mathlib.Core.Path.{subst}
use ekizu.Prelude.{
  ℕ, ◌≡◌, refl, sym, ap, ◌∙◌, Bool, true, false, Option, none, some, List, [], ◌∷◌, ◌++◌, inl, inr,
  append-nil, append_assoc,
}
use ekizu.RateLimiter.{RateLimiter, new_rate_limiter}
use ekizu.RateLimiter.Machine.{Event, send, timer, completion, stop, on_timer, on_response, handle}
use ekizu.RateLimiter.Headers.{Time}
use ekizu.RateLimiter.Steps.{
  ValidWhen, account, size, Keeps, throws_in, send-Keeps, timer-Keeps, response-Keeps,
}

-- Whether a header value throws in what runs next.
unfoldable pub throws : Event → RateLimiter → Bool
throws (completion now out) s = throws_in s.in_flight out s.rate_limits
throws _ s = false

unfoldable pub stops : Event → Bool
stops (stop now) = true
stops _ = false

-- The handler of a request that an event brings.
unfoldable pub brings : Event → List ℕ
brings (send now p) = p.handler ∷ []
brings _ = []

timer_event-Keeps :
    (a : Option Time) (now : ℕ) (ec : Option ℕ) (s : RateLimiter)
    → s.armed ≡ a
    → s.stopping ≡ false
    → ValidWhen false s
    → Keeps (account s) (elim a [ none ↦ s | some _ ↦ on_timer now ec s ])
unfolding on_timer
timer_event-Keeps none now ec s e r v = record { running = r; valid = v; kept = refl }
timer_event-Keeps (some t) now ec s e r v = timer-Keeps s.waiting now ec s refl r v (ap size e)

pub handle-Keeps :
    (e : Event) (s : RateLimiter)
    → stops e ≡ false
    → throws e s ≡ false
    → s.stopping ≡ false
    → ValidWhen false s
    → Keeps (account s ++ brings e) (handle e s)
unfolding handle throws stops brings on_response
handle-Keeps (send now p) s h t r v = send-Keeps now p s r v
handle-Keeps (timer now ec) s h t r v =
    subst (λ l. Keeps l (handle (timer now ec) s)) (sym (append-nil _))
      (timer_event-Keeps s.armed now ec s refl r v)
handle-Keeps (completion now out) s h t r v =
    subst (λ l. Keeps l (handle (completion now out) s)) (sym (append-nil _))
      (response-Keeps s.in_flight now out s refl t r v)
handle-Keeps (stop now) s h t r v = absurd (cc)

unfoldable pub run : List Event → RateLimiter → RateLimiter
unfolding handle
run [] s = s
run (e ∷ es) s = run es (handle e s)

unfoldable pub requests : List Event → List ℕ
unfolding brings
requests [] = []
requests (e ∷ es) = brings e ++ requests es

-- No event stops the limiter, and no header value throws.
unfoldable pub Undisturbed : List Event → RateLimiter → Type 0
unfolding stops throws
Undisturbed [] s = Unit
Undisturbed (e ∷ es) s = (stops e ≡ false) × (throws e s ≡ false) × Undisturbed es (handle e s)

account-run :
    (es : List Event) (s : RateLimiter)
    → Undisturbed es s
    → s.stopping ≡ false
    → ValidWhen false s
    → account (run es s) ≡ account s ++ requests es
unfolding run requests Undisturbed
account-run [] s u r v = sym (append-nil _)
account-run (e ∷ es) s (u, t, us) r v =
    let k = handle-Keeps e s u t r v in
    account-run es (handle e s) us k.running k.valid
    ∙ (ap (λ l. l ++ requests es) k.kept ∙ append_assoc (account s) (brings e) (requests es))

-- As long as it is not shut down and no header value throws, a limiter completes requests in the
-- order in which they were given: the handlers of the completed requests, then that of the request
-- that waits or is sent, then those of the queue are the handlers given, in order.
pub account_in_order :
    (has_send_fn : Bool) (es : List Event)
    → Undisturbed es (new_rate_limiter has_send_fn)
    → account (run es (new_rate_limiter has_send_fn)) ≡ requests es
account_in_order has_send_fn es u =
    account-run es (new_rate_limiter has_send_fn) u refl (inr (refl, refl, refl), inl refl, refl)
