-- ===== src/RateLimiter/Steps.antt =====
-- Single steps of src/rate_limiter.cpp on a limiter that runs: it stays valid, and the account of its
-- requests is kept.
use mathlib.Core.Path.{subst}
use ekizu.Prelude.{
  ℕ, ◌≡◌, refl, sym, ap, ◌∙◌, Bool, true, false, Option, none, some, List, [], ◌∷◌, ◌++◌, map, ◌⊎◌,
  inl, inr, append_assoc, Option-cases, if_true, if_false,
}
use ekizu.RateLimiter.{RateLimiter, Pending, Completion, Reply, Context, store_limits, RateLimits}
use ekizu.RateLimiter.Machine.{
  Outcome, got, failed, finish_one, do_send, start_next, async_send_impl, timer_over, receive,
}
use ekizu.RateLimiter.Starts.{
  IsIdle, Starts, settled, sent, waits, skips, start_next-Starts, busy_next,
}

abbrev pub size {ℓ} : {A : Type ℓ} → Option A → ℕ
size none = 0
size (some a) = 1

-- A stopped limiter keeps nothing to send. One that runs has at most one request out of its queue,
-- that waits or is sent, and is busy then; if it is not busy the queue is empty. The handler of
-- a timer is to run exactly if a request waits.
abbrev pub ValidWhen : Bool → RateLimiter → Type 0
ValidWhen true s = (s.waiting ≡ none) × (s.queue ≡ [])
ValidWhen false s =
    ((s.busy ≡ true) ⊎ ((s.queue ≡ []) × (s.waiting ≡ none) × (s.in_flight ≡ none)))
    × ((s.waiting ≡ none) ⊎ (s.in_flight ≡ none))
    × (size s.armed ≡ size s.waiting)

abbrev pub IsValid : RateLimiter → Type 0
IsValid s = ValidWhen s.stopping s

-- The handlers of the requests that were completed, that waits, that is sent and that are queued.
abbrev pub held : Option Pending → List ℕ
held none = []
held (some p) = p.handler ∷ []

abbrev pub handlers : List Pending → List ℕ
handlers = map (λ p. p.handler)

abbrev pub answered : List Completion → List ℕ
answered = map (λ c. c.handler)

abbrev pub account : RateLimiter → List ℕ
account s = answered s.completed ++ (held s.waiting ++ (held s.in_flight ++ handlers s.queue))

Starts-IsValid :
    {now : ℕ} {s t : RateLimiter} → Starts now s t → size s.armed ≡ 0 → ValidWhen false t
Starts-IsValid (settled i e) a =
    (inr (e, i.none_waits, i.none_sent), inl i.none_waits, a ∙ sym (ap size i.none_waits))
Starts-IsValid (sent p rest i e h) a = (inl refl, inl i.none_waits, a ∙ sym (ap size i.none_waits))
Starts-IsValid (waits p rest t i e h) a = (inl refl, inr i.none_sent, refl)
Starts-IsValid (skips p rest i e st) a = Starts-IsValid st a

Starts-stopping : {now : ℕ} {s t : RateLimiter} → Starts now s t → t.stopping ≡ false
Starts-stopping (settled i e) = i.running
Starts-stopping (sent p rest i e h) = i.running
Starts-stopping (waits p rest t i e h) = i.running
Starts-stopping (skips p rest i e st) = Starts-stopping st

account_skip :
    (c : Completion) (cs : List Completion) (w f : Option Pending) (p : Pending) (q : List Pending)
    → w ≡ none
    → f ≡ none
    → c.handler ≡ p.handler
    → answered (cs ++ c ∷ []) ++ (held w ++ (held f ++ handlers q))
      ≡ answered cs ++ (held w ++ (held f ++ handlers (p ∷ q)))
account_skip c [] w f p q hw hf h = rw (hw, hf, h)
account_skip c (d ∷ cs) w f p q hw hf h = ap (◌∷◌ d.handler) (account_skip c cs w f p q hw hf h)

Starts-account : {now : ℕ} {s t : RateLimiter} → Starts now s t → account t ≡ account s
Starts-account (settled i e) = refl
Starts-account (sent p rest i e h) = rw (e, i.none_waits, i.none_sent)
Starts-account (waits p rest t i e h) = rw (e, i.none_waits, i.none_sent)
Starts-account {s} (skips p rest i e st) =
    Starts-account st ∙ (account_skip _ s.completed _ _ p rest i.none_waits i.none_sent refl ∙ rw e)

-- One step on a limiter that runs: it stays valid, and its account is `l`.
pub record Keeps (l : List ℕ) (s : RateLimiter) : Type 0 where
  pub running : s.stopping ≡ false
  pub valid : ValidWhen false s
  pub kept : account s ≡ l

start_next-Keeps :
    (now : ℕ) (s : RateLimiter) → IsIdle s → size s.armed ≡ 0 → Keeps (account s) (start_next now s)
start_next-Keeps now s i a =
    let st = start_next-Starts now s i in
    record { running = Starts-stopping st; valid = Starts-IsValid st a; kept = Starts-account st }

finish_one-Keeps :
    (now : ℕ) (p : Pending) (r : Reply) (c : Option Context) (s : RateLimiter)
    → s.stopping ≡ false
    → s.waiting ≡ none
    → s.in_flight ≡ none
    → size s.armed ≡ 0
    → Keeps
        (answered s.completed ++ (p.handler ∷ handlers s.queue))
        (finish_one (start_next now) p r c s)
unfolding finish_one
finish_one-Keeps now p r c s run w f a =
    subst (λ l. Keeps l (finish_one (start_next now) p r c s))
      (account_skip _ s.completed _ _ p s.queue w f refl ∙ rw (w, f))
      (start_next-Keeps now _ (record { running = run; idle = refl; none_waits = w; none_sent = f })
        a)

-- A new request goes to the end of the queue.
handlers-append :
    (q : List Pending) (p : Pending) → handlers (q ++ p ∷ []) ≡ handlers q ++ p.handler ∷ []
handlers-append [] p = refl
handlers-append (x ∷ q) p = ap (◌∷◌ x.handler) (handlers-append q p)

account-send :
    (p : Pending) (s : RateLimiter)
    → account (record s { queue = s.queue ++ p ∷ [] }) ≡ account s ++ p.handler ∷ []
account-send p s = simp (handlers-append s.queue p, append_assoc)

pub accepted :
    (now : ℕ) (p : Pending) (s : RateLimiter)
    → s.stopping ≡ false
    → async_send_impl now p s ≡ start_next now (record s { queue = s.queue ++ p ∷ [] })
unfolding async_send_impl
accepted now p s r = if_false _ _ r

queued-Keeps :
    (now : ℕ) (p : Pending) (s : RateLimiter) (b : Bool)
    → s.busy ≡ b
    → s.stopping ≡ false
    → ValidWhen false s
    → Keeps (account s ++ p.handler ∷ []) (start_next now (record s { queue = s.queue ++ p ∷ [] }))
queued-Keeps now p s true b r (v0, v1, v2) =
    subst (Keeps (account s ++ p.handler ∷ [])) (sym (busy_next now _ r b))
      (record { running = r; valid = (inl b, v1, v2); kept = account-send p s })
queued-Keeps now p s false b r (inl c, v1, v2) = absurd (cc)
queued-Keeps now p s false b r (inr (q, w, f), v1, v2) =
    subst (λ l. Keeps l (start_next now (record s { queue = s.queue ++ p ∷ [] })))
      (account-send p s)
      (start_next-Keeps now _ (record { running = r; idle = b; none_waits = w; none_sent = f })
        (v2 ∙ ap size w))

pub send-Keeps :
    (now : ℕ) (p : Pending) (s : RateLimiter)
    → s.stopping ≡ false
    → ValidWhen false s
    → Keeps (account s ++ p.handler ∷ []) (async_send_impl now p s)
send-Keeps now p s r v =
    subst (Keeps (account s ++ p.handler ∷ [])) (sym (accepted now p s r))
      (queued-Keeps now p s s.busy refl r v)

do_send-Keeps :
    (now : ℕ) (p : Pending) (s : RateLimiter) (b : Bool)
    → s.has_send_fn ≡ b
    → s.stopping ≡ false
    → s.busy ≡ true
    → s.waiting ≡ none
    → s.in_flight ≡ none
    → size s.armed ≡ 0
    → Keeps (answered s.completed ++ (p.handler ∷ handlers s.queue)) (do_send (start_next now) p s)
unfolding do_send
do_send-Keeps now p s true h r b w f a =
    subst (Keeps _) (sym (if_false _ _ r ∙ if_true _ _ h))
      (record { running = r; valid = (inl b, inl w, a ∙ sym (ap size w)); kept = rw w })
do_send-Keeps now p s false h r b w f a =
    subst (Keeps _) (sym (if_false _ _ r ∙ if_false _ _ h)) (finish_one-Keeps now p _ _ s r w f a)

pub busy_of :
    (s : RateLimiter) (p : Pending)
    → s.waiting ≡ some p
    → (s.busy ≡ true) ⊎ ((s.queue ≡ []) × (s.waiting ≡ none) × (s.in_flight ≡ none))
    → s.busy ≡ true
busy_of s p e (inl b) = b
busy_of s p e (inr (q, w, f)) = absurd (cc)

pub unsent :
    (s : RateLimiter) (p : Pending)
    → s.waiting ≡ some p
    → (s.waiting ≡ none) ⊎ (s.in_flight ≡ none)
    → s.in_flight ≡ none
unsent s p e (inl w) = absurd (cc)
unsent s p e (inr f) = f

-- The handler of the timer.
pub timer-Keeps :
    (w : Option Pending) (now : ℕ) (ec : Option ℕ) (s : RateLimiter)
    → s.waiting ≡ w
    → s.stopping ≡ false
    → ValidWhen false s
    → size s.armed ≡ 1
    → Keeps (account s) (timer_over w now ec (record s { waiting = none; armed = none }))
unfolding timer_over
timer-Keeps none now ec s e r v a = absurd (cc (v.2, ap size e))
timer-Keeps (some p) now none s e r (v0, v1, v2) a =
    let b = busy_of s p e v0 in
    let f = unsent s p e v1 in
    subst (λ l. Keeps l (timer_over (some p) now none (record s { waiting = none; armed = none })))
      (rw (e, f))
      (subst (Keeps _) (sym (if_false _ _ r))
        (do_send-Keeps now p _ s.has_send_fn refl r b refl f refl))
timer-Keeps (some p) now (some code) s e r (v0, v1, v2) a =
    let f = unsent s p e v1 in
    subst
      (λ l.
        Keeps l (timer_over (some p) now (some code) (record s { waiting = none; armed = none })))
      (rw (e, f))
      (subst (Keeps _) (sym (if_false _ _ r)) (finish_one-Keeps now p _ _ _ r refl f refl))

pub unqueued :
    (s : RateLimiter) (p : Pending)
    → s.in_flight ≡ some p
    → (s.waiting ≡ none) ⊎ (s.in_flight ≡ none)
    → s.waiting ≡ none
unqueued s p e (inl w) = w
unqueued s p e (inr f) = absurd (cc)

-- Whether a header value throws in the handler of a response.
abbrev pub is_none {ℓ} : {A : Type ℓ} → Option A → Bool
is_none none = true
is_none (some a) = false

abbrev pub throws_in : Option Pending → Outcome → RateLimits → Bool
throws_in none out limits = false
throws_in (some p) (failed code) limits = false
throws_in (some p) (got res) limits = is_none (store_limits p.req res limits)

taken :
    (o : Option RateLimits) (f : RateLimits → RateLimiter) (s : RateLimiter) (l : List ℕ)
    → is_none o ≡ false
    → ((limits : RateLimits) → Keeps l (f limits))
    → Keeps l (elim o [ none ↦ s | some limits ↦ f limits ])
taken none f s l h k = absurd (cc)
taken (some limits) f s l h k = k limits

unsent_still :
    (s : RateLimiter)
    → (s.busy ≡ true) ⊎ ((s.queue ≡ []) × (s.waiting ≡ none) × (s.in_flight ≡ none))
    → (s.busy ≡ true) ⊎ ((s.queue ≡ []) × (s.waiting ≡ none) × (◌≡◌ {A = Option Pending} none none))
unsent_still s (inl b) = inl b
unsent_still s (inr (q, w, f)) = inr (q, w, refl)

pub response-Keeps :
    (f : Option Pending) (now : ℕ) (out : Outcome) (s : RateLimiter)
    → s.in_flight ≡ f
    → throws_in f out s.rate_limits ≡ false
    → s.stopping ≡ false
    → ValidWhen false s
    → Keeps (account s) (receive f now out (record s { in_flight = none }))
unfolding receive
response-Keeps none now out s e h r (v0, v1, v2) = record {
  running = r;
  valid = (unsent_still s v0, inr refl, v2);
  kept = rw e;
}
response-Keeps (some p) now (failed code) s e h r (v0, v1, v2) =
    let w = unqueued s p e v1 in
    subst (λ l. Keeps l (receive (some p) now (failed code) (record s { in_flight = none })))
      (rw (w, e))
      (finish_one-Keeps now p _ _ (record s { in_flight = none }) r w refl (v2 ∙ ap size w))
response-Keeps (some p) now (got res) s e h r (v0, v1, v2) =
    let w = unqueued s p e v1 in
    subst (λ l. Keeps l (receive (some p) now (got res) (record s { in_flight = none })))
      (rw (w, e))
      (taken (store_limits p.req res s.rate_limits) _ _ _ h (λ limits.
        finish_one-Keeps now p _ _ (record s { in_flight = none; rate_limits = limits }) r w refl
          (v2 ∙ ap size w)))

pub armed_none : (s : RateLimiter) → size s.armed ≡ 0 → s.armed ≡ none
armed_none s h = elim (Option-cases s.armed) [ inl e ↦ e | inr (t, e) ↦ absurd (cc (ap size e)) ]

pub sending_busy :
    (s : RateLimiter) (p : Pending)
    → s.in_flight ≡ some p
    → (s.busy ≡ true) ⊎ ((s.queue ≡ []) × (s.waiting ≡ none) × (s.in_flight ≡ none))
    → s.busy ≡ true
sending_busy s p e (inl b) = b
sending_busy s p e (inr (q, w, f)) = absurd (cc)
