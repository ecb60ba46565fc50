-- ===== src/Gateway/Attempts.antt =====
-- The attempts to connect that src/shard.cpp counts, and how long it waits.
use native.Mathlib.Nat.{pow-le-pow_right}
use ekizu.Prelude.{
  if_true, if_false, sym, ℕ, ltb, if◌then◌else◌, Option, ◌≤◌, ◌+◌, ◌<◌, ◌∙◌, ap, min, Bool-cases,
  ◌≡◌, refl, Bool, true, false, ◌||◌, none, some, List, [], ◌∷◌, ◌%◌, ◌^◌, arith, ◌⊎◌, inl, inr,
}
use ekizu.Gateway.Shard.{
  voice_state, presence, caller, reader, ticker, ignored, Action, back_off, Shard, new_shard,
  join_voice_channel_impl, leave_voice_channel_impl, update_presence_impl,
}
use ekizu.Gateway.Connection.{
  backoff, read_one, after_reconnect, reconnect_async, on_backoff, on_connected,
  ensure_connected_then_read, on_read_error, on_done,
}
use ekizu.Gateway.Machine.{
  Input, next_event, close, join_voice, leave_voice, update_presence, backed_off, connected,
  read_failed, received, ticked, done, handle, run,
}
use ekizu.Gateway.Effects.{
  Handled, close_impl-Handled, send-Handled, on_tick-Handled, on_message-Handled,
}

-- A failed attempt to connect.
abbrev pub fails : Input → ℕ
fails (connected (some ec) inflater) = 1
fails _ = 0

abbrev pub failures : List Input → ℕ
failures [] = 0
failures (i ∷ is) = fails i + failures is

-- Counted up by `n`, in 64 bits.
Counts : ℕ → Shard → Shard → Type 0
Counts n s t = t.reconnect_attempts ≡ (s.reconnect_attempts + n) % 2 ^ 64

Handled-Counts :
    (k n : ℕ) (s : Shard) (r : Shard × List Action)
    → Handled k n s r
    → s.reconnect_attempts < 2 ^ 64
    → Counts 0 s r.0
unfolding Counts
Handled-Counts k n s r (p, a, c, q, t) b = a ∙ omega (arith, b)

ensure-Counts :
    (o : Bool) (s : Shard)
    → (ensure_connected_then_read o s).0.reconnect_attempts ≡ s.reconnect_attempts
unfolding ensure_connected_then_read
ensure-Counts o s = ground arith

read_one-Counts : (s : Shard) → (read_one s).0.reconnect_attempts ≡ s.reconnect_attempts
unfolding read_one
read_one-Counts s = ground arith

handle-Counts :
    (i : Input) (s : Shard) → s.reconnect_attempts < 2 ^ 64 → Counts (fails i) s (handle i s).0
unfolding handle join_voice_channel_impl leave_voice_channel_impl update_presence_impl Counts
    on_read_error on_backoff on_connected on_done after_reconnect
handle-Counts (next_event o) s b = ensure-Counts o s ∙ omega (arith, b)
handle-Counts (close code n) s b =
    Handled-Counts _ _ s (handle (close code n) s) (close_impl-Handled code (caller n) s) b
handle-Counts (join_voice g ch n) s b =
    Handled-Counts _ _ s (handle (join_voice g ch n) s)
      (send-Handled (voice_state g (some ch)) (caller n) s) b
handle-Counts (leave_voice g n) s b =
    Handled-Counts _ _ s (handle (leave_voice g n) s)
      (send-Handled (voice_state g none) (caller n) s) b
handle-Counts (update_presence n) s b =
    Handled-Counts _ _ s (handle (update_presence n) s) (send-Handled presence (caller n) s) b
handle-Counts (backed_off (some ec)) s b = omega (arith, b)
handle-Counts (backed_off none) s b = ground arith
handle-Counts (connected (some ec) i) s b = refl
handle-Counts (connected none none) s b =
    read_one-Counts (record s { has_ws = true; has_inflater = s.compression || s.has_inflater })
    ∙ omega (arith, b)
handle-Counts (connected none (some ec)) s b =
    ground (arith, read_one-Counts (record s { has_ws = true }))
handle-Counts (read_failed o ec) s b = ground (arith, ensure-Counts o s)
handle-Counts (received msg) s b =
    Handled-Counts _ _ s (handle (received msg) s) (on_message-Handled msg s) b
handle-Counts (ticked r) s b = Handled-Counts _ _ s (handle (ticked r) s) (on_tick-Handled r s) b
handle-Counts (done reader none) s b = omega (arith, b)
handle-Counts (done reader (some ec)) s b = omega (arith, b)
handle-Counts (done ticker r) s b = ground arith
handle-Counts (done (caller n) r) s b = omega (arith, b)
handle-Counts (done ignored r) s b = omega (arith, b)

run-Counts :
    (is : List Input) (s : Shard)
    → s.reconnect_attempts < 2 ^ 64
    → Counts (failures is) s (run is s).0
unfolding run Counts
run-Counts [] s b = omega (arith, b)
run-Counts (i ∷ is) s b =
    let h = handle-Counts i s b in
    let k = run-Counts is (handle i s).0 (omega (arith, h)) in omega (arith, h, k)

-- What the wait should be: the seconds double with each failure until they are 128, as long as the
-- power fits 64 bits; past that it is undefined.
abbrev pub wait_of : ℕ → Option ℕ
wait_of n = if ltb n 7 then some (2 ^ n) else if ltb n 64 then some 128 else none

backoff-wait_of : (n : ℕ) → backoff n ≡ wait_of n
unfolding backoff
backoff-wait_of n = elim (Bool-cases (ltb n 7)) [
  | inl small ↦
      let low : 2 ^ n ≤ 2 ^ 7 =
        pow-le-pow_right {n = 2} (omega arith) {i = n} {j = 7} (ground arith) in
      capped n (2 ^ n) (omega (arith, low)) small
  | inr big ↦
      let high : 2 ^ 7 ≤ 2 ^ n =
        pow-le-pow_right {n = 2} (omega arith) {i = 7} {j = n} (ground arith) in
      full n (2 ^ n) (omega (arith, high)) big
]
  where
    capped :
        (n x : ℕ)
        → x ≤ 128
        → ltb n 7 ≡ true
        → (if ltb n 64 then some (min x 128) else none)
          ≡ (if ltb n 7 then some x else if ltb n 64 then some 128 else none)
    capped n x h small =
        let least : min x 128 ≡ x = omega (arith, h) in
        let inside : ltb n 64 ≡ true = ground arith in
        if_true _ _ inside ∙ (ap some least ∙ sym (if_true _ _ small))

    full :
        (n x : ℕ)
        → 128 ≤ x
        → ltb n 7 ≡ false
        → (if ltb n 64 then some (min x 128) else none)
          ≡ (if ltb n 7 then some x else if ltb n 64 then some 128 else none)
    full n x h big =
        let least : min x 128 ≡ 128 = omega (arith, h) in
        ap (λ (m : ℕ). if ltb n 64 then some m else none) least ∙ sym (if_false _ _ big)

reconnect_async_wait :
    (s : Shard)
    → s.intentional_close ≡ false
    → (reconnect_async s).1 ≡ back_off (wait_of s.reconnect_attempts) ∷ []
unfolding reconnect_async
reconnect_async_wait s c = ground (arith, backoff-wait_of s.reconnect_attempts)

-- Whatever a new shard goes through, its count of attempts is the number of failed attempts to
-- connect since it was made, in 64 bits; a connection that succeeds does not start the count again.
-- Where the shard may reconnect at all, it waits for a time that doubles with each failure from one
-- second up to 128, and that is undefined from 64 failures on.
pub waits_for_failures :
    (is : List Input)
    → ((run is new_shard).0.reconnect_attempts ≡ failures is % 2 ^ 64)
      × (((run is new_shard).0.intentional_close ≡ true)
          ⊎ ((reconnect_async (run is new_shard).0).1
              ≡ back_off (wait_of (failures is % 2 ^ 64)) ∷ []))
unfolding Counts
waits_for_failures is =
    let counted = run-Counts is new_shard (omega arith) in
    (
      counted ∙ omega arith,
      elim (Bool-cases (run is new_shard).0.intentional_close) [
        | inl c ↦ inl c
        | inr c ↦ inr (
            reconnect_async_wait _ c
            ∙ ap (λ (n : ℕ). back_off (wait_of n) ∷ []) {y = failures is % 2 ^ 64}
                (counted ∙ omega arith))
      ],
    )
