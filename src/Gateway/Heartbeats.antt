-- ===== src/Gateway/Heartbeats.antt =====
-- How src/shard.cpp finds out that its connection is dead.
use ekizu.Prelude.{
  ℕ, zero, suc, ◌+◌, ◌<◌, ◌≡◌, refl, ap, ◌∙◌, true, false, none, List, [], ◌∷◌, ◌++◌, arith,
}
use ekizu.Gateway.Shard.{
  heartbeat, sequence_of, ticker, ignored, Action, send, close_ws, complete, failed, success,
  cancel_timer, start_timer, Shard, Step, ◌>>◌, close_impl, send_heartbeat_async, beat, miss,
  on_tick, session_expired,
}
use ekizu.Gateway.Connection.{on_done}
use ekizu.Gateway.Messages.{on_heartbeat_ack}

-- A shard with a connection and a heartbeat that runs.
pub record IsBeating (s : Shard) : Type 0 where
  pub connected : s.has_ws ≡ true
  pub timed : s.has_timer ≡ true
  pub running : s.heartbeat_running ≡ true

-- The timer expires, a heartbeat is sent, and the timer is started again.
unfoldable pub round : Step
round = on_tick none >> on_done ticker none

-- The same, and the gateway answers.
unfoldable pub answered_round : Step
unfolding round
answered_round = round >> on_heartbeat_ack

unfoldable pub rounds : ℕ → Step → Step
rounds zero f s = (s, [])
rounds (suc n) f s = (f >> rounds n f) s

-- What a round asks for.
abbrev pub beat_of : Shard → List Action
beat_of s = send (heartbeat (sequence_of s.session)) ticker ∷ start_timer s.heartbeat_interval ∷ []

-- The first round after an answer.
round-acked :
    (s : Shard)
    → IsBeating s
    → s.last_heartbeat_acked ≡ true
    → round s ≡ (record s { missed_heartbeats = 0; last_heartbeat_acked = false }, beat_of s)
unfolding round on_tick beat send_heartbeat_async on_done
round-acked s b a = ground (arith, b.connected, b.timed, b.running)

-- Another one, where few were missed.
round-silent :
    (s : Shard) (m : ℕ)
    → IsBeating s
    → s.last_heartbeat_acked ≡ false
    → s.missed_heartbeats ≡ m
    → m < 2
    → round s ≡ (record s { missed_heartbeats = m + 1; last_heartbeat_acked = false }, beat_of s)
unfolding round on_tick miss beat send_heartbeat_async on_done
round-silent s m b a e l = ground (arith, b.connected, b.timed, b.running)

tick-dead :
    (s : Shard)
    → IsBeating s
    → s.last_heartbeat_acked ≡ false
    → s.missed_heartbeats ≡ 2
    → on_tick none s ≡ (
      record s { missed_heartbeats = 3; heartbeat_running = false; has_timer = false },
      cancel_timer ∷ close_ws session_expired ignored ∷ [],
    )
unfolding on_tick miss close_impl
tick-dead s b a e = ground (arith, b.connected, b.timed, b.running)

after :
    (f g : Step) (s : Shard) (r : Shard × List Action)
    → f s ≡ r
    → (f >> g) s ≡ ((g r.0).0, r.1 ++ (g r.0).1)
after f g s r e = ap (λ x. ((g x.0).0, x.1 ++ (g x.0).1)) e

answered_round-acked :
    (s : Shard)
    → IsBeating s
    → s.last_heartbeat_acked ≡ true
    → answered_round s ≡ (
      record s { missed_heartbeats = 0; last_heartbeat_acked = true },
      beat_of s ++ complete (failed success) ∷ [],
    )
unfolding answered_round on_heartbeat_ack
answered_round-acked s b a = after round on_heartbeat_ack s _ (round-acked s b a)

abbrev pub repeated : ℕ → List Action → List Action
repeated zero l = []
repeated (suc n) l = l ++ repeated n l

rounds-answered :
    (n : ℕ) (s : Shard)
    → IsBeating s
    → s.last_heartbeat_acked ≡ true
    → (rounds n answered_round s).1 ≡ repeated n (beat_of s ++ complete (failed success) ∷ [])
unfolding rounds
rounds-answered zero s b a = refl
rounds-answered (suc n) s b a =
    ap (λ r. r.1) (after answered_round (rounds n answered_round) s _ (answered_round-acked s b a))
    ∙ ap (λ l. (beat_of s ++ complete (failed success) ∷ []) ++ l)
        (rounds-answered n (record s { missed_heartbeats = 0; last_heartbeat_acked = true })
          (record { connected = b.connected; timed = b.timed; running = b.running }) refl)

three_rounds :
    (s : Shard)
    → IsBeating s
    → s.last_heartbeat_acked ≡ true
    → rounds 3 round s
      ≡ (record s { missed_heartbeats = 2; last_heartbeat_acked = false }, repeated 3 (beat_of s))
unfolding rounds
three_rounds s b a =
    after round (rounds 2 round) s _ (round-acked s b a)
    ∙ ap (λ r. (r.0, beat_of s ++ r.1))
        (after round (rounds 1 round)
            (record s { missed_heartbeats = 0; last_heartbeat_acked = false }) _
            (round-silent (record s { missed_heartbeats = 0; last_heartbeat_acked = false }) 0
              (record { connected = b.connected; timed = b.timed; running = b.running }) refl refl
              (omega arith))
          ∙ ap (λ r. (r.0, beat_of s ++ r.1))
              (after round (rounds 0 round)
                (record s { missed_heartbeats = 1; last_heartbeat_acked = false }) _
                (round-silent (record s { missed_heartbeats = 1; last_heartbeat_acked = false }) 1
                  (record { connected = b.connected; timed = b.timed; running = b.running }) refl
                  refl (omega arith))))

-- A shard with a connection and a running heartbeat, whose last heartbeat was answered:
-- - as long as each heartbeat is answered, each expiry of the timer sends the next one, and nothing
--   is closed, however often;
-- - where no heartbeat is answered any more, three more are sent, and the fourth expiry of the timer
--   stops the heartbeat and closes the connection with the code 4009, with the session and the
--   address to resume it kept.
pub heartbeats_decide :
    (s : Shard) (n : ℕ)
    → IsBeating s
    → s.last_heartbeat_acked ≡ true
    → ((rounds n answered_round s).1 ≡ repeated n (beat_of s ++ complete (failed success) ∷ []))
      × ((rounds 3 round s).1 ≡ repeated 3 (beat_of s))
      × (on_tick none (rounds 3 round s).0 ≡ (
        record s {
          missed_heartbeats = 3;
          last_heartbeat_acked = false;
          heartbeat_running = false;
          has_timer = false;
        },
        cancel_timer ∷ close_ws session_expired ignored ∷ [],
      ))
heartbeats_decide s n b a =
    let e = three_rounds s b a in
    (
      rounds-answered n s b a,
      ap (λ r. r.1) e,
      ap (λ r. on_tick none r.0) e
          ∙ tick-dead _ (record { connected = b.connected; timed = b.timed; running = b.running })
              refl refl,
    )
