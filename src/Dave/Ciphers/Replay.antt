-- ===== src/Dave/Ciphers/Replay.antt =====
-- Replay prevention: what `can_process_nonce` answers after any calls of `report_cipher_success`.
use ekizu.Prelude.{
  ℕ, ◌+◌, ◌-◌, ◌≤◌, ◌≡◌, ◌≢◌, refl, List, [], ◌∷◌, Option, some, none, false, length,
}
use ekizu.Prelude.{ltb, Bool-cases, inl, inr, ap, arith}
use ekizu.Dave.Ciphers.{CipherManager, created, can_process_nonce, report_cipher_success}
use ekizu.Dave.Ciphers.{compute_wrapped_big_nonce, track, max_missing_nonces}
use ekizu.Dave.Ciphers.Nonces.{
  IsTracking, track-IsTracking, track_refuses, track_keeps, track_others, Within-length,
}

-- A report: the time, the generation and the truncated nonce.
pub record Report : Type 0 where
  pub now : ℕ
  pub generation : ℕ
  pub nonce : ℕ

module _ {S : Type 0} where
  abbrev pub report : CipherManager S → Report → CipherManager S
  report m r = report_cipher_success m r.now r.generation r.nonce

  unfoldable pub report_all : CipherManager S → List Report → CipherManager S
  report_all m [] = m
  report_all m (r ∷ rs) = report_all (report m r) rs

  abbrev pub IsTracked : CipherManager S → Type 0
  IsTracked m = IsTracking m.newest_processed_nonce m.missing_nonces

  -- The rest of the handler leaves the nonces alone.
  report_nonces :
      (m : CipherManager S) (r : Report)
      → let w = compute_wrapped_big_nonce r.generation r.nonce in
        let after = track m.newest_processed_nonce m.missing_nonces w in
        ((report m r).newest_processed_nonce ≡ after.0) × ((report m r).missing_nonces ≡ after.1)
  unfolding report_cipher_success
  report_nonces m r = elim (Bool-cases (ltb m.newest_generation r.generation)) [
    | inl newer ↦ rw newer (refl, refl)
    | inr older ↦ rw older (refl, refl)
  ]

  pub report-IsTracked : (m : CipherManager S) (r : Report) → IsTracked m → IsTracked (report m r)
  report-IsTracked m r t =
      let (n, l) = report_nonces m r in
      rw (n, l) (track-IsTracking m.newest_processed_nonce m.missing_nonces _ t)

  -- Whatever was reported, at most 1000 missing nonces are kept.
  pub report_all-IsTracked :
      (rs : List Report) (m : CipherManager S) → IsTracked m → IsTracked (report_all m rs)
  unfolding report_all
  report_all-IsTracked [] m t = t
  report_all-IsTracked (r ∷ rs) m t = report_all-IsTracked rs (report m r) (report-IsTracked m r t)

  pub report_refuses :
      (m : CipherManager S) (r : Report)
      → IsTracked m
      → can_process_nonce (report m r) r.generation r.nonce ≡ false
  unfolding can_process_nonce
  report_refuses m r t =
      let (n, l) = report_nonces m r in
      rw (n, l) (track_refuses m.newest_processed_nonce m.missing_nonces _ t)

  pub report_keeps :
      (m : CipherManager S) (r : Report) (generation nonce : ℕ)
      → IsTracked m
      → can_process_nonce m generation nonce ≡ false
      → can_process_nonce (report m r) generation nonce ≡ false
  unfolding can_process_nonce
  report_keeps m r generation nonce t h =
      let (n, l) = report_nonces m r in
      rw (n, l) (track_keeps m.newest_processed_nonce m.missing_nonces _ _ t h)

  report_all_keeps :
      (rs : List Report) (m : CipherManager S) (generation nonce : ℕ)
      → IsTracked m
      → can_process_nonce m generation nonce ≡ false
      → can_process_nonce (report_all m rs) generation nonce ≡ false
  unfolding report_all
  report_all_keeps [] m generation nonce t h = h
  report_all_keeps (r ∷ rs) m generation nonce t h =
      report_all_keeps rs (report m r) generation nonce (report-IsTracked m r t)
        (report_keeps m r generation nonce t h)

  -- Once a nonce was reported to a manager, which had any reports before it since it was created,
  -- the manager refuses the nonce for good, whatever is reported later.
  pub no_replay :
      (ratchet : S) (now : ℕ) (earlier later : List Report) (r : Report)
      → can_process_nonce
          (report_all (report (report_all (created ratchet now) earlier) r) later)
          r.generation
          r.nonce
        ≡ false
  no_replay ratchet now earlier later r =
      let m = report_all (created ratchet now) earlier in
      let t = report_all-IsTracked earlier (created ratchet now) refl in
      report_all_keeps later (report m r) r.generation r.nonce (report-IsTracked m r t)
        (report_refuses m r t)

  -- A report settles its own nonce only: where the manager has processed a nonce before, any other
  -- nonce that is at most 1000 below the one reported is accepted after the report exactly if it
  -- was accepted before.
  pub report_others :
      (m : CipherManager S) (r : Report) (newest generation nonce : ℕ)
      → IsTracked m
      → m.newest_processed_nonce ≡ some newest
      → compute_wrapped_big_nonce generation nonce ≢ compute_wrapped_big_nonce r.generation r.nonce
      → compute_wrapped_big_nonce r.generation r.nonce
        ≤ compute_wrapped_big_nonce generation nonce + max_missing_nonces
      → can_process_nonce (report m r) generation nonce ≡ can_process_nonce m generation nonce
  unfolding can_process_nonce
  report_others m r newest generation nonce t e ne near =
      let (n, l) = report_nonces m r in
      rw (n, l, e)
        (track_others newest m.missing_nonces (compute_wrapped_big_nonce r.generation r.nonce)
          (compute_wrapped_big_nonce generation nonce) (rw e at t) ne near)

  -- After any reports, the list of missing nonces has at most 1000 elements.
  pub few_missing :
      (ratchet : S) (now : ℕ) (reports : List Report)
      → length (report_all (created ratchet now) reports).missing_nonces ≤ max_missing_nonces
  few_missing ratchet now reports =
      let m = report_all (created ratchet now) reports in
      bounded m.newest_processed_nonce m.missing_nonces
        (report_all-IsTracked reports (created ratchet now) refl)
    where
      bounded : (n : Option ℕ) (l : List ℕ) → IsTracking n l → length l ≤ max_missing_nonces
      bounded none l t = omega (arith, ap length t)
      bounded (some n) l t = omega (arith, Within-length (n - 1000) n l t)
