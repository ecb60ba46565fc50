-- ===== src/Dave/Decryptor/Replay.antt =====
-- A frame that was decrypted is not decrypted again by the same manager.
use mathlib.Core.Path.{subst}
use ekizu.Prelude.{
  if_true, ℕ, zero, suc, ◌+◌, ◌-◌, ◌*◌, ◌/◌, ◌%◌, ◌^◌, ◌≤◌, ◌<◌, ◌≡◌, refl, sym, ap, ◌∙◌, arith,
}
use ekizu.Prelude.{
  List, [], ◌∷◌, ◌++◌, replicate, Option, some, none, true, false, ltb, Bool-cases, Option-cases,
  inl, inr, some_inj,
}
use ekizu.Dave.Buffer.{>>=-eq-some, copy_at, u32_bytes}
use ekizu.Dave.Inbound.{InboundFrameProcessor, reconstruct_frame}
use ekizu.Dave.Ciphers.{
  KeyRatchet, CipherManager, compute_wrapped_generation, can_process_nonce, get_cipher,
  report_cipher_success,
}
use ekizu.Dave.Ciphers.{
  find_cipher, delete_old_keys, cleanup_expired_ciphers, find_or_make, remove_expired,
  max_generation_gap,
}
use ekizu.Dave.Ciphers.Replay.{Report, IsTracked, report_refuses, report-IsTracked, report_keeps}
use ekizu.Dave.Ciphers.Generations.{compute_wrapped_generation_lem}
use ekizu.Dave.Aead.{Gcm, decrypt as open_combined}
use ekizu.Dave.Decryptor.{Tried, decrypt_impl, decrypt_with, deliver_opened, deliver}

pub no_bytes :
    {S : Type 0}
    → (o t : Tried S) (out : List ℕ) → ◌≡◌ {A = Option (Tried S)} (some o) (some t)
    → o.bytes ≡ none
    → t.bytes ≡ some out
    → ⊥
no_bytes o t out e empty b = cc (sym (ap (λ (x : Tried _). x.bytes) (some_inj e)) ∙ empty)

module _ {S : Type 0} (keys : KeyRatchet S) where
  -- The nonces stay, and the oldest generation does not fall.
  abbrev pub Keeps : CipherManager S → CipherManager S → Type 0
  Keeps m m' =
      (m'.newest_processed_nonce ≡ m.newest_processed_nonce)
      × (m'.missing_nonces ≡ m.missing_nonces)
      × (m.oldest_generation ≤ m'.oldest_generation)

  delete_old_keys-Keeps :
      (rounds : ℕ) (m : CipherManager S) → Keeps m (delete_old_keys keys rounds m)
  unfolding delete_old_keys
  delete_old_keys-Keeps zero m = (refl, refl, omega arith)
  delete_old_keys-Keeps (suc rounds) m =
      elim (Option-cases (find_cipher m.oldest_generation m.ciphers)) [
        | inr (c, found) ↦ rw (found, delete_old_keys) (refl, refl, omega arith)
        | inl missing ↦
            let next : CipherManager S = record m {
              ratchet = keys.delete_key m.ratchet (m.oldest_generation % 256);
              oldest_generation = m.oldest_generation + 1;
            } in
            let (n, l, o) = delete_old_keys-Keeps rounds next in
            rw (missing, delete_old_keys) (n, l, omega (arith, o))
      ]

  cleanup-Keeps : (m : CipherManager S) (now : ℕ) → Keeps m (cleanup_expired_ciphers keys m now)
  unfolding cleanup_expired_ciphers
  cleanup-Keeps m now =
      delete_old_keys-Keeps (m.newest_generation - m.oldest_generation)
        (record m { ciphers = remove_expired now m.ciphers })

  find_or_make-Keeps :
      (m : CipherManager S) (now generation : ℕ) → Keeps m (find_or_make keys m now generation).1
  unfolding find_or_make
  find_or_make-Keeps m now generation = elim (Option-cases (find_cipher generation m.ciphers)) [
    | inr (k, held) ↦ rw (held, find_or_make) (refl, refl, omega arith)
    | inl missing ↦ new_key (keys.get_key m.ratchet (generation % 256)).0 missing refl
  ]
    where
      new_key :
          (key : List ℕ)
          → find_cipher generation m.ciphers ≡ none
          → (keys.get_key m.ratchet (generation % 256)).0 ≡ key
          → Keeps m (find_or_make keys m now generation).1
      new_key [] missing k = rw (missing, find_or_make, k) (refl, refl, omega arith)
      new_key (b ∷ bs) missing k = rw (missing, find_or_make, k) (refl, refl, omega arith)

  get_cipher-Keeps :
      (m : CipherManager S) (now generation : ℕ) → Keeps m (get_cipher keys m now generation).1
  unfolding get_cipher
  get_cipher-Keeps m now generation =
      let clean = cleanup_expired_ciphers keys m now in
      let gap_end = (clean.newest_generation + max_generation_gap) % 2 ^ 32 in
      let max_gen = 170 * ((now - m.creation_time) / 1000000000) / 2 ^ 24 % 2 ^ 32 in
      let (n, l, o) = cleanup-Keeps m now in
      let (n', l', o') = find_or_make-Keeps clean now generation in
      elim (Bool-cases (ltb generation clean.oldest_generation)) [
        | inl old ↦ rw old (n, l, o)
        | inr a ↦ elim (Bool-cases (ltb gap_end generation)) [
          | inl far ↦ rw (a, far) (n, l, o)
          | inr b ↦ elim (Bool-cases (ltb max_gen generation)) [
            | inl early ↦ rw (a, b, early) (n, l, o)
            | inr d ↦ rw (a, b, d) (n' ∙ n, l' ∙ l, omega (arith, o, o'))
          ]
        ]
      ]

  report-oldest :
      (m : CipherManager S) (now generation nonce : ℕ)
      → (report_cipher_success m now generation nonce).oldest_generation ≡ m.oldest_generation
  unfolding report_cipher_success
  report-oldest m now generation nonce = elim (Bool-cases (ltb m.newest_generation generation)) [
    | inl newer ↦ rw newer refl
    | inr older ↦ rw older refl
  ]

  -- From a later oldest generation, up to the generation itself, the same generation is computed.
  pub same_generation :
      (oldest oldest' low : ℕ)
      → low < 256
      → oldest ≤ oldest'
      → oldest' ≤ compute_wrapped_generation oldest low
      → oldest + 512 ≤ 2 ^ 32
      → compute_wrapped_generation oldest' low ≡ compute_wrapped_generation oldest low
  same_generation oldest oldest' low h up below room =
      let a = compute_wrapped_generation_lem oldest low h (omega arith) in
      let b = compute_wrapped_generation_lem oldest' low h (omega (arith, a)) in omega (arith, a, b)

  pub deliver_reports :
      (gcm : Gcm) (p : InboundFrameProcessor) (now generation capacity : ℕ) (m' : CipherManager S)
      (t : Tried S) (text : List ℕ)
      → deliver keys gcm m' p now generation capacity text ≡ some t
      → t.manager ≡ report_cipher_success m' now generation p.truncated_nonce
  unfolding deliver
  deliver_reports gcm p now generation capacity m' t text e =
      let (plaintext, _, e1) = >>=-eq-some (copy_at p.plaintext 0 text) _ e in
      let opened : InboundFrameProcessor = record p { plaintext = plaintext } in
      let (bytes, _, e2) = >>=-eq-some (reconstruct_frame opened capacity) _ e1 in
      ap (λ (x : Tried S). x.manager) (sym (some_inj e2))

  module _ (gcm : Gcm) (m : CipherManager S) (p : InboundFrameProcessor) (now capacity : ℕ) where
    abbrev generation : ℕ
    generation = compute_wrapped_generation m.oldest_generation (p.truncated_nonce / 2 ^ 24)

    abbrev asked : Option (List ℕ) × CipherManager S
    asked = get_cipher keys m now generation

    -- Where bytes come out, there was a cipher, and the nonce was reported.
    success_reports :
        (m' : CipherManager S) (cipher : Option (List ℕ)) (t : Tried S) (out : List ℕ)
        → decrypt_with keys gcm m' p now generation capacity cipher ≡ some t
        → t.bytes ≡ some out
        → (key : List ℕ) × (cipher ≡ some key)
          × (t.manager ≡ report_cipher_success m' now generation p.truncated_nonce)
    unfolding decrypt_with
    success_reports m' none t out e b = absurd (no_bytes _ t out e refl b)
    success_reports m' (some key) t out e b = (
      key,
      refl,
      opened
          (open_combined gcm key (p.ciphertext ++ p.tag) p.authenticated
            (replicate 8 0 ++ u32_bytes p.truncated_nonce))
          e,
    )
      where
        opened :
            (text : Option (List ℕ))
            → deliver_opened keys gcm m' p now generation capacity text ≡ some t
            → t.manager ≡ report_cipher_success m' now generation p.truncated_nonce
        opened none d = absurd (no_bytes _ t out (unfold deliver_opened in d) refl b)
        opened (some text) d =
            deliver_reports gcm p now generation capacity m' t text (unfold deliver_opened in d)

    can_and_has :
        (t : Tried S) (out : List ℕ)
        → decrypt_impl keys gcm m p now capacity ≡ some t
        → t.bytes ≡ some out
        → (can_process_nonce m generation p.truncated_nonce ≡ true)
          × (decrypt_with keys gcm asked.1 p now generation capacity asked.0 ≡ some t)
    unfolding decrypt_impl
    can_and_has t out e b = elim (Bool-cases p.encrypted) [
      | inr clear_frame ↦ absurd (no_bytes _ t out (rw clear_frame at e) refl b)
      | inl enc ↦ elim (Bool-cases (can_process_nonce m generation p.truncated_nonce)) [
        | inr old ↦ absurd (no_bytes _ t out (rw (enc, old) at e) refl b)
        | inl fresh ↦ (fresh, sym (if_true _ _ enc ∙ if_true _ _ fresh) ∙ e)
      ]
    ]

    -- A nonce that was processed leaves the cipher untried.
    pub refuses :
        can_process_nonce m generation p.truncated_nonce ≡ false
        → (t : Tried S) × (decrypt_impl keys gcm m p now capacity ≡ some t) × (t.bytes ≡ none)
    unfolding decrypt_impl
    refuses old = elim (Bool-cases p.encrypted) [
      | inr clear_frame ↦ rw clear_frame (_, refl, refl)
      | inl enc ↦ rw (enc, old) (_, refl, refl)
    ]

  -- A manager that refuses a nonce of a generation, with an oldest generation of at least `low`.
  pub record IsGuarded (g nonce low : ℕ) (m : CipherManager S) : Type 0 where
    pub tracked : IsTracked m
    pub refused : can_process_nonce m g nonce ≡ false
    pub raised : low ≤ m.oldest_generation

  pub get_cipher-IsGuarded :
      (g nonce low now generation : ℕ) (m : CipherManager S)
      → IsGuarded g nonce low m
      → IsGuarded g nonce low (get_cipher keys m now generation).1
  unfolding can_process_nonce
  get_cipher-IsGuarded g nonce low now generation m h =
      let (n, l, o) = get_cipher-Keeps m now generation in
      record {
        tracked = rw (n, l) h.tracked;
        refused = rw (n, l) h.refused;
        raised = omega (arith, h.raised, o);
      }

  pub report-IsGuarded :
      (g nonce low now generation other : ℕ) (m : CipherManager S)
      → IsGuarded g nonce low m
      → IsGuarded g nonce low (report_cipher_success m now generation other)
  report-IsGuarded g nonce low now generation other m h =
      let r : Report = record { now = now; generation = generation; nonce = other } in
      record {
        tracked = report-IsTracked m r h.tracked;
        refused = report_keeps m r g nonce h.tracked h.refused;
        raised = omega (arith, h.raised, report-oldest m now generation other);
      }

  -- A frame that was decrypted leaves a manager that refuses its nonce.
  pub success-IsGuarded :
      (gcm : Gcm) (m : CipherManager S) (p : InboundFrameProcessor) (now capacity : ℕ) (t : Tried S)
      (out : List ℕ)
      → IsTracked m
      → decrypt_impl keys gcm m p now capacity ≡ some t
      → t.bytes ≡ some out
      → let g = compute_wrapped_generation m.oldest_generation (p.truncated_nonce / 2 ^ 24) in
        IsGuarded g p.truncated_nonce m.oldest_generation t.manager
  success-IsGuarded gcm m p now capacity t out tracked e b =
      let g = compute_wrapped_generation m.oldest_generation (p.truncated_nonce / 2 ^ 24) in
      let (_, tried) = can_and_has gcm m p now capacity t out e b in
      let (key, has, manager) =
        success_reports gcm m p now capacity (get_cipher keys m now g).1 (get_cipher keys m now g).0
          t out tried b in
      let m' = (get_cipher keys m now g).1 in
      let (n, l, up) = get_cipher-Keeps m now g in
      let kept : IsTracked m' = rw (n, l) tracked in
      let r : Report = record { now = now; generation = g; nonce = p.truncated_nonce } in
      subst (IsGuarded g p.truncated_nonce m.oldest_generation) (sym manager) (record {
        tracked = report-IsTracked m' r kept;
        refused = report_refuses m' r kept;
        raised = omega (arith, up, report-oldest m' now g p.truncated_nonce);
      })
