-- ===== src/Dave/Ciphers/Generations.antt =====
-- Generations: the arithmetic of cipher_manager.hpp, and which ciphers `get_cipher` gives out.
use mathlib.Core.Path.{subst}
use ekizu.Prelude.{
  sym, dec_lt, ℕ, zero, suc, ◌+◌, ◌-◌, ◌*◌, ◌/◌, ◌%◌, ◌^◌, ◌≤◌, ◌<◌, ◌≡◌, refl, ap, ◌∙◌, List, [],
  ◌∷◌, bit_or, bit_and,
}
use ekizu.Prelude.{
  some, none, true, false, ltb, ◌==◌, Bool-cases, Option-cases, inl, inr, ◌⊎◌, arith,
}
use ekizu.Prelude.Bits.{or_shifted, or_comm, and_mask}
use ekizu.Dave.Ciphers.{
  compute_wrapped_generation, compute_wrapped_big_nonce, CipherManager, CipherEntry, KeyRatchet,
}
use ekizu.Dave.Ciphers.{
  is_past, find_cipher, remove_expired, delete_old_keys, cleanup_expired_ciphers, find_or_make,
  get_cipher, max_generation_gap,
}

-- For the low eight bits of a generation and an oldest generation far enough from the end of
-- uint32, the generation computed is the one of the 256 from the oldest on that has these bits.
pub compute_wrapped_generation_lem :
    (oldest generation : ℕ)
    → generation < 256
    → oldest + 256 ≤ 2 ^ 32
    → let full = compute_wrapped_generation oldest generation in
      (full % 256 ≡ generation) × (oldest ≤ full) × (full < oldest + 256)
unfolding compute_wrapped_generation
compute_wrapped_generation_lem oldest generation h room = ground arith

big_nonce_sum :
    (generation nonce : ℕ)
    → generation < 2 ^ 32
    → compute_wrapped_big_nonce generation nonce ≡ generation * 2 ^ 24 + nonce % 2 ^ 24
unfolding compute_wrapped_big_nonce
big_nonce_sum generation nonce h =
    let masked : bit_and nonce (2 ^ 24 - 1) ≡ nonce % 2 ^ 24 = and_mask 24 nonce in
    let small : generation * 2 ^ 24 % 2 ^ 64 ≡ generation * 2 ^ 24 = omega arith in
    ap (λ (t : ℕ). bit_or t (bit_and nonce (2 ^ 24 - 1))) small
    ∙ ap (λ (t : ℕ). bit_or (generation * 2 ^ 24) t) masked
    ∙ or_comm (generation * 2 ^ 24) (nonce % 2 ^ 24)
    ∙ or_shifted 24 (nonce % 2 ^ 24) generation (omega arith)
    ∙ omega arith

-- Two uint32 generations with their nonces give the same full nonce only if the generations and
-- the low 24 bits of the nonces agree.
pub compute_wrapped_big_nonce_injective :
    (generation generation' nonce nonce' : ℕ)
    → generation < 2 ^ 32
    → generation' < 2 ^ 32
    → compute_wrapped_big_nonce generation nonce ≡ compute_wrapped_big_nonce generation' nonce'
    → (generation ≡ generation') × (nonce % 2 ^ 24 ≡ nonce' % 2 ^ 24)
compute_wrapped_big_nonce_injective g g' n n' h h' e =
    let s : g * 2 ^ 24 + n % 2 ^ 24 ≡ g' * 2 ^ 24 + n' % 2 ^ 24 =
      omega (arith, big_nonce_sum g n h, big_nonce_sum g' n' h', e) in
    (omega arith, omega arith)

-- The list without the ciphers that have expired.
pub data Removes (now : ℕ) : List CipherEntry → List CipherEntry → Type 0 where
  done : Removes now [] []
  kept :
      (c : CipherEntry) (cs ds : List CipherEntry)
      → is_past c.expiry now ≡ false
      → Removes now cs ds
      → Removes now (c ∷ cs) (c ∷ ds)
  dropped :
      (c : CipherEntry) (cs ds : List CipherEntry)
      → is_past c.expiry now ≡ true
      → Removes now cs ds
      → Removes now (c ∷ cs) ds

module _ {S : Type 0} (keys : KeyRatchet S) where
  -- A ratchet after the keys of `n` generations from `g` on are deleted.
  unfoldable pub delete_keys : ℕ → ℕ → S → S
  delete_keys zero g ratchet = ratchet
  delete_keys (suc n) g ratchet = delete_keys n (g + 1) (keys.delete_key ratchet (g % 256))

  -- The oldest generation moved up to the first one with a cipher, or to the newest, and the keys of
  -- the generations that it passed are deleted.
  pub record IsAdvanced (m m' : CipherManager S) : Type 0 where
    pub ciphers : m'.ciphers ≡ m.ciphers
    pub raised : m.oldest_generation ≤ m'.oldest_generation
    pub bounded : m'.oldest_generation ≤ m'.newest_generation
    pub newest : m'.newest_generation ≡ m.newest_generation
    pub settled :
        (m'.oldest_generation ≡ m'.newest_generation)
        ⊎ ((c : List ℕ) × (find_cipher m'.oldest_generation m'.ciphers ≡ some c))
    pub passed :
        (g : ℕ)
        → m.oldest_generation ≤ g
        → g < m'.oldest_generation
        → find_cipher g m.ciphers ≡ none
    pub deleted :
        m'.ratchet
        ≡ delete_keys (m'.oldest_generation - m.oldest_generation) m.oldest_generation m.ratchet

  -- What the clean-up leaves: the ciphers that have not expired, and an oldest generation that moved
  -- up past the generations without such a cipher.
  pub record IsClean (m m' : CipherManager S) (now : ℕ) : Type 0 where
    pub live : Removes now m.ciphers m'.ciphers
    pub advanced : IsAdvanced (record m { ciphers = m'.ciphers }) m'

  remove_expired-Removes :
      (now : ℕ) (cs : List CipherEntry) → Removes now cs (remove_expired now cs)
  unfolding remove_expired
  remove_expired-Removes now [] = done
  remove_expired-Removes now (c ∷ cs) = elim (Bool-cases (is_past c.expiry now)) [
    | inl past ↦ rw past (dropped c cs (remove_expired now cs) past (remove_expired-Removes now cs))
    | inr live ↦ rw live (kept c cs (remove_expired now cs) live (remove_expired-Removes now cs))
  ]

  stays-IsAdvanced :
      (m : CipherManager S)
      → m.oldest_generation ≤ m.newest_generation
      → (m.oldest_generation ≡ m.newest_generation)
        ⊎ ((c : List ℕ) × (find_cipher m.oldest_generation m.ciphers ≡ some c))
      → IsAdvanced m m
  unfolding delete_keys
  stays-IsAdvanced m h e = record {
    ciphers = refl;
    raised = omega arith;
    bounded = h;
    newest = refl;
    settled = e;
    passed = λ g lo hi. absurd (omega (arith, lo, hi));
    deleted = sym (
        ap (λ n. delete_keys n m.oldest_generation m.ratchet)
          {x = m.oldest_generation - m.oldest_generation} {y = 0} (omega arith));
  }

  -- One generation further.
  next_manager : CipherManager S → CipherManager S
  next_manager m = record m {
    ratchet = keys.delete_key m.ratchet (m.oldest_generation % 256);
    oldest_generation = m.oldest_generation + 1;
  }

  next-IsAdvanced :
      (m m' : CipherManager S)
      → find_cipher m.oldest_generation m.ciphers ≡ none
      → IsAdvanced (next_manager m) m'
      → IsAdvanced m m'
  unfolding next_manager delete_keys
  next-IsAdvanced m m' missing r = record {
    ciphers = r.ciphers;
    raised = omega (arith, r.raised);
    bounded = r.bounded;
    newest = r.newest;
    settled = r.settled;
    passed = λ g lo hi. elim (dec_lt m.oldest_generation g) [
      | yes above ↦ r.passed g (omega (arith, above)) hi
      | no same ↦
          ap (λ (k : ℕ). find_cipher k m.ciphers) {x = g} {y = m.oldest_generation}
            (omega (arith, same, lo))
          ∙ missing
    ];
    deleted =
        r.deleted
        ∙ sym (
            ap (λ n. delete_keys n m.oldest_generation m.ratchet)
              {x = m'.oldest_generation - m.oldest_generation}
              {y = suc (m'.oldest_generation - (m.oldest_generation + 1))}
              (omega (arith, r.raised)));
  }

  delete_old_keys-IsAdvanced :
      (rounds : ℕ) (m : CipherManager S)
      → m.oldest_generation + rounds ≡ m.newest_generation
      → IsAdvanced m (delete_old_keys keys rounds m)
  unfolding delete_old_keys next_manager
  delete_old_keys-IsAdvanced zero m e =
      stays-IsAdvanced m (omega (arith, e)) (inl (omega (arith, e)))
  delete_old_keys-IsAdvanced (suc rounds) m e =
      elim (Option-cases (find_cipher m.oldest_generation m.ciphers)) [
        | inr (c, found) ↦
            rw (found, delete_old_keys) (stays-IsAdvanced m (omega (arith, e)) (inr (c, found)))
        | inl missing ↦
            rw (missing, delete_old_keys)
              (next-IsAdvanced m (delete_old_keys keys rounds (next_manager m)) missing
                (delete_old_keys-IsAdvanced rounds (next_manager m) (omega (arith, e))))
      ]

  -- The clean-up drops exactly the ciphers that have expired and keeps the others in order. It moves
  -- the oldest generation up to the first one that still has a cipher, or to the newest: no generation
  -- that it passes has one. It deletes the keys of the generations that it passes, each once and in
  -- order, and no others.
  pub cleanup_expired_ciphers-IsClean :
      (m : CipherManager S) (now : ℕ)
      → m.oldest_generation ≤ m.newest_generation
      → IsClean m (cleanup_expired_ciphers keys m now) now
  unfolding cleanup_expired_ciphers
  cleanup_expired_ciphers-IsClean m now h =
      let kept_ones : CipherManager S = record m { ciphers = remove_expired now m.ciphers } in
      let r =
        delete_old_keys-IsAdvanced (m.newest_generation - m.oldest_generation) kept_ones
          (omega (arith, h)) in
      record {
        live = subst (Removes now m.ciphers) (sym r.ciphers) (remove_expired-Removes now m.ciphers);
        advanced =
            subst
              (λ cs. IsAdvanced (record m { ciphers = cs }) (cleanup_expired_ciphers keys m now))
              (sym r.ciphers) r;
      }

  -- The generations stay, and the cipher given out is in the table.
  find_or_make_lem :
      (m : CipherManager S) (now generation : ℕ) (c : List ℕ)
      → (find_or_make keys m now generation).0 ≡ some c
      → let m' = (find_or_make keys m now generation).1 in
        (m'.oldest_generation ≡ m.oldest_generation)
        × (m'.newest_generation ≡ m.newest_generation)
        × (find_cipher generation m'.ciphers ≡ some c)
  unfolding find_or_make find_cipher
  find_or_make_lem m now generation c e = elim (Option-cases (find_cipher generation m.ciphers)) [
    | inr (k, held) ↦ rw (held, find_or_make) (refl, refl, held ∙ rw (held, find_or_make) at e)
    | inl missing ↦ new_key (keys.get_key m.ratchet (generation % 256)).0 missing refl
  ]
    where
      new_key :
          (key : List ℕ)
          → find_cipher generation m.ciphers ≡ none
          → (keys.get_key m.ratchet (generation % 256)).0 ≡ key
          → let m' = (find_or_make keys m now generation).1 in
            (m'.oldest_generation ≡ m.oldest_generation)
            × (m'.newest_generation ≡ m.newest_generation)
            × (find_cipher generation m'.ciphers ≡ some c)
      new_key [] missing k = cc (rw (missing, find_or_make, k) at e)
      new_key (b ∷ bs) missing k =
          let same : generation == generation ≡ true = ground arith in
          rw (missing, find_or_make, k, same) (refl, refl, rw (missing, find_or_make, k) at e)

  -- A cipher that `get_cipher` gives out is the one that the table then holds for the generation,
  -- and the generation is neither below the oldest one nor above the newest one plus the gap, in
  -- uint32 arithmetic.
  pub get_cipher_lem :
      (m : CipherManager S) (now generation : ℕ) (c : List ℕ)
      → (get_cipher keys m now generation).0 ≡ some c
      → let m' = (get_cipher keys m now generation).1 in
        (m'.oldest_generation ≤ generation)
        × (generation ≤ (m'.newest_generation + max_generation_gap) % 2 ^ 32)
        × (find_cipher generation m'.ciphers ≡ some c)
  unfolding get_cipher
  get_cipher_lem m now generation c e =
      let clean = cleanup_expired_ciphers keys m now in
      let gap_end = (clean.newest_generation + max_generation_gap) % 2 ^ 32 in
      let max_gen = 170 * ((now - m.creation_time) / 1000000000) / 2 ^ 24 % 2 ^ 32 in
      elim (Bool-cases (ltb generation clean.oldest_generation)) [
        | inl old ↦ cc (rw old at e)
        | inr a ↦ elim (Bool-cases (ltb gap_end generation)) [
          | inl far ↦ cc (rw (a, far) at e)
          | inr b ↦ elim (Bool-cases (ltb max_gen generation)) [
            | inl early ↦ cc (rw (a, b, early) at e)
            | inr d ↦
                let (o, n, held) = find_or_make_lem clean now generation c (rw (a, b, d) at e) in
                let low : clean.oldest_generation ≤ generation = ground arith in
                let high : generation ≤ gap_end = ground arith in
                rw (a, b, d, o, n) (low, high, held)
          ]
        ]
      ]
