-- ===== src/Dave/Ciphers.antt =====
-- src/dave/cipher_manager.hpp: the ciphers of one key ratchet by generation, and the nonces that
-- were processed. Times are nanoseconds; `none` is `TimePoint::max()`.
pub mod Nonces
pub mod Replay
pub mod Generations
mod Tests
use ekizu.Prelude.{ℕ, zero, suc, ◌+◌, ◌-◌, ◌*◌, ◌/◌, ◌%◌, ◌^◌, bit_and, bit_or, List, [], ◌∷◌, ◌++◌}
use ekizu.Prelude.{
  Option, some, none, Bool, true, false, ltb, ◌==◌, ◌&&◌, not, if◌then◌else◌, map, max,
}

abbrev pub generation_wrap : ℕ
generation_wrap = 256

abbrev pub max_missing_nonces : ℕ
max_missing_nonces = 1000

abbrev pub max_generation_gap : ℕ
max_generation_gap = 250

abbrev pub cipher_expiry : ℕ
cipher_expiry = 10 * 1000000000

unfoldable pub compute_wrapped_generation : ℕ → ℕ → ℕ
compute_wrapped_generation oldest generation =
    let remainder = oldest % generation_wrap in
    let factor = oldest / generation_wrap + (if ltb generation remainder then 1 else 0) in
    (factor * generation_wrap + generation) % 2 ^ 32

unfoldable pub compute_wrapped_big_nonce : ℕ → ℕ → ℕ
compute_wrapped_big_nonce generation nonce =
    bit_or (generation * 2 ^ 24 % 2 ^ 64) (bit_and nonce (2 ^ 24 - 1))

-- `KeyRatchetInterface`: its state, which is not under this model, and its two calls.
pub record KeyRatchet (S : Type 0) : Type 0 where
  pub get_key : S → ℕ → List ℕ × S
  pub delete_key : S → ℕ → S

-- A cipher is the key that it was made with.
pub record CipherEntry : Type 0 where
  pub generation : ℕ
  pub cipher : List ℕ
  pub expiry : Option ℕ

pub record CipherManager (S : Type 0) : Type 0 where
  pub ratchet : S
  pub ciphers : List CipherEntry
  pub missing_nonces : List ℕ
  pub newest_processed_nonce : Option ℕ
  pub oldest_generation : ℕ
  pub newest_generation : ℕ
  pub creation_time : ℕ
  pub expiry_time : Option ℕ

abbrev pub created : {S : Type 0} → S → ℕ → CipherManager S
created ratchet now = record {
  ratchet = ratchet;
  ciphers = [];
  missing_nonces = [];
  newest_processed_nonce = none;
  oldest_generation = 0;
  newest_generation = 0;
  creation_time = now;
  expiry_time = none;
}

unfoldable pub is_member : ℕ → List ℕ → Bool
is_member v [] = false
is_member v (x ∷ xs) = if x == v then true else is_member v xs

unfoldable pub is_fresh : Option ℕ → List ℕ → ℕ → Bool
unfolding is_member
is_fresh none missing wrapped = true
is_fresh (some newest) missing wrapped =
    if ltb newest wrapped then true else is_member wrapped missing

-- The `while` at the front of the deque.
unfoldable pub trim : ℕ → List ℕ → List ℕ
trim oldest_missing [] = []
trim oldest_missing (x ∷ xs) =
    let rest = trim oldest_missing xs in if ltb x oldest_missing then rest else x ∷ xs

-- The `count` nonces from `i` on.
unfoldable pub nonces_from : ℕ → ℕ → List ℕ
nonces_from i zero = []
nonces_from i (suc count) = i ∷ nonces_from (i + 1) count

unfoldable pub erase : ℕ → List ℕ → List ℕ
erase v [] = []
erase v (x ∷ xs) = if x == v then xs else x ∷ erase v xs

-- The part of `report_cipher_success` on nonces: the newest one, and those missing below it.
unfoldable pub track : Option ℕ → List ℕ → ℕ → Option ℕ × List ℕ
unfolding trim nonces_from erase
track none missing wrapped = (some wrapped, missing)
track (some newest) missing wrapped =
    let oldest_missing =
      if ltb max_missing_nonces wrapped then wrapped - max_missing_nonces else 0 in
    let range_start = max oldest_missing (newest + 1) in
    if ltb newest wrapped
    then (
      some wrapped,
      trim oldest_missing missing ++ nonces_from range_start (wrapped - range_start),
    )
    else (some newest, erase wrapped missing)

-- Whether the time lies before `now`.
unfoldable pub is_past : Option ℕ → ℕ → Bool
is_past none now = false
is_past (some t) now = ltb t now

abbrev pub set_expiry : ℕ → ℕ → CipherEntry → CipherEntry
set_expiry newest expiry c =
    let open_end : Bool = elim c.expiry [ none ↦ true | some t ↦ false ] in
    if ltb c.generation newest && open_end then record c { expiry = some expiry } else c

unfoldable pub find_cipher : ℕ → List CipherEntry → Option (List ℕ)
find_cipher generation [] = none
find_cipher generation (c ∷ cs) =
    if c.generation == generation then some c.cipher else find_cipher generation cs

unfoldable pub remove_expired : ℕ → List CipherEntry → List CipherEntry
unfolding is_past
remove_expired now [] = []
remove_expired now (c ∷ cs) =
    let rest = remove_expired now cs in if is_past c.expiry now then rest else c ∷ rest

module _ {S : Type 0} where
  unfoldable pub can_process_nonce : CipherManager S → ℕ → ℕ → Bool
  unfolding is_fresh compute_wrapped_big_nonce
  can_process_nonce m generation nonce =
      is_fresh m.newest_processed_nonce m.missing_nonces
        (compute_wrapped_big_nonce generation nonce)

  unfoldable pub report_cipher_success : CipherManager S → ℕ → ℕ → ℕ → CipherManager S
  unfolding track compute_wrapped_big_nonce
  report_cipher_success m now generation nonce =
      let (newest, missing) =
        track m.newest_processed_nonce m.missing_nonces
          (compute_wrapped_big_nonce generation nonce) in
      let tracked : CipherManager S = record m {
        newest_processed_nonce = newest;
        missing_nonces = missing;
      } in
      if ltb m.newest_generation generation
      then record tracked {
        newest_generation = generation;
        ciphers = map (set_expiry generation (now + cipher_expiry)) m.ciphers;
      }
      else tracked

  unfoldable pub update_expiry : CipherManager S → ℕ → CipherManager S
  update_expiry m expiry =
      let sooner : ℕ = elim m.expiry_time [
        | none ↦ expiry
        | some t ↦ if ltb expiry t then expiry else t
      ] in
      record m { expiry_time = some sooner }

  unfoldable pub is_expired : CipherManager S → ℕ → Bool
  unfolding is_past
  is_expired m now = is_past m.expiry_time now

  module _ (keys : KeyRatchet S) where
    -- The `while` over old generations, each round of which raises the oldest one.
    unfoldable pub delete_old_keys : ℕ → CipherManager S → CipherManager S
    unfolding find_cipher
    delete_old_keys zero m = m
    delete_old_keys (suc rounds) m =
        let next : CipherManager S = record m {
          ratchet = keys.delete_key m.ratchet (m.oldest_generation % 256);
          oldest_generation = m.oldest_generation + 1;
        } in
        let rest = delete_old_keys rounds next in
        elim (find_cipher m.oldest_generation m.ciphers) [ none ↦ rest | some c ↦ m ]

    unfoldable pub cleanup_expired_ciphers : CipherManager S → ℕ → CipherManager S
    unfolding delete_old_keys remove_expired
    cleanup_expired_ciphers m now =
        delete_old_keys (m.newest_generation - m.oldest_generation)
          (record m { ciphers = remove_expired now m.ciphers })

    -- The key of the generation, from the table or from the ratchet.
    unfoldable pub find_or_make : CipherManager S → ℕ → ℕ → Option (List ℕ) × CipherManager S
    unfolding find_cipher
    find_or_make m now generation = elim (find_cipher generation m.ciphers) [
      | some c ↦ (some c, m)
      | none ↦
          let (key, ratchet) = keys.get_key m.ratchet (generation % 256) in
          let asked : CipherManager S = record m { ratchet = ratchet } in
          let expiry : Option ℕ =
            if ltb generation m.newest_generation then some (now + cipher_expiry) else none in
          let entry : CipherEntry = record {
            generation = generation;
            cipher = key;
            expiry = expiry;
          } in
          elim key as (λ k. Option (List ℕ) × CipherManager S) [
            | [] ↦ (none, asked)
            | b ∷ bs ↦ (some key, record asked { ciphers = entry ∷ m.ciphers })
          ]
    ]

    unfoldable pub get_cipher : CipherManager S → ℕ → ℕ → Option (List ℕ) × CipherManager S
    unfolding cleanup_expired_ciphers find_or_make
    get_cipher m now generation =
        let clean = cleanup_expired_ciphers m now in
        let lifetime = (now - m.creation_time) / 1000000000 in
        let max_gen = 170 * lifetime / 2 ^ 24 % 2 ^ 32 in
        let gap_end = (clean.newest_generation + max_generation_gap) % 2 ^ 32 in
        if ltb generation clean.oldest_generation
        then (none, clean)
        else if ltb gap_end generation
        then (none, clean)
        else if ltb max_gen generation
        then (none, clean)
        else find_or_make clean now generation
