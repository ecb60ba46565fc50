-- ===== src/Dave/Decryptor.antt =====
-- src/dave/decryptor.cpp. The clock is read once in each call; reading or writing outside a buffer
-- is `none`.
pub mod Replay
pub mod Later
use ekizu.Prelude.{ℕ, ◌+◌, ◌/◌, ◌^◌, List, [], ◌∷◌, ◌++◌, length, replicate, map}
use ekizu.Prelude.{Option, some, none, Bool, true, false, ltb, leb, if◌then◌else◌}
use ekizu.Dave.Buffer.{◌>>=◌, copy_at, bytes_equal, u32_bytes}
use ekizu.Dave.Inbound.{InboundFrameProcessor, parse_frame, reconstruct_frame}
use ekizu.Dave.Ciphers.{KeyRatchet, CipherManager, created, compute_wrapped_generation}
use ekizu.Dave.Ciphers.{
  can_process_nonce, report_cipher_success, get_cipher, update_expiry, is_expired,
}
use ekizu.Dave.Aead.{Gcm, decrypt as open_combined}

pub data MediaType : Type 0 where
  audio video : MediaType

abbrev pub opus_silence_packet : List ℕ
opus_silence_packet = 0xf8 ∷ 0xff ∷ 0xfe ∷ []

pub record DecryptionStats : Type 0 where
  pub passthroughs : ℕ
  pub decrypt_success : ℕ
  pub decrypt_failure : ℕ
  pub decrypt_duration : ℕ
  pub decrypt_attempts : ℕ

-- The managers stand newest first, and the processor that was returned last stands first.
-- `none` as a time is `TimePoint::max()`.
pub record Decryptor (S : Type 0) : Type 0 where
  pub managers : List (CipherManager S)
  pub frame_processors : List InboundFrameProcessor
  pub allow_passthrough_until : Option ℕ
  pub audio_stats : DecryptionStats
  pub video_stats : DecryptionStats

-- The bytes at the front of the output, or `bad_message`.
pub data Decrypted : Type 0 where
  decrypted : List ℕ → Decrypted
  bad_message : Decrypted

-- What one manager makes of a frame: the bytes, if it succeeds, the manager and the processor
-- after it, and whether the cipher was tried.
pub record Tried (S : Type 0) : Type 0 where
  pub bytes : Option (List ℕ)
  pub manager : CipherManager S
  pub processor : InboundFrameProcessor
  pub attempts : ℕ

abbrev pub new_processor : InboundFrameProcessor
new_processor = record {
  encrypted = false;
  original_size = 0;
  tag = [];
  truncated_nonce = 0;
  unencrypted_ranges = [];
  authenticated = [];
  ciphertext = [];
  plaintext = [];
}

unfoldable pub is_silence : MediaType → List ℕ → Bool
unfolding bytes_equal
is_silence audio frame = bytes_equal frame opus_silence_packet
is_silence video frame = false

-- Nothing was rebuilt where the number of bytes is 0.
unfoldable pub some_bytes : List ℕ → Option (List ℕ)
some_bytes [] = none
some_bytes (b ∷ bs) = some (b ∷ bs)

-- Whether the time lies after `now`.
unfoldable pub is_ahead : Option ℕ → ℕ → Bool
is_ahead none now = true
is_ahead (some t) now = ltb now t

unfoldable pub get_or_create_frame_processor :
    List InboundFrameProcessor → InboundFrameProcessor × List InboundFrameProcessor
get_or_create_frame_processor [] = (new_processor, [])
get_or_create_frame_processor (p ∷ ps) = (p, ps)

module _ {S : Type 0} where
  unfoldable pub stats_for : Decryptor S → MediaType → DecryptionStats
  stats_for d audio = d.audio_stats
  stats_for d video = d.video_stats

  unfoldable pub set_stats : Decryptor S → MediaType → DecryptionStats → Decryptor S
  set_stats d audio stats = record d { audio_stats = stats }
  set_stats d video stats = record d { video_stats = stats }

  unfoldable pub update_cryptor_manager_expiry : Decryptor S → ℕ → ℕ → Decryptor S
  unfolding update_expiry
  update_cryptor_manager_expiry d now expiry = record d {
    managers = map (λ m. update_expiry m (now + expiry)) d.managers;
  }

  unfoldable pub transition_to_key_ratchet : Decryptor S → ℕ → Option S → ℕ → Decryptor S
  unfolding update_cryptor_manager_expiry
  transition_to_key_ratchet d now none expiry = update_cryptor_manager_expiry d now expiry
  transition_to_key_ratchet d now (some ratchet) expiry =
      let e : Decryptor S = update_cryptor_manager_expiry d now expiry in
      record e { managers = created ratchet now ∷ e.managers }

  unfoldable pub transition_to_passthrough_mode : Decryptor S → ℕ → Bool → ℕ → Decryptor S
  transition_to_passthrough_mode d now true expiry = record d { allow_passthrough_until = none }
  transition_to_passthrough_mode d now false expiry =
      let sooner : ℕ = elim d.allow_passthrough_until [
        | none ↦ now + expiry
        | some t ↦ if ltb (now + expiry) t then now + expiry else t
      ] in
      record d { allow_passthrough_until = some sooner }

  -- Expired managers are dropped from the oldest one on, up to the first that has not expired.
  unfoldable pub drop_expired : ℕ → List (CipherManager S) → List (CipherManager S)
  unfolding is_expired
  drop_expired now [] = []
  drop_expired now (m ∷ ms) =
      let rest = drop_expired now ms in
      elim rest as (λ r. List (CipherManager S)) [
        | [] ↦ if is_expired m now then [] else m ∷ []
        | k ∷ ks ↦ m ∷ rest
      ]

  module _ (keys : KeyRatchet S) (gcm : Gcm) where
    -- From the reported success on.
    unfoldable pub deliver :
        CipherManager S → InboundFrameProcessor → ℕ → ℕ → ℕ → List ℕ → Option (Tried S)
    unfolding report_cipher_success reconstruct_frame copy_at some_bytes
    deliver m p now generation capacity text = do
      plaintext ← copy_at p.plaintext 0 text
      let opened : InboundFrameProcessor = record p { plaintext = plaintext }
      let reported = report_cipher_success m now generation p.truncated_nonce
      bytes ← reconstruct_frame opened capacity
      some (record {
        bytes = some_bytes bytes;
        manager = reported;
        processor = opened;
        attempts = 1;
      })

    unfoldable pub deliver_opened :
        CipherManager S → InboundFrameProcessor → ℕ → ℕ → ℕ → Option (List ℕ) → Option (Tried S)
    unfolding deliver
    deliver_opened m p now generation capacity none =
        some (record { bytes = none; manager = m; processor = p; attempts = 1 })
    deliver_opened m p now generation capacity (some text) =
        deliver m p now generation capacity text

    -- With the cipher of the generation, if there is one.
    unfoldable pub decrypt_with :
        CipherManager S → InboundFrameProcessor → ℕ → ℕ → ℕ → Option (List ℕ) → Option (Tried S)
    unfolding deliver_opened
    decrypt_with m p now generation capacity none =
        some (record { bytes = none; manager = m; processor = p; attempts = 0 })
    decrypt_with m p now generation capacity (some key) =
        let nonce_buffer : List ℕ = replicate 8 0 ++ u32_bytes p.truncated_nonce in
        deliver_opened m p now generation capacity
          (open_combined gcm key (p.ciphertext ++ p.tag) p.authenticated nonce_buffer)

    unfoldable pub decrypt_impl : CipherManager S → InboundFrameProcessor → ℕ → ℕ → Option (Tried S)
    unfolding decrypt_with can_process_nonce get_cipher compute_wrapped_generation
    decrypt_impl m p now capacity =
        let untried : Option (Tried S) =
          some (record { bytes = none; manager = m; processor = p; attempts = 0 }) in
        let generation =
          compute_wrapped_generation m.oldest_generation (p.truncated_nonce / 2 ^ 24) in
        let asked = get_cipher keys m now generation in
        if p.encrypted
        then if can_process_nonce m generation p.truncated_nonce
          then decrypt_with asked.1 p now generation capacity asked.0
          else untried
        else untried

    -- The managers in turn, the newest first, until one succeeds.
    unfoldable pub try_managers :
        List (CipherManager S)
        → InboundFrameProcessor
        → ℕ
        → ℕ
        → Option (Option (List ℕ) × List (CipherManager S) × InboundFrameProcessor × ℕ)
    unfolding decrypt_impl
    try_managers [] p now capacity = some (none, [], p, 0)
    try_managers (m ∷ ms) p now capacity = decrypt_impl m p now capacity >>= λ t.
        elim t.bytes
          as (λ b. Option (Option (List ℕ) × List (CipherManager S) × InboundFrameProcessor × ℕ)) [
            | some out ↦ some (some out, t.manager ∷ ms, t.processor, t.attempts)
            | none ↦ try_managers ms t.processor now capacity >>= λ r.
                some (r.0, t.manager ∷ r.1, r.2, t.attempts + r.3)
          ]

    -- What is copied through unchanged.
    unfoldable pub copy_through : List ℕ → ℕ → Option Decrypted
    copy_through frame capacity =
        if leb (length frame) capacity then some (decrypted frame) else none

    -- A parsed frame, `d` with the expired managers dropped.
    unfoldable pub decrypt_parsed :
        Decryptor S
        → MediaType
        → List ℕ
        → InboundFrameProcessor
        → List InboundFrameProcessor
        → ℕ
        → ℕ
        → ℕ
        → Option (Decrypted × Decryptor S)
    unfolding stats_for set_stats try_managers copy_through is_ahead
    decrypt_parsed d media_type frame p pool now elapsed capacity =
        let stats = stats_for d media_type in
        let kept : Decryptor S = record d { frame_processors = p ∷ pool } in
        let passed : Option (Decrypted × Decryptor S) = (do
          out ← copy_through frame capacity
          let counted = record stats { passthroughs = stats.passthroughs + 1 }
          some (out, set_stats kept media_type counted)) in
        let rejected : Option (Decrypted × Decryptor S) =
          let counted = record stats { decrypt_failure = stats.decrypt_failure + 1 } in
          some (bad_message, set_stats kept media_type counted) in
        let tried : Option (Decrypted × Decryptor S) = (do
          (bytes, managers, p', attempts) ← try_managers d.managers p now capacity
          let timed : DecryptionStats = record stats {
            decrypt_attempts = stats.decrypt_attempts + attempts;
            decrypt_duration = stats.decrypt_duration + elapsed;
          }
          let after : Decryptor S = record d { managers = managers; frame_processors = p' ∷ pool }
          elim bytes as (λ b. Option (Decrypted × Decryptor S)) [
            | some out ↦
                let counted = record timed { decrypt_success = timed.decrypt_success + 1 } in
                some (decrypted out, set_stats after media_type counted)
            | none ↦
                let counted = record timed { decrypt_failure = timed.decrypt_failure + 1 } in
                some (bad_message, set_stats after media_type counted)
          ]) in
        if p.encrypted
        then tried
        else if is_ahead d.allow_passthrough_until now
        then passed
        else rejected

    unfoldable pub decrypt :
        Decryptor S → MediaType → List ℕ → ℕ → ℕ → ℕ → Option (Decrypted × Decryptor S)
    unfolding is_silence drop_expired decrypt_parsed copy_through get_or_create_frame_processor
    decrypt d media_type frame now elapsed capacity =
        let (p, pool) = get_or_create_frame_processor d.frame_processors in
        let silent : Option (Decrypted × Decryptor S) = (do
          out ← copy_through frame capacity
          some (out, record d { frame_processors = p ∷ pool })) in
        let clean : Decryptor S = record d { managers = drop_expired now d.managers } in
        let parsed : Option (Decrypted × Decryptor S) = (do
          q ← parse_frame p frame
          decrypt_parsed clean media_type frame q pool now elapsed capacity) in
        if is_silence media_type frame then silent else parsed
