-- ===== src/Dave/Encryptor.antt =====
-- src/dave/encryptor.cpp. Writing outside the output is `none`; errors are values.
pub mod Frame
pub mod Audio
use ekizu.Prelude.{
  ℕ, suc, ◌+◌, ◌-◌, ◌*◌, ◌/◌, ◌%◌, ◌^◌, List, [], ◌∷◌, ◌++◌, length, take, drop, replicate,
}
use ekizu.Prelude.{Option, some, none, Bool, true, false, ltb, leb, ◌==◌, if◌then◌else◌, not}
use ekizu.Dave.Buffer.{◌>>=◌, subspan, copy_at, u32_bytes}
use ekizu.Dave.Leb128.{write_leb128}
use ekizu.Dave.Ranges.{Range, serialize_unencrypted_ranges}
use ekizu.Dave.Outbound.{OutboundFrameProcessor, Codec, opus, reconstruct_frame}
use ekizu.Dave.Codecs.Process.{resize, process_frame}
use ekizu.Dave.Inbound.{magic_marker, supplemental_bytes}
use ekizu.Dave.Ciphers.{KeyRatchet}
use ekizu.Dave.Aead.{Gcm, encrypt as seal}

abbrev pub transform_padding_bytes : ℕ
transform_padding_bytes = 64

pub data DaveError : Type 0 where
  success : DaveError
  frame_too_small invalid_magic_marker invalid_supplemental_bytes invalid_nonce : DaveError
  invalid_unencrypted_ranges : DaveError
  invalid_nal_unit invalid_obu_header unsupported_codec : DaveError
  encryption_failed decryption_failed ratchet_not_ready invalid_generation : DaveError
  replayed_packet : DaveError
  mls_error invalid_welcome invalid_commit invalid_proposal invalid_key_package : DaveError

-- The cryptor is its key.
pub record Encryptor (S : Type 0) : Type 0 where
  pub passthrough_mode : Bool
  pub ratchet : Option S
  pub cryptor : Option (List ℕ)
  pub current_key_generation : ℕ
  pub truncated_nonce : ℕ
  pub ssrc_codec_map : List (ℕ × Codec)
  pub frame_processor : OutboundFrameProcessor
  pub temp_cipher_output : List ℕ
  pub current_protocol_version : ℕ

-- The bytes at the front of the output, or the error.
pub data Encrypted : Type 0 where
  written : List ℕ → Encrypted
  refused : DaveError → Encrypted

-- The first entry that is found counts; assigning puts one in front.
unfoldable pub find_codec : ℕ → List (ℕ × Codec) → Codec
find_codec ssrc [] = opus
find_codec ssrc ((s, codec) ∷ rest) = if s == ssrc then codec else find_codec ssrc rest

-- `front` and more bytes, where the output has room for them.
unfoldable pub append_within : ℕ → List ℕ → List ℕ → Option (List ℕ)
append_within capacity front bytes =
    if leb (length front + length bytes) capacity then some (front ++ bytes) else none

-- The size byte and the marker.
unfoldable pub append_size : ℕ → List ℕ → List ℕ → Option (List ℕ)
unfolding append_within
append_size capacity body with_ranges = do
  let payload = length with_ranges - length body + 1 + 2
  sized ← append_within capacity with_ranges (payload % 256 ∷ [])
  append_within capacity sized magic_marker

-- The ranges, as many as there is room for, and what follows.
unfoldable pub append_ranges : ℕ → List ℕ → List ℕ → List Range → Option (List ℕ)
unfolding append_within append_size
append_ranges capacity body with_nonce ranges =
    let stored = serialize_unencrypted_ranges ranges (capacity - length with_nonce) in
    append_within capacity with_nonce (take stored.1 stored.0) >>= append_size capacity body

-- Everything behind the frame, whose bytes are `body`.
unfoldable pub append_trailer : ℕ → List ℕ → List ℕ → ℕ → List Range → Option (List ℕ)
unfolding append_ranges append_within
append_trailer capacity body tag truncated_nonce ranges = do
  tagged ← append_within capacity body tag
  with_nonce ← append_within capacity tagged (write_leb128 truncated_nonce)
  append_ranges capacity body with_nonce ranges

module _ {S : Type 0} where
  unfoldable pub set_key_ratchet : Encryptor S → S → Encryptor S
  set_key_ratchet e ratchet = record e {
    ratchet = some ratchet;
    cryptor = none;
    current_key_generation = 0;
    truncated_nonce = 0;
  }

  unfoldable pub set_passthrough_mode : Encryptor S → Bool → Encryptor S
  set_passthrough_mode e passthrough_mode = record e {
    passthrough_mode = passthrough_mode;
    current_protocol_version = if passthrough_mode then 0 else 1;
  }

  unfoldable pub has_key_ratchet : Encryptor S → Bool
  has_key_ratchet e = elim e.ratchet [ none ↦ false | some r ↦ true ]

  unfoldable pub assign_ssrc_to_codec : Encryptor S → ℕ → Codec → Encryptor S
  assign_ssrc_to_codec e ssrc codec = record e { ssrc_codec_map = (ssrc, codec) ∷ e.ssrc_codec_map }

  unfoldable pub codec_for_ssrc : Encryptor S → ℕ → Codec
  unfolding find_codec
  codec_for_ssrc e ssrc = find_codec ssrc e.ssrc_codec_map

  unfoldable pub get_max_ciphertext_byte_size : Encryptor S → ℕ → ℕ
  get_max_ciphertext_byte_size e frame_size =
      (frame_size + supplemental_bytes + transform_padding_bytes) % 2 ^ 64

  -- What follows the rebuilding of the frame, which fails where no bytes were written.
  unfoldable pub finish_frame : Encryptor S → ℕ → List ℕ → List ℕ → Option (Encrypted × Encryptor S)
  unfolding append_trailer
  finish_frame e capacity tag [] = some (refused encryption_failed, e)
  finish_frame e capacity tag (b ∷ bs) =
      append_trailer capacity (b ∷ bs) tag e.truncated_nonce e.frame_processor.unencrypted_ranges
      >>= λ out. some (written out, e)

  -- What follows sealing; the output of the cipher has kept its old bytes behind those written.
  unfoldable pub send_sealed :
      Encryptor S → ℕ → List ℕ → Option (List ℕ) → Option (Encrypted × Encryptor S)
  unfolding finish_frame
  send_sealed e capacity output none =
      some (refused encryption_failed, record e { temp_cipher_output = output })
  send_sealed e capacity output (some sealed) = do
    let p = e.frame_processor
    let n = length p.encrypted_bytes
    let temp = sealed ++ drop (length sealed) output
    ciphertext_bytes ← copy_at p.ciphertext_bytes 0 (take n temp)
    tag ← subspan temp n 8
    let p' : OutboundFrameProcessor = record p { ciphertext_bytes = ciphertext_bytes }
    body ← reconstruct_frame p' capacity
    finish_frame (record e { temp_cipher_output = temp; frame_processor = p' }) capacity tag body

  -- A new cipher, made with the key that the ratchet gave, unless that is empty.
  unfoldable pub take_key : Encryptor S → ℕ → List ℕ → Option (List ℕ) × Encryptor S
  take_key e generation [] = (none, e)
  take_key e generation (b ∷ bs) =
      (some (b ∷ bs), record e { cryptor = some (b ∷ bs); current_key_generation = generation })

  -- The cipher in use, where it is of the generation, or the new one.
  unfoldable pub choose_cipher :
      Option (List ℕ)
      → Encryptor S
      → ℕ
      → Option (List ℕ) × Encryptor S
      → Option (List ℕ) × Encryptor S
  choose_cipher none e generation fresh = fresh
  choose_cipher (some c) e generation fresh =
      if generation == e.current_key_generation then (some c, e) else fresh

  module _ (keys : KeyRatchet S) where
    unfoldable pub rotate : Encryptor S → S → ℕ → Option (List ℕ) × Encryptor S
    unfolding take_key choose_cipher
    rotate e ratchet generation =
        let (key, ratchet') = keys.get_key ratchet generation in
        choose_cipher e.cryptor e generation
          (take_key (record e { ratchet = some ratchet' }) generation key)

    module _ (gcm : Gcm) where
      -- From the sealing of the frame on.
      unfoldable pub seal_frame : Encryptor S → List ℕ → ℕ → Option (Encrypted × Encryptor S)
      unfolding send_sealed
      seal_frame e key capacity =
          let p = e.frame_processor in
          let n = length p.encrypted_bytes in
          let nonce_buffer : List ℕ = replicate 8 0 ++ u32_bytes e.truncated_nonce in
          send_sealed e capacity (resize e.temp_cipher_output (n + 8))
            (seal gcm key p.encrypted_bytes p.unencrypted_bytes nonce_buffer (n + 8))

      -- With the cipher of the generation, if the ratchet has one.
      unfoldable pub encrypt_with :
          Option (List ℕ) × Encryptor S → ℕ → Option (Encrypted × Encryptor S)
      unfolding seal_frame
      encrypt_with (none, e) capacity = some (refused invalid_generation, e)
      encrypt_with (some key, e) capacity = seal_frame e key capacity

      unfoldable pub encrypt : Encryptor S → ℕ → List ℕ → ℕ → Option (Encrypted × Encryptor S)
      unfolding encrypt_with rotate codec_for_ssrc
      encrypt e ssrc frame capacity =
          let copied : Option (Encrypted × Encryptor S) =
            if leb (length frame) capacity then some (written frame, e) else none in
          let sealed : S → Option (Encrypted × Encryptor S) = λ ratchet. (do
            p ← process_frame e.frame_processor frame (codec_for_ssrc e ssrc)
            let nonce = (e.truncated_nonce + 1) % 2 ^ 32
            let next : Encryptor S = record e { frame_processor = p; truncated_nonce = nonce }
            encrypt_with (rotate next ratchet (nonce / 2 ^ 24 % 256)) capacity) in
          if e.passthrough_mode
          then copied
          else elim e.ratchet as (λ r. Option (Encrypted × Encryptor S)) [
            | none ↦ some (refused ratchet_not_ready, e)
            | some ratchet ↦ sealed ratchet
          ]
