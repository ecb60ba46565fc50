-- ===== src/Dave/Encryptor/Audio.antt =====
-- `Encryptor::encrypt` on Opus frames, which are encrypted as a whole.
use ekizu.Prelude.{ℕ, ◌+◌, ◌/◌, ◌%◌, ◌^◌, ◌≤◌, ◌<◌, ◌≡◌, refl, ap, ◌∙◌, arith}
use ekizu.Prelude.{
  List, [], ◌∷◌, ◌++◌, length, length-append, replicate, Option, some, none, false, ◌==◌,
  Bool-cases, inl, inr, some_inj,
}
use ekizu.Dave.Buffer.{u32_bytes}
use ekizu.Dave.Leb128.{write_leb128}
use ekizu.Dave.Leb128.Bounds.{write_short}
use ekizu.Dave.Ranges.Serialize.{encode}
use ekizu.Dave.Ranges.Reconstruct.{merge}
use ekizu.Dave.Outbound.{OutboundFrameProcessor, opus, reset, add_encrypted_bytes}
use ekizu.Dave.Codecs.Simple.{process_frame_opus}
use ekizu.Dave.Codecs.Process.{process_frame, resize}
use ekizu.Dave.Codecs.Process.Sent.{length-resize}
use ekizu.Dave.Inbound.{magic_marker}
use ekizu.Dave.Inbound.RoundTrip.{IsSent, trailer}
use ekizu.Dave.Ciphers.{KeyRatchet}
use ekizu.Dave.Aead.{Gcm, IsGcm}
use ekizu.Dave.Encryptor.{
  Encryptor, written, take_key, choose_cipher, rotate, seal_frame, encrypt_with, encrypt,
  codec_for_ssrc, get_max_ciphertext_byte_size,
}
use ekizu.Dave.Encryptor.Frame.{seal_frame-frame}

-- The processor after an Opus frame.
abbrev pub opus_processed : OutboundFrameProcessor → List ℕ → OutboundFrameProcessor
opus_processed p frame = record {
  frame_codec = opus;
  frame_index = 0 + length frame;
  unencrypted_bytes = [];
  encrypted_bytes = frame;
  ciphertext_bytes = resize p.ciphertext_bytes (length frame);
  unencrypted_ranges = [];
}

process_frame_opus_lem :
    (p : OutboundFrameProcessor) (frame : List ℕ)
    → process_frame p frame opus ≡ some (opus_processed p frame)
unfolding process_frame process_frame_opus add_encrypted_bytes reset
process_frame_opus_lem p frame = refl

module _ {S : Type 0} (keys : KeyRatchet S) where
  abbrev SameFrame : Encryptor S → Option (List ℕ) × Encryptor S → Type 0
  SameFrame e turned =
      (turned.1.frame_processor ≡ e.frame_processor)
      × (turned.1.truncated_nonce ≡ e.truncated_nonce)

  take_key-SameFrame :
      (e : Encryptor S) (generation : ℕ) (key : List ℕ) → SameFrame e (take_key e generation key)
  unfolding take_key
  take_key-SameFrame e generation [] = (refl, refl)
  take_key-SameFrame e generation (b ∷ bs) = (refl, refl)

  choose_cipher-SameFrame :
      (c : Option (List ℕ)) (e : Encryptor S) (generation : ℕ)
      (fresh : Option (List ℕ) × Encryptor S)
      → SameFrame e fresh
      → SameFrame e (choose_cipher c e generation fresh)
  unfolding choose_cipher
  choose_cipher-SameFrame none e generation fresh h = h
  choose_cipher-SameFrame (some c) e generation fresh h =
      elim (Bool-cases (generation == e.current_key_generation)) [
        | inl same ↦ rw same (refl, refl)
        | inr other ↦ rw other h
      ]

  -- Looking for the key changes neither the processor nor the nonce.
  rotate-SameFrame :
      (e : Encryptor S) (s : S) (generation : ℕ) → SameFrame e (rotate keys e s generation)
  unfolding rotate
  rotate-SameFrame e s generation = choose_cipher-SameFrame e.cryptor e generation _ (
      take_key-SameFrame (record e { ratchet = some (keys.get_key s generation).1 }) generation
        (keys.get_key s generation).0)

module _ (c tag : List ℕ) (nonce : ℕ) where
  abbrev pub size : ℕ
  size = 11 + length (write_leb128 nonce)

  length-audio : length tag ≡ 8 → length (c ++ trailer tag nonce [] size) ≡ length c + size
  unfolding encode
  length-audio h = omega (
    arith,
    length-append c (trailer tag nonce [] size),
    length-append tag ((write_leb128 nonce ++ []) ++ (size ∷ magic_marker)),
    length-append (write_leb128 nonce ++ []) (size ∷ magic_marker),
    length-append (write_leb128 nonce) [],
  )

  audio-IsSent :
      length tag ≡ 8 → nonce < 2 ^ 32 → length c + 75 < 2 ^ 64 → IsSent [] [] c tag nonce size
  unfolding encode merge
  audio-IsSent h n small =
      let short = write_short 4 nonce (omega arith) (omega arith) (omega arith) in
      record {
        tag_size = h;
        is_nonce = n;
        are_ranges = tt;
        fits = refl;
        counted = omega arith;
        one_byte = omega arith;
        small = omega (arith, length-audio h);
      }

module _ {S : Type 0} (keys : KeyRatchet S) (gcm : Gcm) (good : IsGcm gcm) where
  -- The state in which the key for the next frame is looked for.
  abbrev pub before_key : Encryptor S → S → List ℕ → Encryptor S
  before_key e s frame = record e {
    passthrough_mode = false;
    ratchet = some s;
    frame_processor = opus_processed e.frame_processor frame;
    truncated_nonce = (e.truncated_nonce + 1) % 2 ^ 32;
  }

  seal_audio :
      (turned : Option (List ℕ) × Encryptor S) (p : OutboundFrameProcessor)
      (frame key c tag : List ℕ) (nonce capacity : ℕ)
      → turned.0 ≡ some key
      → turned.1.frame_processor ≡ opus_processed p frame
      → turned.1.truncated_nonce ≡ nonce
      → gcm.seal key (replicate 8 0 ++ u32_bytes nonce) [] frame ≡ some (c, tag)
      → 0 < length frame
      → length frame + 75 < 2 ^ 64
      → nonce < 2 ^ 32
      → length frame + size c tag nonce ≤ capacity
      → (e' : Encryptor S) × (encrypt_with keys gcm turned capacity
          ≡ some (written (c ++ trailer tag nonce [] (size c tag nonce)), e'))
  unfolding encrypt_with merge
  seal_audio (none, e) p frame key c tag nonce capacity k fp tn sealed some_frame small n room = cc
  seal_audio (some key', e) p frame key c tag nonce capacity k fp tn sealed some_frame small n
        room =
      let processed = opus_processed p frame in
      let set : Encryptor S = record e { frame_processor = processed; truncated_nonce = nonce } in
      let same : e ≡ set =
        ap (λ (f : OutboundFrameProcessor). record e { frame_processor = f }) fp
        ∙ ap (λ (x : ℕ). record e { frame_processor = processed; truncated_nonce = x }) tn in
      let sizes = good.seal_sizes key (replicate 8 0 ++ u32_bytes nonce) [] frame c tag sealed in
      let (e', done) =
        seal_frame-frame keys gcm good set key c tag (size c tag nonce) capacity sealed
          (audio-IsSent c tag nonce sizes.1 n (omega arith))
          (length-resize p.ciphertext_bytes (length frame)) (omega arith) (omega arith) in
      (
        e',
        ap (λ (x : Encryptor S). seal_frame keys gcm x key' capacity) same
            ∙ ap (λ (x : List ℕ). seal_frame keys gcm set x capacity) (some_inj k)
            ∙ done,
      )

  -- An encryptor with a ratchet, out of passthrough mode, encrypts every non-empty Opus frame for
  -- which the ratchet has a key and sealing succeeds, into an output of the size that
  -- `get_max_ciphertext_byte_size` gives: the ciphertext, with the trailer of the next nonce and
  -- without ranges behind it.
  pub encrypt_opus :
      (e : Encryptor S) (s : S) (ssrc : ℕ) (frame key c tag : List ℕ)
      → let nonce = (e.truncated_nonce + 1) % 2 ^ 32 in
        codec_for_ssrc e ssrc ≡ opus
        → (rotate keys (before_key e s frame) s (nonce / 2 ^ 24 % 256)).0 ≡ some key
        → gcm.seal key (replicate 8 0 ++ u32_bytes nonce) [] frame ≡ some (c, tag)
        → 0 < length frame
        → length frame + 75 < 2 ^ 64
        → (e' : Encryptor S) × (encrypt keys gcm
              (record e { passthrough_mode = false; ratchet = some s })
              ssrc
              frame
              (get_max_ciphertext_byte_size e (length frame))
            ≡ some (written (c ++ trailer tag nonce [] (size c tag nonce)), e'))
  unfolding encrypt codec_for_ssrc get_max_ciphertext_byte_size
  encrypt_opus e s ssrc frame key c tag codec k sealed some_frame small =
      let nonce = (e.truncated_nonce + 1) % 2 ^ 32 in
      let turned = rotate keys (before_key e s frame) s (nonce / 2 ^ 24 % 256) in
      let (fp, tn) = rotate-SameFrame keys (before_key e s frame) s (nonce / 2 ^ 24 % 256) in
      let short = write_short 4 nonce (omega arith) (omega arith) (omega arith) in
      let (e', done) =
        seal_audio turned e.frame_processor frame key c tag nonce
          (get_max_ciphertext_byte_size e (length frame)) k fp tn sealed some_frame small
          (omega arith) (omega arith) in
      (e', rw (codec, process_frame_opus_lem e.frame_processor frame) done)
