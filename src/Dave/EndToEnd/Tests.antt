-- ===== src/Dave/EndToEnd/Tests.antt =====
-- A frame of three bytes from a sender to a receiver, with a cipher that changes nothing.
use ekizu.Prelude.{
  ◌+◌, ◌≤◌, ◌++◌, ◌%◌, ℕ, ◌/◌, ◌^◌, ◌≡◌, refl, sym, ap, List, [], ◌∷◌, length, some, none, true,
  false, arith, some_inj, pair_inj,
}
use ekizu.Dave.Leb128.{write_leb128}
use ekizu.Dave.Ranges.{Range}
use ekizu.Dave.Ranges.Reconstruct.{merge}
use ekizu.Dave.Ranges.Serialize.{encode}
use ekizu.Dave.Outbound.{opus}
use ekizu.Dave.Outbound.Layout.{Layout}
use ekizu.Dave.Inbound.{InboundFrameProcessor, parse_frame}
use ekizu.Dave.Inbound.RoundTrip.{IsSent, trailer, frame, parsed, parse_frame-sent}
use ekizu.Dave.Ciphers.{
  report_cipher_success, KeyRatchet, CipherManager, created, compute_wrapped_generation,
  can_process_nonce, get_cipher,
}
use ekizu.Dave.Aead.{Gcm, IsGcm, decrypt as open_combined}
use ekizu.Dave.Encryptor.{
  Encryptor, written, seal_frame, encrypt, rotate, codec_for_ssrc, get_max_ciphertext_byte_size,
}
use ekizu.Dave.Encryptor.Audio.{before_key, size, encrypt_opus}
use ekizu.Dave.Decryptor.{Tried, decrypt_impl, new_processor}
use ekizu.Dave.Decryptor.Later.{Call, incoming, expires, call_all, decrypt_impl-once}
use ekizu.Dave.EndToEnd.{received, decrypt_impl-sealed}

abbrev eight : List ℕ
eight = 9 ∷ 9 ∷ 9 ∷ 9 ∷ 9 ∷ 9 ∷ 9 ∷ 9 ∷ []

abbrev plain_gcm : Gcm
plain_gcm = record {
  seal = λ key nonce aad text. some (text, eight);
  open_sealed = λ key nonce aad ciphertext tag. some ciphertext;
}

plain_gcm-IsGcm : IsGcm plain_gcm
plain_gcm-IsGcm = record {
  seal_sizes = λ key nonce aad text ciphertext tag e.
      (ap length (sym (pair_inj (some_inj e)).0), ap length (sym (pair_inj (some_inj e)).1));
  opens = λ key nonce aad text ciphertext tag e. ap some (sym (pair_inj (some_inj e)).0);
}

abbrev keys : KeyRatchet (List ℕ)
keys = record { get_key = λ s g. (g ∷ 7 ∷ [], s); delete_key = λ s g. g ∷ s }

abbrev one_range : List Range
one_range = record { offset = 0; size = 1 } ∷ []

abbrev sender : Encryptor (List ℕ)
sender = record {
  passthrough_mode = false;
  ratchet = some [];
  cryptor = none;
  current_key_generation = 0;
  truncated_nonce = 5;
  ssrc_codec_map = [];
  frame_processor = record {
    frame_codec = opus;
    frame_index = 3;
    unencrypted_bytes = 48 ∷ [];
    encrypted_bytes = 170 ∷ 187 ∷ [];
    ciphertext_bytes = 0 ∷ 0 ∷ [];
    unencrypted_ranges = one_range;
  };
  temp_cipher_output = [];
  current_protocol_version = 1;
}

sample-IsSent : IsSent one_range (48 ∷ []) (170 ∷ 187 ∷ []) eight 5 14
unfolding encode write_leb128 merge
sample-IsSent = record {
  tag_size = refl;
  is_nonce = omega arith;
  are_ranges = ((omega arith, omega arith), tt);
  fits = (omega arith, omega arith, omega arith, refl);
  counted = refl;
  one_byte = omega arith;
  small = omega arith;
}

sample-Layout : Layout sender.frame_processor (48 ∷ 170 ∷ 187 ∷ [])
unfolding merge
sample-Layout = record {
  at_end = refl;
  fits = (omega arith, omega arith, omega arith, refl);
  content = refl;
}

accepted :
    can_process_nonce (created {S = List ℕ} [] 0) (compute_wrapped_generation 0 (5 / 2 ^ 24)) 5
    ≡ true
unfolding can_process_nonce
accepted = refl

has_key :
    (get_cipher keys (created [] 0) 9 (compute_wrapped_generation 0 (5 / 2 ^ 24))).0
    ≡ some (0 ∷ 7 ∷ [])
unfolding get_cipher compute_wrapped_generation
has_key = refl

parse_frame-sent_example :
    parse_frame new_processor
      (frame new_processor one_range (48 ∷ []) (170 ∷ 187 ∷ []) eight 5 14 sample-IsSent)
    ≡ some (parsed new_processor one_range (48 ∷ []) (170 ∷ 187 ∷ []) eight 5 14 sample-IsSent)
parse_frame-sent_example =
    parse_frame-sent new_processor one_range (48 ∷ []) (170 ∷ 187 ∷ []) eight 5 14 sample-IsSent

received_example :
    (wire : List ℕ) × (e' : Encryptor (List ℕ)) × (q : InboundFrameProcessor) × (t : Tried (List ℕ))
    × (seal_frame keys plain_gcm sender (0 ∷ 7 ∷ []) 20 ≡ some (written wire, e'))
    × (parse_frame new_processor wire ≡ some q)
    × (decrypt_impl keys plain_gcm (created [] 0) q 9 3 ≡ some t)
    × (t.bytes ≡ some (48 ∷ 170 ∷ 187 ∷ []))
received_example =
    received keys keys plain_gcm sender (created [] 0) new_processor (48 ∷ 170 ∷ 187 ∷ [])
      (0 ∷ 7 ∷ []) (170 ∷ 187 ∷ []) eight 14 20 9 3 plain_gcm-IsGcm sample-Layout refl (omega arith)
      refl sample-IsSent (omega arith) (omega arith) accepted has_key

abbrev sample_parsed : InboundFrameProcessor
sample_parsed = parsed new_processor one_range (48 ∷ []) (170 ∷ 187 ∷ []) eight 5 14 sample-IsSent

abbrev sample_generation : ℕ
sample_generation = compute_wrapped_generation 0 (5 / 2 ^ 24)

abbrev sample_tried : Tried (List ℕ)
sample_tried = record {
  bytes = some (merge one_range 0 (48 ∷ []) (170 ∷ 187 ∷ []));
  manager =
      report_cipher_success (get_cipher keys (created [] 0) 9 sample_generation).1 9
        sample_generation 5;
  processor = record sample_parsed { plaintext = 170 ∷ 187 ∷ [] };
  attempts = 1;
}

decrypts_once : decrypt_impl keys plain_gcm (created [] 0) sample_parsed 9 3 ≡ some sample_tried
decrypts_once =
    decrypt_impl-sealed keys plain_gcm plain_gcm-IsGcm (created [] 0) new_processor one_range
      (48 ∷ []) (170 ∷ 187 ∷ []) (170 ∷ 187 ∷ []) eight (0 ∷ 7 ∷ []) 5 14 9 3 sample-IsSent
      (omega arith) (omega arith) refl accepted has_key

-- An expiry and a frame with the next nonce in between.
abbrev between : List Call
between = expires 99 ∷ incoming (record sample_parsed { truncated_nonce = 6 }) 10 3 ∷ []

abbrev last_manager : CipherManager (List ℕ)
last_manager =
    report_cipher_success
      (get_cipher keys (record sample_tried.manager { expiry_time = some 99 }) 10
        sample_generation).1
      10 sample_generation 6

between_runs : call_all keys plain_gcm sample_tried.manager between ≡ some last_manager
unfolding call_all decrypt_impl open_combined
between_runs = refl

not_passed :
    last_manager.oldest_generation
    ≤ compute_wrapped_generation 0 (sample_parsed.truncated_nonce / 2 ^ 24)
unfolding report_cipher_success get_cipher compute_wrapped_generation
not_passed = omega arith

decrypt_impl-once_example :
    (t' : Tried (List ℕ)) × (decrypt_impl keys plain_gcm last_manager sample_parsed 12 3 ≡ some t')
    × (t'.bytes ≡ none)
decrypt_impl-once_example =
    decrypt_impl-once keys plain_gcm (created [] 0) last_manager sample_parsed sample_parsed 9 12 3
      3 sample_tried (merge one_range 0 (48 ∷ []) (170 ∷ 187 ∷ [])) between refl (omega arith)
      (omega arith) refl decrypts_once refl between_runs not_passed

sends_opus : codec_for_ssrc sender 77 ≡ opus
unfolding codec_for_ssrc
sends_opus = refl

finds_key :
    (rotate keys
      (before_key keys plain_gcm plain_gcm-IsGcm sender [] (1 ∷ 2 ∷ []))
      []
      ((sender.truncated_nonce + 1) % 2 ^ 32 / 2 ^ 24 % 256)).0
    ≡ some (0 ∷ 7 ∷ [])
unfolding rotate
finds_key = refl

encrypt_opus_example :
    (e' : Encryptor (List ℕ)) × (encrypt keys plain_gcm
        (record sender { passthrough_mode = false; ratchet = some [] })
        77
        (1 ∷ 2 ∷ [])
        (get_max_ciphertext_byte_size sender 2)
      ≡ some (written ((1 ∷ 2 ∷ []) ++ trailer eight 6 [] (size (1 ∷ 2 ∷ []) eight 6)), e'))
encrypt_opus_example =
    encrypt_opus keys plain_gcm plain_gcm-IsGcm sender [] 77 (1 ∷ 2 ∷ []) (0 ∷ 7 ∷ []) (1 ∷ 2 ∷ [])
      eight sends_opus finds_key refl (omega arith) (omega arith)
