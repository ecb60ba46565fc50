-- ===== src/Dave/EndToEnd.antt =====
-- From `Encryptor::encrypt` to `Decryptor::decrypt_impl`: the receiver rebuilds what was sent.
mod Tests
use ekizu.Prelude.{
  ℕ, zero, suc, ◌+◌, ◌-◌, ◌*◌, ◌/◌, ◌%◌, ◌^◌, ◌≤◌, ◌<◌, ◌≡◌, refl, sym, ap, ◌∙◌, arith,
}
use ekizu.Prelude.{
  List, [], ◌∷◌, ◌++◌, length, replicate, Option, some, none, true, false, ltb, if◌then◌else◌,
}
use ekizu.Prelude.{length-replicate}
use ekizu.Dave.Buffer.{◌>>=◌, copy_at, u32_bytes}
use ekizu.Dave.Ranges.{Range, do_reconstruct}
use ekizu.Dave.Ranges.Reconstruct.{merge, Fits, reconstruct-merge}
use ekizu.Dave.Outbound.{OutboundFrameProcessor}
use ekizu.Dave.Outbound.Layout.{Layout, length-Layout, length-merge}
use ekizu.Dave.Inbound.{InboundFrameProcessor, parse_frame, reconstruct_frame}
use ekizu.Dave.Inbound.RoundTrip.{IsSent, trailer, frame, parsed, parse_frame-sent}
use ekizu.Dave.Ciphers.{
  KeyRatchet, CipherManager, compute_wrapped_generation, can_process_nonce, get_cipher,
  report_cipher_success,
}
use ekizu.Dave.Aead.{Gcm, IsGcm, decrypt as open_combined, decrypt-encrypt}
use ekizu.Dave.Encryptor.{Encryptor, Encrypted, written, seal_frame}
use ekizu.Dave.Encryptor.Frame.{copy_whole, seal_frame-frame}
use ekizu.Dave.Decryptor.{Tried, decrypt_impl, decrypt_with, deliver_opened, deliver, some_bytes}

module _ {S : Type 0} (keys : KeyRatchet S) (gcm : Gcm) (good : IsGcm gcm) (m : CipherManager S)
    (p : InboundFrameProcessor) (rs : List Range) (u text c tag key : List ℕ)
    (nonce size now capacity : ℕ) (sent : IsSent rs u c tag nonce size)
    (some_sent : 0 < length u + length text) (room : length u + length text ≤ capacity) where
  abbrev nonce_buffer : List ℕ
  nonce_buffer = replicate 8 0 ++ u32_bytes nonce

  abbrev q : InboundFrameProcessor
  q = parsed p rs u c tag nonce size sent

  abbrev generation : ℕ
  generation = compute_wrapped_generation m.oldest_generation (nonce / 2 ^ 24)

  some_bytes_lem : (xs : List ℕ) → 0 < length xs → some_bytes xs ≡ some xs
  unfolding some_bytes
  some_bytes_lem [] h = absurd (omega arith)
  some_bytes_lem (x ∷ xs) h = refl

  rebuilt :
      length c ≡ length text
      → reconstruct_frame (record q { plaintext = text }) capacity ≡ some (merge rs 0 u text)
  unfolding reconstruct_frame
  rebuilt same =
      let fits : Fits rs 0 (length u) (length text) = rw same at sent.fits in
      let enough : ltb capacity (length u + length text) ≡ false = ground arith in
      rw enough (reconstruct-merge rs u text capacity fits room)

  deliver_lem :
      (m' : CipherManager S)
      → length c ≡ length text
      → deliver keys gcm m' q now generation capacity text
        ≡ some (record {
          bytes = some (merge rs 0 u text);
          manager = report_cipher_success m' now generation nonce;
          processor = record q { plaintext = text };
          attempts = 1;
        })
  unfolding deliver
  deliver_lem m' same =
      let fits : Fits rs 0 (length u) (length text) = rw same at sent.fits in
      let whole =
        copy_whole q.plaintext text (omega (arith, length-replicate {A = ℕ} (length c) 0)) in
      let long =
        some_bytes_lem (merge rs 0 u text) (omega (arith, length-merge rs 0 u text fits)) in
      rw (whole, rebuilt same, long) refl

  with_key :
      (m' : CipherManager S)
      → open_combined gcm key (c ++ tag) u nonce_buffer ≡ some text
      → decrypt_with keys gcm m' q now generation capacity (some key)
        ≡ deliver keys gcm m' q now generation capacity text
  unfolding decrypt_with deliver_opened
  with_key m' opened = ap (deliver_opened keys gcm m' q now generation capacity) opened

  -- A manager that accepts the nonce, and has for its generation the key that the frame was sealed
  -- with, opens the parsed frame, reports the nonce and rebuilds the interleaving of the readable
  -- bytes and the text, into any output with room for it.
  pub decrypt_impl-sealed :
      gcm.seal key nonce_buffer u text ≡ some (c, tag)
      → can_process_nonce m generation nonce ≡ true
      → (get_cipher keys m now generation).0 ≡ some key
      → decrypt_impl keys gcm m q now capacity
        ≡ some (record {
          bytes = some (merge rs 0 u text);
          manager = report_cipher_success (get_cipher keys m now generation).1 now generation nonce;
          processor = record q { plaintext = text };
          attempts = 1;
        })
  unfolding decrypt_impl
  decrypt_impl-sealed sealed fresh cipher =
      let same = (good.seal_sizes key nonce_buffer u text c tag sealed).0 in
      rw (fresh, cipher)
        (with_key (get_cipher keys m now generation).1
            (decrypt-encrypt gcm good key nonce_buffer u text c tag sealed)
          ∙ deliver_lem (get_cipher keys m now generation).1 same)

-- A sender whose processor holds a frame `content` in ranges and streams, with at most 255 bytes
-- for the trailer and room for the output, and a receiver that accepts the nonce and has the key:
-- what the sender seals and writes is parsed and opened by the receiver to `content` again.
pub received :
    {S R : Type 0} (sender_keys : KeyRatchet S) (keys : KeyRatchet R) (gcm : Gcm) (e : Encryptor S)
    (m : CipherManager R) (p : InboundFrameProcessor) (content key c tag : List ℕ)
    (size room now capacity : ℕ)
    → IsGcm gcm
    → Layout e.frame_processor content
    → length e.frame_processor.ciphertext_bytes ≡ length e.frame_processor.encrypted_bytes
    → 0 < length content
    → gcm.seal key
        (replicate 8 0 ++ u32_bytes e.truncated_nonce)
        e.frame_processor.unencrypted_bytes
        e.frame_processor.encrypted_bytes
      ≡ some (c, tag)
    → IsSent e.frame_processor.unencrypted_ranges e.frame_processor.unencrypted_bytes c tag
        e.truncated_nonce size
    → length content + size ≤ room
    → length content ≤ capacity
    → can_process_nonce m
        (compute_wrapped_generation m.oldest_generation (e.truncated_nonce / 2 ^ 24))
        e.truncated_nonce
      ≡ true
    → (get_cipher keys m now
        (compute_wrapped_generation m.oldest_generation (e.truncated_nonce / 2 ^ 24))).0
      ≡ some key
    → (wire : List ℕ) × (e' : Encryptor S) × (q : InboundFrameProcessor) × (t : Tried R)
      × (seal_frame sender_keys gcm e key room ≡ some (written wire, e'))
      × (parse_frame p wire ≡ some q)
      × (decrypt_impl keys gcm m q now capacity ≡ some t)
      × (t.bytes ≡ some content)
unfolding frame
received sender_keys keys gcm e m p content key c tag size room now capacity good l same
      some_content sealed sent fits fits_out fresh cipher =
    let f = e.frame_processor in
    let rs = f.unencrypted_ranges in
    let u = f.unencrypted_bytes in
    let text = f.encrypted_bytes in
    let nonce = e.truncated_nonce in
    let sizes = good.seal_sizes key (replicate 8 0 ++ u32_bytes nonce) u text c tag sealed in
    let total : length content ≡ length u + length text =
      omega (arith, l.at_end, length-Layout f content l) in
    let (e', sends) =
      seal_frame-frame sender_keys gcm good e key c tag size room sealed sent same (omega arith)
        (omega arith) in
    let opens =
      decrypt_impl-sealed keys gcm good m p rs u text c tag key nonce size now capacity sent
        (omega arith) (omega arith) sealed fresh cipher in
    (
      merge rs 0 u c ++ trailer tag nonce rs size,
      e',
      parsed p rs u c tag nonce size sent,
      _,
      sends,
      parse_frame-sent p rs u c tag nonce size sent,
      opens,
      ap some l.content,
    )
