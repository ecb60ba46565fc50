-- ===== src/Dave/Encryptor/Frame.antt =====
-- The frame that `Encryptor::encrypt` writes.
use ekizu.Prelude.{ℕ, ◌+◌, ◌-◌, ◌%◌, ◌≤◌, ◌<◌, ◌≡◌, refl, sym, ap, ◌∙◌, arith}
use ekizu.Prelude.{List, [], ◌∷◌, ◌++◌, length, take, drop, replicate, some}
use ekizu.Prelude.{true, false, ltb, leb, length-append}
use ekizu.Prelude.{append_assoc, append-nil, take_append, take-all, drop-all}
use ekizu.Dave.Buffer.{subspan, copy_at, u32_bytes, subspan_middle}
use ekizu.Dave.Leb128.{write_leb128}
use ekizu.Dave.Ranges.{Range}
use ekizu.Dave.Ranges.Serialize.{encode, serialize-encode}
use ekizu.Dave.Ranges.Reconstruct.{merge, reconstruct-merge}
use ekizu.Dave.Outbound.{OutboundFrameProcessor, reconstruct_frame}
use ekizu.Dave.Outbound.Layout.{length-merge}
use ekizu.Dave.Codecs.Process.{resize}
use ekizu.Dave.Codecs.Process.Sent.{length-resize}
use ekizu.Dave.Inbound.{magic_marker}
use ekizu.Dave.Inbound.RoundTrip.{IsSent, trailer}
use ekizu.Dave.Ciphers.{KeyRatchet}
use ekizu.Dave.Aead.{Gcm, IsGcm, encrypt_lem}
use ekizu.Dave.Encryptor.{
  Encryptor, written, append_within, append_size, append_ranges, append_trailer, finish_frame,
  send_sealed, seal_frame,
}

append_within_lem :
    (capacity : ℕ) (front bytes : List ℕ)
    → length front + length bytes ≤ capacity
    → append_within capacity front bytes ≡ some (front ++ bytes)
unfolding append_within
append_within_lem capacity front bytes h = ground arith

module _ (rs : List Range) (u c tag : List ℕ) (nonce size capacity : ℕ)
    (sent : IsSent rs u c tag nonce size) (room : length u + length c + size ≤ capacity) where
  abbrev body : List ℕ
  body = merge rs 0 u c

  length-body : length body ≡ length u + length c
  length-body = length-merge rs 0 u c sent.fits

  abbrev before_size : List ℕ
  before_size = body ++ tag ++ write_leb128 nonce ++ encode rs

  length-before_size :
      (length before_size ≡ length (body ++ tag ++ write_leb128 nonce) + length (encode rs))
      × (length (body ++ tag ++ write_leb128 nonce)
          ≡ length (body ++ tag) + length (write_leb128 nonce))
      × (length (body ++ tag) ≡ length body + length tag)
  length-before_size = (
    length-append (body ++ tag ++ write_leb128 nonce) (encode rs),
    length-append (body ++ tag) (write_leb128 nonce),
    length-append body tag,
  )

  append_size-frame :
      append_size capacity body before_size ≡ some (before_size ++ (size ∷ []) ++ magic_marker)
  unfolding append_size
  append_size-frame =
      let count : (length before_size - length body + 1 + 2) % 256 ≡ size =
        omega
          (arith, length-before_size, length-body, sent.tag_size, sent.counted, sent.one_byte) in
      let e4 =
        append_within_lem capacity before_size (size ∷ [])
          (omega (arith, length-before_size, length-body, sent.tag_size, sent.counted)) in
      let e5 = append_within_lem capacity (before_size ++ (size ∷ [])) magic_marker (
        omega (
          arith,
          length-append before_size (size ∷ []),
          length-before_size,
          length-body,
          sent.tag_size,
          sent.counted,
        )) in
      rw (count, e4) e5

  regroup : before_size ++ (size ∷ []) ++ magic_marker ≡ body ++ trailer tag nonce rs size
  regroup =
      append_assoc before_size (size ∷ []) magic_marker
      ∙ append_assoc (body ++ tag ++ write_leb128 nonce) (encode rs) (size ∷ magic_marker)
      ∙ append_assoc (body ++ tag) (write_leb128 nonce) (encode rs ++ (size ∷ magic_marker))
      ∙ append_assoc body tag (write_leb128 nonce ++ (encode rs ++ (size ∷ magic_marker)))
      ∙ ap (λ (t : List ℕ). body ++ (tag ++ t))
          (sym (append_assoc (write_leb128 nonce) (encode rs) (size ∷ magic_marker)))

  append_ranges-frame :
      append_ranges capacity body (body ++ tag ++ write_leb128 nonce) rs
      ≡ some (body ++ trailer tag nonce rs size)
  unfolding append_ranges
  append_ranges-frame =
      let f2 = body ++ tag ++ write_leb128 nonce in
      let rb = encode rs in
      let stored =
        serialize-encode rs (capacity - length f2) sent.are_ranges
          (omega (arith, length-before_size, length-body, sent.tag_size, sent.counted)) in
      let all : take (length rb % 256) rb ≡ rb =
        take-all (length rb % 256) rb (omega (arith, sent.counted, sent.one_byte)) in
      let e3 =
        append_within_lem capacity f2 rb
          (omega (arith, length-before_size, length-body, sent.tag_size, sent.counted)) in
      rw (stored, all, e3) (append_size-frame ∙ ap some regroup)

  append_trailer-frame :
      append_trailer capacity body tag nonce rs ≡ some (body ++ trailer tag nonce rs size)
  unfolding append_trailer
  append_trailer-frame =
      let e1 =
        append_within_lem capacity body tag
          (omega (arith, length-body, sent.tag_size, sent.counted)) in
      let e2 =
        append_within_lem capacity (body ++ tag) (write_leb128 nonce)
          (omega (arith, length-before_size, length-body, sent.tag_size, sent.counted)) in
      rw (e1, e2) append_ranges-frame

-- `copy_at` over the whole of a buffer.
pub copy_whole : (dst src : List ℕ) → length src ≡ length dst → copy_at dst 0 src ≡ some src
unfolding copy_at
copy_whole dst src h =
    let fits : leb (0 + length src) (length dst) ≡ true = ground arith in
    let rest : drop (0 + length src) dst ≡ [] = drop-all (0 + length src) dst (omega arith) in
    rw (fits, rest) (ap some (append-nil src))

module _ {S : Type 0} (keys : KeyRatchet S) (gcm : Gcm) (good : IsGcm gcm) (e : Encryptor S) where
  abbrev p : OutboundFrameProcessor
  p = e.frame_processor

  abbrev nonce_buffer : List ℕ
  nonce_buffer = replicate 8 0 ++ u32_bytes e.truncated_nonce

  finish_frame_lem :
      (e' : Encryptor S) (capacity : ℕ) (tag body out : List ℕ)
      → 0 < length body
      → append_trailer capacity body tag e'.truncated_nonce e'.frame_processor.unencrypted_ranges
        ≡ some out
      → finish_frame e' capacity tag body ≡ some (written out, e')
  unfolding finish_frame
  finish_frame_lem e' capacity tag [] out h t = absurd (omega arith)
  finish_frame_lem e' capacity tag (b ∷ bs) out h t = rw t refl

  -- Where the processor's ranges and streams fit each other and sealing succeeds, `seal_frame`
  -- writes the interleaving of the readable bytes and the ciphertext, with the trailer behind it,
  -- into any output that has room for all of it.
  pub seal_frame-frame :
      (key c tag : List ℕ) (size capacity : ℕ)
      → gcm.seal key nonce_buffer p.unencrypted_bytes p.encrypted_bytes ≡ some (c, tag)
      → IsSent p.unencrypted_ranges p.unencrypted_bytes c tag e.truncated_nonce size
      → length p.ciphertext_bytes ≡ length p.encrypted_bytes
      → 0 < length p.unencrypted_bytes + length c
      → length p.unencrypted_bytes + length c + size ≤ capacity
      → (e' : Encryptor S) × (seal_frame keys gcm e key capacity
          ≡ some (
            written (
                merge p.unencrypted_ranges 0 p.unencrypted_bytes c
                ++ trailer tag e.truncated_nonce p.unencrypted_ranges size),
            e',
          ))
  unfolding seal_frame send_sealed reconstruct_frame
  seal_frame-frame key c tag size capacity sealed sent same some_bytes room =
      let n = length p.encrypted_bytes in
      let output = resize e.temp_cipher_output (n + 8) in
      let sizes =
        good.seal_sizes key nonce_buffer p.unencrypted_bytes p.encrypted_bytes c tag sealed in
      let made =
        encrypt_lem gcm good key nonce_buffer p.unencrypted_bytes p.encrypted_bytes c tag sealed in
      let full : drop (length (c ++ tag)) output ≡ [] =
        drop-all (length (c ++ tag)) output
          (omega (arith, length-append c tag, length-resize e.temp_cipher_output (n + 8))) in
      let front : take n (c ++ tag) ≡ c = take_append n c tag (omega arith) in
      let copied = copy_whole p.ciphertext_bytes c (omega arith) in
      let back : subspan (c ++ tag) n 8 ≡ some tag =
        ap (λ (t : List ℕ). subspan (c ++ t) n 8) (sym (append-nil tag))
        ∙ subspan_middle c tag [] n 8 (omega arith) (omega arith) in
      let p' : OutboundFrameProcessor = record p { ciphertext_bytes = c } in
      let e' : Encryptor S = record e { temp_cipher_output = c ++ tag; frame_processor = p' } in
      let body = merge p.unencrypted_ranges 0 p.unencrypted_bytes c in
      let long = length-merge p.unencrypted_ranges 0 p.unencrypted_bytes c sent.fits in
      let enough : ltb capacity (length p.unencrypted_bytes + length c) ≡ false = ground arith in
      let rebuilt =
        reconstruct-merge p.unencrypted_ranges p.unencrypted_bytes c capacity sent.fits
          (omega arith) in
      let trailed =
        append_trailer-frame p.unencrypted_ranges p.unencrypted_bytes c tag e.truncated_nonce size
          capacity sent room in
      let out = body ++ trailer tag e.truncated_nonce p.unencrypted_ranges size in
      (
        e',
        ap (send_sealed e capacity output) made
            ∙ rw (full, append-nil (c ++ tag))
                (rw (front, copied, back, enough, rebuilt)
                  (finish_frame_lem e' capacity tag body out (omega arith) trailed)),
      )
