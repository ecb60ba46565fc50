-- ===== src/Dave/Inbound/RoundTrip.antt =====
-- Parsing a frame that is laid out the way `Encryptor::encrypt` does.
use ekizu.Prelude.{ℕ, ◌+◌, ◌%◌, ◌^◌, ◌<◌, ◌≡◌, refl, sym, ap, ◌∙◌, arith}
use ekizu.Prelude.{List, [], ◌∷◌, ◌++◌, length, take, replicate, some, All}
use ekizu.Prelude.{true, false, ltb, length-append}
use ekizu.Prelude.{append_assoc, take-all}
use ekizu.Dave.Buffer.{
  subspan, last, ends_with, sub_size, ends_with-append, last-append, subspan_middle,
}
use ekizu.Dave.Leb128.{write_leb128, read_leb128}
use ekizu.Dave.Leb128.RoundTrip.{read-write}
use ekizu.Dave.Ranges.{Range, validate_unencrypted_ranges}
use ekizu.Dave.Ranges.Validate.{validate-IsChain}
use ekizu.Dave.Ranges.Serialize.{IsRange, encode, deserialize-encode}
use ekizu.Dave.Ranges.Reconstruct.{Fits, merge}
use ekizu.Dave.Outbound.Layout.{length-merge}
use ekizu.Dave.Inbound.{InboundFrameProcessor}
use ekizu.Dave.Inbound.{
  accept_ranges, accept_outcome, accept_nonce, accept_supplemental, parse_frame, clear,
  magic_marker,
}
use ekizu.Dave.Inbound.Safety.{words}
use ekizu.Dave.Inbound.Streams.{Fits-IsChain, split_frame-merge}

-- What `Encryptor::encrypt` puts behind the frame: the tag, the nonce, the ranges, the number of
-- these bytes and the marker.
abbrev pub trailer : List ℕ → ℕ → List Range → ℕ → List ℕ
trailer tag nonce ranges size =
    tag ++ ((write_leb128 nonce ++ encode ranges) ++ (size ∷ magic_marker))

pub record IsSent (rs : List Range) (u e tag : List ℕ) (nonce size : ℕ) : Type 0 where
  pub tag_size : length tag ≡ 8
  pub is_nonce : nonce < 2 ^ 32
  pub are_ranges : All IsRange rs
  pub fits : Fits rs 0 (length u) (length e)
  pub counted : size ≡ 8 + (length (write_leb128 nonce) + length (encode rs)) + 3
  pub one_byte : size < 256
  pub small : length (merge rs 0 u e ++ trailer tag nonce rs size) < 2 ^ 64

module _ (p : InboundFrameProcessor) (rs : List Range) (u e tag : List ℕ) (nonce size : ℕ)
    (sent : IsSent rs u e tag nonce size) where
  unfoldable pub frame : List ℕ
  frame = merge rs 0 u e ++ trailer tag nonce rs size

  abbrev pub parsed : InboundFrameProcessor
  parsed = record {
    encrypted = true;
    original_size = length frame;
    tag = tag;
    truncated_nonce = nonce;
    unencrypted_ranges = rs;
    authenticated = u;
    ciphertext = e;
    plaintext = replicate (length e) 0;
  }

  length-frame : length frame ≡ length u + length e + size
  unfolding frame
  length-frame = omega (
    arith,
    sent.tag_size,
    sent.counted,
    length-merge rs 0 u e sent.fits,
    length-append (merge rs 0 u e) (trailer tag nonce rs size),
    length-append tag ((write_leb128 nonce ++ encode rs) ++ (size ∷ magic_marker)),
    length-append (write_leb128 nonce ++ encode rs) (size ∷ magic_marker),
    length-append (write_leb128 nonce) (encode rs),
  )

  abbrev middle : List ℕ
  middle = write_leb128 nonce ++ encode rs

  -- The views that parsing takes.
  frame-ends_with : ends_with frame magic_marker ≡ true
  unfolding frame
  frame-ends_with =
      ap (λ (t : List ℕ). ends_with t magic_marker) regroup
      ∙ ends_with-append (merge rs 0 u e ++ (tag ++ (middle ++ (size ∷ [])))) magic_marker
    where
      regroup : frame ≡ (merge rs 0 u e ++ (tag ++ (middle ++ (size ∷ [])))) ++ magic_marker
      regroup = sym (
          append_assoc (merge rs 0 u e) (tag ++ (middle ++ (size ∷ []))) magic_marker
          ∙ ap (λ (t : List ℕ). merge rs 0 u e ++ t)
              (append_assoc tag (middle ++ (size ∷ [])) magic_marker
                ∙ ap (λ (t : List ℕ). tag ++ t) (append_assoc middle (size ∷ []) magic_marker)))

  frame-last3 : last frame 3 ≡ some (size ∷ magic_marker)
  unfolding frame
  frame-last3 =
      ap (λ (t : List ℕ). last t 3) regroup
      ∙ last-append (merge rs 0 u e ++ (tag ++ middle)) (size ∷ magic_marker) 3 refl
    where
      regroup : frame ≡ (merge rs 0 u e ++ (tag ++ middle)) ++ (size ∷ magic_marker)
      regroup = sym (
          append_assoc (merge rs 0 u e) (tag ++ middle) (size ∷ magic_marker)
          ∙ ap (λ (t : List ℕ). merge rs 0 u e ++ t)
              (append_assoc tag middle (size ∷ magic_marker)))

  length-trailer : length (trailer tag nonce rs size) ≡ size
  length-trailer = omega (
    arith,
    sent.tag_size,
    sent.counted,
    length-append tag (middle ++ (size ∷ magic_marker)),
    length-append middle (size ∷ magic_marker),
    length-append (write_leb128 nonce) (encode rs),
  )

  frame-last : last frame size ≡ some (trailer tag nonce rs size)
  unfolding frame
  frame-last = last-append (merge rs 0 u e) (trailer tag nonce rs size) size (sym length-trailer)

  trailer-tag : subspan (trailer tag nonce rs size) 0 8 ≡ some tag
  trailer-tag = subspan_middle [] tag (middle ++ (size ∷ magic_marker)) 0 8 refl (sym sent.tag_size)

  trailer-middle :
      subspan (trailer tag nonce rs size) 8 (sub_size (sub_size (sub_size size 8) 1) 2)
      ≡ some middle
  trailer-middle =
      subspan_middle tag middle (size ∷ magic_marker) 8 _ (sym sent.tag_size)
        (omega (arith, sent.counted, sent.one_byte, length-append (write_leb128 nonce) (encode rs)))

  ranges-valid : validate_unencrypted_ranges rs (length frame) ≡ true
  ranges-valid =
      (validate-IsChain rs (length frame) (words rs sent.are_ranges)
          (omega (arith, length-frame, small_frame))).1
        (Fits-IsChain rs 0 (length u) (length e) (length frame) sent.fits
          (omega (arith, length-frame))).0
    where
      small_frame : length frame < 2 ^ 64
      small_frame = unfold frame in sent.small

  accept_ranges-frame :
      accept_ranges (record (clear p) { tag = tag; truncated_nonce = nonce }) frame size rs
      ≡ some parsed
  unfolding accept_ranges frame clear
  accept_ranges-frame =
      let (last_index, ends) =
        split_frame-merge rs u e (trailer tag nonce rs size) sent.small sent.fits in
      let actual : sub_size (length frame) size ≡ length u + length e =
        omega (arith, length-frame, sent.small) in
      rw (ranges-valid, actual, ends) refl

  accept_nonce-frame :
      accept_nonce (record (clear p) { tag = tag }) frame size (read_leb128 middle) ≡ some parsed
  unfolding accept_nonce accept_outcome clear
  accept_nonce-frame =
      let read = read-write nonce (encode rs) (omega (arith, sent.is_nonce)) in
      let same : nonce % 2 ^ 32 ≡ nonce = omega (arith, sent.is_nonce) in
      let all : take (length (encode rs) % 256) (encode rs) ≡ encode rs =
        take-all (length (encode rs) % 256) (encode rs)
          (omega (arith, sent.counted, sent.one_byte)) in
      rw (read, same, all, deserialize-encode rs sent.are_ranges) accept_ranges-frame

  -- A frame that is laid out as `Encryptor::encrypt` does, with a tag of eight bytes, a uint32
  -- nonce, ranges that fit the two streams, and no more than 255 bytes behind the frame, is taken
  -- for encrypted, and parsing gives back the tag, the nonce, the ranges and the two streams.
  pub parse_frame-sent : parse_frame p frame ≡ some parsed
  unfolding parse_frame accept_supplemental
  parse_frame-sent =
      let long : ltb (length frame) 11 ≡ false = ground (arith, length-frame, sent.counted) in
      let room : ltb (length frame) size ≡ false = ground (arith, length-frame) in
      let enough : ltb size 11 ≡ false = ground (arith, sent.counted) in
      rw (long, frame-ends_with, frame-last3, room, enough, frame-last, trailer-tag, trailer-middle)
        accept_nonce-frame
