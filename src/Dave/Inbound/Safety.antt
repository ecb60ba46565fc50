-- ===== src/Dave/Inbound/Safety.antt =====
-- Parsing and rebuilding stay within their buffers, whatever the frame.
use ekizu.Prelude.{get_or, ℕ, zero, suc, ◌+◌, ◌-◌, ◌%◌, ◌^◌, ◌≤◌, ◌<◌, ◌≡◌, refl, arith}
use ekizu.Prelude.{List, [], ◌∷◌, length, take, drop, replicate, Option, some, none, All}
use ekizu.Prelude.{true, false, ltb, length-drop}
use ekizu.Prelude.{length-replicate}
use ekizu.Prelude.{◌⊎◌, Bool-cases, inl, inr}
use ekizu.Dave.Buffer.{ends_with, subspan, last, sub_size}
use ekizu.Dave.Ranges.{
  Range, validate_unencrypted_ranges, deserialize_unencrypted_ranges, Outcome, read_all, failed,
  stuck,
}
use ekizu.Dave.Ranges.Validate.{IsWord, validate-IsChain}
use ekizu.Dave.Ranges.Serialize.{IsRange, All-take, Settled, deserialize-Settled}
use ekizu.Dave.Ranges.Reconstruct.{Fits, merge, reconstruct-merge}
use ekizu.Dave.Leb128.{IsByte, read_leb128}
use ekizu.Dave.Leb128.Reads.{read_shortens}
use ekizu.Dave.Inbound.{InboundFrameProcessor, Split}
use ekizu.Dave.Inbound.{
  split_frame, parse_frame, reconstruct_frame, accept_ranges, accept_outcome, accept_nonce,
  accept_supplemental, clear, supplemental_bytes, magic_marker,
}
use ekizu.Dave.Inbound.Splitting.{IsSplit, split_ranges_lem}

-- What parsing leaves behind: a frame that is not taken for encrypted, or one that is cut up.
abbrev pub IsParsed : List ℕ → InboundFrameProcessor → Type 0
IsParsed frame q =
    (q.encrypted ≡ false)
    ⊎ ((k : ℕ) × IsSplit frame q.unencrypted_ranges 0 k q.authenticated q.ciphertext
        × (length q.plaintext ≡ length q.ciphertext))

abbrev Parses : List ℕ → Option InboundFrameProcessor → Type 0
Parses frame o = (q : InboundFrameProcessor) × (o ≡ some q) × IsParsed frame q

pub words : (rs : List Range) → All IsRange rs → All IsWord rs
words [] h = tt
words (r ∷ rs) h = ((omega arith, omega arith), words rs h.1)

All-drop {ℓ κ} : {A : Type ℓ} (P : A → Type κ) (k : ℕ) (xs : List A) → All P xs → All P (drop k xs)
All-drop P zero xs h = h
All-drop P (suc k) [] h = tt
All-drop P (suc k) (x ∷ xs) h = All-drop P k xs h.1

module _ (frame : List ℕ) (small : length frame < 2 ^ 64) where
  refused : (q : InboundFrameProcessor) → q.encrypted ≡ false → Parses frame (some q)
  refused q h = (q, refl, inl h)

  accept_ranges-Parses :
      (p : InboundFrameProcessor) (bytes_size : ℕ) (rs : List Range)
      → p.encrypted ≡ false
      → bytes_size ≤ length frame
      → All IsWord rs
      → Parses frame (accept_ranges p frame bytes_size rs)
  unfolding accept_ranges split_frame
  accept_ranges-Parses p bytes_size rs h hb w =
      elim (Bool-cases (validate_unencrypted_ranges rs (length frame))) [
        | inr e ↦ rw e (refused (record p { unencrypted_ranges = rs }) h)
        | inl e ↦
            let start : Split = record { frame_index = 0; authenticated = []; ciphertext = [] } in
            let actual = sub_size (length frame) bytes_size in
            let chain = (validate-IsChain rs (length frame) w (omega arith)).0 e in
            let (k, a, c, last_index, ends, cut) =
              split_ranges_lem frame small rs start actual chain (omega arith) (omega arith) in
            (
              record p {
                unencrypted_ranges = rs;
                original_size = length frame;
                authenticated = a;
                ciphertext = c;
                plaintext = replicate (length c) 0;
                encrypted = true;
              },
              rw (e, ends) refl,
              inr (k, cut, length-replicate (length c) 0),
            )
      ]

  accept_outcome-Parses :
      (p : InboundFrameProcessor) (bytes_size : ℕ) (o : Outcome)
      → p.encrypted ≡ false
      → bytes_size ≤ length frame
      → Settled o
      → Parses frame (accept_outcome p frame bytes_size o)
  unfolding accept_outcome
  accept_outcome-Parses p bytes_size (read_all rs) h hb w =
      accept_ranges-Parses p bytes_size rs h hb (words rs w)
  accept_outcome-Parses p bytes_size failed h hb w = refused p h
  accept_outcome-Parses p bytes_size stuck h hb w = absurd w

  accept_nonce-Parses :
      (p : InboundFrameProcessor) (bytes_size : ℕ) (o : Option (ℕ × List ℕ))
      → p.encrypted ≡ false
      → bytes_size ≤ length frame
      → ((v : ℕ) (rest : List ℕ) → o ≡ some (v, rest) → All IsByte rest)
      → Parses frame (accept_nonce p frame bytes_size o)
  unfolding accept_nonce
  accept_nonce-Parses p bytes_size none h hb w = refused (record p { truncated_nonce = 0 }) h
  accept_nonce-Parses p bytes_size (some (nonce, rest)) h hb w =
      let bytes = take (length rest % 256) rest in
      accept_outcome-Parses (record p { truncated_nonce = nonce % 2 ^ 32 }) bytes_size
        (deserialize_unencrypted_ranges bytes []) h hb
        (deserialize-Settled bytes (All-take IsByte (length rest % 256) rest (w nonce rest refl)))

  accept_supplemental-Parses :
      (p : InboundFrameProcessor) (bytes_size : ℕ)
      → All IsByte frame
      → p.encrypted ≡ false
      → bytes_size ≤ length frame
      → supplemental_bytes ≤ bytes_size
      → Parses frame (accept_supplemental p frame bytes_size)
  unfolding accept_supplemental last subspan
  accept_supplemental-Parses p bytes_size bytes h hb hs =
      let sup = drop (length frame - bytes_size) frame in
      let n = sub_size (sub_size (sub_size bytes_size 8) 1) 2 in
      let ls = length-drop (length frame - bytes_size) frame in
      let e1 : last frame bytes_size ≡ some sup = ground arith in
      let e2 : subspan sup 0 8 ≡ some (take 8 sup) = ground arith in
      let e3 : subspan sup 8 n ≡ some (take n (drop 8 sup)) = ground arith in
      let inner =
        All-take IsByte n (drop 8 sup)
          (All-drop IsByte 8 sup (All-drop IsByte (length frame - bytes_size) frame bytes)) in
      rw (e1, e2, e3)
        (accept_nonce-Parses (record p { tag = take 8 sup }) bytes_size
          (read_leb128 (take n (drop 8 sup))) h hb
          (λ v rest e. (read_shortens (take n (drop 8 sup)) v rest inner e).1))

  -- Whatever the bytes of a frame shorter than 2^64, parsing ends without reading outside it. The
  -- frame is not taken for encrypted, or the ranges fit the authenticated bytes and the
  -- ciphertext, the two are no longer than the frame together, their interleaving is a front part
  -- of the frame, and the plaintext buffer is as long as the ciphertext.
  pub parse_frame-IsParsed :
      (p : InboundFrameProcessor)
      → All IsByte frame
      → (q : InboundFrameProcessor) × (parse_frame p frame ≡ some q) × IsParsed frame q
  unfolding parse_frame last
  parse_frame-IsParsed p bytes = elim (Bool-cases (ltb (length frame) supplemental_bytes)) [
    | inl e ↦ rw e (refused (clear p) refl)
    | inr e ↦ elim (Bool-cases (ends_with frame magic_marker)) [
      | inr e' ↦ rw (e, e') (refused (clear p) refl)
      | inl e' ↦
          let n = get_or (drop (length frame - 3) frame) 0 0 in
          let e3 : last frame 3 ≡ some (drop (length frame - 3) frame) = ground arith in
          elim (Bool-cases (ltb (length frame) n)) [
            | inl f ↦ rw (e, e', e3, f) (refused (clear p) refl)
            | inr f ↦ elim (Bool-cases (ltb n supplemental_bytes)) [
              | inl g ↦ rw (e, e', e3, f, g) (refused (clear p) refl)
              | inr g ↦
                  rw (e, e', e3, f, g)
                    (accept_supplemental-Parses (clear p) n bytes refl (ground arith)
                      (ground arith))
            ]
          ]
    ]
  ]

  -- A processor that parsing may leave behind, with any plaintext of that length, and that counts
  -- as encrypted, rebuilds within its buffers the interleaving of the authenticated bytes and the
  -- plaintext, into any output that has room for the frame.
  pub reconstruct_frame-merge :
      (q : InboundFrameProcessor) (capacity : ℕ)
      → IsParsed frame q
      → q.encrypted ≡ true
      → length frame ≤ capacity
      → reconstruct_frame q capacity
        ≡ some (merge q.unencrypted_ranges 0 q.authenticated q.plaintext)
  unfolding reconstruct_frame
  reconstruct_frame-merge q capacity (inl clear_frame) e room = cc
  reconstruct_frame-merge q capacity (inr (k, (fits, sum, within, _), same)) e room =
      let fits' : Fits q.unencrypted_ranges 0 (length q.authenticated) (length q.plaintext) =
        rw same fits in
      let fine : ltb capacity (length q.authenticated + length q.plaintext) ≡ false =
        ground arith in
      rw (e, fine)
        (reconstruct-merge q.unencrypted_ranges q.authenticated q.plaintext capacity fits'
          (omega arith))
