-- ===== src/Dave/Inbound/Splitting.antt =====
-- Taking the frame in front of the trailer apart stays within the frame, and loses nothing.
use ekizu.Prelude.{ℕ, ◌+◌, ◌-◌, ◌^◌, ◌≤◌, ◌<◌, ◌≡◌, refl, sym, ◌∙◌, arith}
use ekizu.Prelude.{List, [], ◌∷◌, ◌++◌, length, take, drop, some}
use ekizu.Prelude.{length-append, length-take, length-drop}
use ekizu.Prelude.{append_assoc, append-nil, take_append, drop_append, drop-drop, take_add}
use ekizu.Dave.Buffer.{◌>>=◌, subspan}
use ekizu.Dave.Ranges.{Range, max_end}
use ekizu.Dave.Ranges.Validate.{IsChain}
use ekizu.Dave.Ranges.Reconstruct.{Fits, merge}
use ekizu.Dave.Inbound.{Split, split_range, split_ranges, split_tail}

-- The next state of the loop, where the range lies behind the position and in the frame.
abbrev pub after_range : List ℕ → Split → Range → Split
after_range frame s r = record {
  frame_index = r.offset + r.size;
  authenticated = s.authenticated ++ take r.size (drop r.offset frame);
  ciphertext = s.ciphertext ++ take (r.offset - s.frame_index) (drop s.frame_index frame);
}

pub split_range_lem :
    (frame : List ℕ) (s : Split) (r : Range)
    → length frame < 2 ^ 64
    → s.frame_index ≤ r.offset
    → r.offset + r.size ≤ length frame
    → split_range frame s r ≡ some (after_range frame s r)
unfolding split_range subspan
split_range_lem frame s r h1 h2 h3 = ground (arith, append-nil s.ciphertext)

-- The two streams hold the frame's bytes from `i` to `i + k`, at the places the ranges give.
abbrev pub IsSplit : List ℕ → List Range → ℕ → ℕ → List ℕ → List ℕ → Type 0
IsSplit frame rs i k a c =
    Fits rs i (length a) (length c)
    × (length a + length c ≡ k)
    × (i + k ≤ length frame)
    × (merge rs i a c ≡ take k (drop i frame))

module _ (frame : List ℕ) (small : length frame < 2 ^ 64) where
  pieces :
      (r : Range) (i k : ℕ)
      → i ≤ r.offset
      → take (r.offset - i) (drop i frame)
          ++ (take r.size (drop r.offset frame) ++ take k (drop (r.offset + r.size) frame))
        ≡ take (r.offset - i + r.size + k) (drop i frame)
  pieces r i k h =
      let gap = r.offset - i in
      let seam : i + gap ≡ r.offset = omega arith in
      let seam' : i + (gap + r.size) ≡ r.offset + r.size = omega arith in
      sym (
        take_add (gap + r.size) k (drop i frame)
        ∙ rw
            (
              take_add gap r.size (drop i frame),
              drop-drop gap i frame,
              drop-drop (gap + r.size) i frame,
              seam,
              seam',
            )
            (append_assoc (take gap (drop i frame)) (take r.size (drop r.offset frame)) _))

  chain_end :
      (r : Range) (rs : List Range)
      → IsChain (length frame) (r ∷ rs)
      → r.offset + r.size ≤ length frame
  chain_end r [] h = h.0
  chain_end r (q ∷ rs) h = let next = chain_end q rs h.1 in omega arith

  IsSplit-step :
      (r : Range) (rs : List Range) (i k : ℕ) (a c : List ℕ)
      → i ≤ r.offset
      → r.offset + r.size ≤ length frame
      → IsSplit frame rs (r.offset + r.size) k a c
      → IsSplit frame
          (r ∷ rs)
          i
          (r.offset - i + r.size + k)
          (take r.size (drop r.offset frame) ++ a)
          (take (r.offset - i) (drop i frame) ++ c)
  unfolding merge
  IsSplit-step r rs i k a c h1 h2 s =
      let x = take r.size (drop r.offset frame) in
      let y = take (r.offset - i) (drop i frame) in
      let lx : length x ≡ r.size =
        omega (arith, length-take r.size (drop r.offset frame), length-drop r.offset frame) in
      let ly : length y ≡ r.offset - i =
        omega (arith, length-take (r.offset - i) (drop i frame), length-drop i frame) in
      let la = length-append x a in
      let lc = length-append y c in
      let da : drop r.size (x ++ a) ≡ a = drop_append r.size x a (omega arith) in
      let dc : drop (r.offset - i) (y ++ c) ≡ c = drop_append (r.offset - i) y c (omega arith) in
      let fa : length (x ++ a) - r.size ≡ length a = omega arith in
      let fc : length (y ++ c) - (r.offset - i) ≡ length c = omega arith in
      (
        (h1, omega arith, omega arith, rw (fa, fc) s.0),
        omega arith,
        omega arith,
        rw
            (
              da,
              dc,
              take_append r.size x a (omega arith),
              take_append (r.offset - i) y c (omega arith),
              s.3,
            )
            (pieces r i k h1),
      )

  pub split_tail_lem :
      (s : Split) (actual : ℕ)
      → s.frame_index ≤ length frame
      → actual ≤ length frame
      → split_tail frame actual s
        ≡ some (record s {
          ciphertext = s.ciphertext ++ take (actual - s.frame_index) (drop s.frame_index frame);
        })
  unfolding split_tail subspan
  split_tail_lem s actual h1 h2 = ground (arith, append-nil s.ciphertext)

  pub split_ranges_lem :
      (rs : List Range) (s : Split) (actual : ℕ)
      → IsChain (length frame) rs
      → s.frame_index ≤ max_end rs (length frame)
      → actual ≤ length frame
      → (k : ℕ) × (a c : List ℕ) × (last_index : ℕ) × ((split_ranges frame s rs
            >>= split_tail frame actual)
          ≡ some (record {
            frame_index = last_index;
            authenticated = s.authenticated ++ a;
            ciphertext = s.ciphertext ++ c;
          }))
        × IsSplit frame rs s.frame_index k a c
  unfolding split_ranges split_tail merge
  split_ranges_lem [] s actual chain h1 h2 =
      let k = actual - s.frame_index in
      let lk = length-take k (drop s.frame_index frame) in
      let ld = length-drop s.frame_index frame in
      (
        k,
        [],
        take k (drop s.frame_index frame),
        s.frame_index,
        rw (append-nil s.authenticated) (split_tail_lem s actual h1 h2),
        (refl, omega arith, omega arith, refl),
      )
  split_ranges_lem (r ∷ rs) s actual chain h1 h2 =
      let fits : r.offset + r.size ≤ length frame = chain_end r rs chain in
      let (k, a, c, last_index, e, cut) =
        split_ranges_lem rs (after_range frame s r) actual chain.1 chain.0 h2 in
      let x = take r.size (drop r.offset frame) in
      let gap = r.offset - s.frame_index in
      let y = take gap (drop s.frame_index frame) in
      (
        gap + r.size + k,
        x ++ a,
        y ++ c,
        last_index,
        rw
            (
              split_range_lem frame s r small h1 fits,
              ← append_assoc s.authenticated x a,
              ← append_assoc s.ciphertext y c,
            )
            e,
        IsSplit-step r rs s.frame_index k a c h1 fits cut,
      )
