-- ===== src/Dave/Ranges/Reconstruct.antt =====
-- `do_reconstruct` against the interleaving that it is meant to compute.
use ekizu.Prelude.{ℕ, ◌+◌, ◌-◌, ◌≤◌, ◌≡◌, refl, sym, ap, ◌∙◌, arith}
use ekizu.Prelude.{List, [], ◌∷◌, ◌++◌, Option, some, length, take, drop, ltb}
use ekizu.Prelude.{length-append, length-take, length-drop, append_assoc, append-nil, drop-drop}
use ekizu.Prelude.{Bool-cases, inl, inr, drop-all, take-all}
use ekizu.Dave.Buffer.{◌>>=◌, >>=_assoc, subspan}
use ekizu.Dave.Ranges.{Range, Cursor, copy_range_bytes, copy_other_bytes, place_range}
use ekizu.Dave.Ranges.{place_ranges, place_tail, do_reconstruct}
use native.Mathlib.Nat.{sub-zero}

-- The frame from position `i` on: the bytes of a range stand at its offset, the others fill the
-- gaps and the end.
unfoldable pub merge : List Range → ℕ → List ℕ → List ℕ → List ℕ
merge [] i clear other = other
merge (r ∷ rs) i clear other =
    take (r.offset - i) other
    ++ (take r.size clear
        ++ merge rs (r.offset + r.size) (drop r.size clear) (drop (r.offset - i) other))

-- The ranges from position `i` on use exactly `clear` range bytes, and have `other` bytes at
-- least for the gaps.
abbrev pub Fits : List Range → ℕ → ℕ → ℕ → Type 0
Fits [] i clear other = clear ≡ 0
Fits (r ∷ rs) i clear other =
    (i ≤ r.offset)
    × (r.offset - i ≤ other)
    × (r.size ≤ clear)
    × Fits rs (r.offset + r.size) (clear - r.size) (other - (r.offset - i))

module _ (u e : List ℕ) (capacity : ℕ) where
  after_range : Cursor → Range → Cursor
  after_range c r =
      let gap = r.offset - length c.written in
      record {
        range_bytes_index = c.range_bytes_index + r.size;
        other_bytes_index = c.other_bytes_index + gap;
        written =
            (c.written ++ take gap (drop c.other_bytes_index e))
            ++ take r.size (drop c.range_bytes_index u);
      }

  length_piece :
      (w x : List ℕ) (i n : ℕ) → i + n ≤ length x → length (w ++ take n (drop i x)) ≡ length w + n
  length_piece w x i n h =
      omega (arith, length-append w (take n (drop i x)), length-take n (drop i x), length-drop i x)

  place_range_lem :
      (c : Cursor) (r : Range)
      → length c.written ≤ r.offset
      → c.other_bytes_index + (r.offset - length c.written) ≤ length e
      → c.range_bytes_index + r.size ≤ length u
      → r.offset + r.size ≤ capacity
      → place_range u e capacity c r ≡ some (after_range c r)
  unfolding place_range copy_range_bytes copy_other_bytes subspan after_range
  place_range_lem c r h1 h2 h3 h4 =
      let gap = r.offset - length c.written in
      ground (arith, length_piece c.written e c.other_bytes_index gap h2, append-nil c.written)

  -- The whole loop, with the tail behind it.
  finish : Cursor → List Range → Option Cursor
  unfolding place_tail place_ranges
  finish c rs = place_ranges u e capacity c rs >>= place_tail u e capacity

  Done : Cursor → List Range → Type 0
  Done c rs =
      (c' : Cursor) × (finish c rs ≡ some c')
      × (c'.written
          ≡ c.written
            ++ merge rs (length c.written) (drop c.range_bytes_index u)
                (drop c.other_bytes_index e))

  finish_tail :
      (c : Cursor)
      → c.other_bytes_index ≤ length e
      → length c.written + (length e - c.other_bytes_index) ≤ capacity
      → Done c []
  unfolding Done finish copy_other_bytes subspan merge
  finish_tail c h1 h2 =
      let n = length e - c.other_bytes_index in
      let tail = drop c.other_bytes_index e in
      elim (Bool-cases (ltb c.other_bytes_index (length e))) [
        | inl some_left ↦ (
          record c { other_bytes_index = c.other_bytes_index + n; written = c.written ++ tail },
          ground (arith, take-all n tail, length-drop c.other_bytes_index e),
          refl,
        )
        | inr none_left ↦ (
          c,
          ground arith,
          rw (drop-all c.other_bytes_index e (ground arith)) (sym (append-nil c.written)),
        )
      ]

  length-after_range :
      (c : Cursor) (r : Range)
      → length c.written ≤ r.offset
      → c.other_bytes_index + (r.offset - length c.written) ≤ length e
      → c.range_bytes_index + r.size ≤ length u
      → length (after_range c r).written ≡ r.offset + r.size
  unfolding after_range
  length-after_range c r h1 h2 h3 =
      let gap = r.offset - length c.written in
      let w = c.written ++ take gap (drop c.other_bytes_index e) in
      omega (
        arith,
        length_piece c.written e c.other_bytes_index gap h2,
        length_piece w u c.range_bytes_index r.size h3,
      )

  finish_step :
      (c c1 : Cursor) (r : Range) (rs : List Range)
      → place_range u e capacity c r ≡ some c1
      → finish c (r ∷ rs) ≡ finish c1 rs
  unfolding finish
  finish_step c c1 r rs h = rw (h, place_ranges)

  after_indices :
      (c : Cursor) (r : Range)
      → ((after_range c r).range_bytes_index ≡ c.range_bytes_index + r.size)
        × ((after_range c r).other_bytes_index
            ≡ c.other_bytes_index + (r.offset - length c.written))
  unfolding after_range
  after_indices c r = (refl, refl)

  Fits-next :
      (c : Cursor) (r : Range) (rs : List Range)
      → length (after_range c r).written ≡ r.offset + r.size
      → Fits
          (r ∷ rs)
          (length c.written)
          (length u - c.range_bytes_index)
          (length e - c.other_bytes_index)
      → Fits rs
          (length (after_range c r).written)
          (length u - (after_range c r).range_bytes_index)
          (length e - (after_range c r).other_bytes_index)
  Fits-next c r rs long f =
      let (ri, oi) = after_indices c r in
      let n1 : length u - (after_range c r).range_bytes_index
          ≡ length u - c.range_bytes_index - r.size =
        omega arith in
      let n2 : length e - (after_range c r).other_bytes_index
          ≡ length e - c.other_bytes_index - (r.offset - length c.written) =
        omega arith in
      rw (long, n1, n2) f.3

  merge_after :
      (c : Cursor) (r : Range) (rs : List Range)
      → length (after_range c r).written ≡ r.offset + r.size
      → (after_range c r).written
          ++ merge rs
              (length (after_range c r).written)
              (drop (after_range c r).range_bytes_index u)
              (drop (after_range c r).other_bytes_index e)
        ≡ c.written
          ++ merge
              (r ∷ rs)
              (length c.written)
              (drop c.range_bytes_index u)
              (drop c.other_bytes_index e)
  unfolding merge after_range
  merge_after c r rs long =
      let gap = r.offset - length c.written in
      let x = take gap (drop c.other_bytes_index e) in
      let y = take r.size (drop c.range_bytes_index u) in
      rw (long, drop-drop r.size c.range_bytes_index u, drop-drop gap c.other_bytes_index e)
        (append_assoc (c.written ++ x) y _ ∙ append_assoc c.written x _)

  Done-step :
      (c : Cursor) (r : Range) (rs : List Range)
      → length c.written ≤ r.offset
      → c.other_bytes_index + (r.offset - length c.written) ≤ length e
      → c.range_bytes_index + r.size ≤ length u
      → r.offset + r.size ≤ capacity
      → Done (after_range c r) rs
      → Done c (r ∷ rs)
  unfolding Done merge
  Done-step c r rs h1 h2 h3 h4 (c', ends, reads) =
      let gap = r.offset - length c.written in
      let long = length-after_range c r h1 h2 h3 in
      (
        c',
        finish_step c (after_range c r) r rs (place_range_lem c r h1 h2 h3 h4) ∙ ends,
        reads ∙ merge_after c r rs long,
      )

  finish-merge :
      (rs : List Range) (c : Cursor)
      → c.range_bytes_index ≤ length u
      → c.other_bytes_index ≤ length e
      → length c.written + (length u - c.range_bytes_index) + (length e - c.other_bytes_index)
        ≤ capacity
      → Fits rs (length c.written) (length u - c.range_bytes_index) (length e - c.other_bytes_index)
      → Done c rs
  finish-merge [] c h1 h2 h3 f = finish_tail c h2 (omega arith)
  finish-merge (r ∷ rs) c h1 h2 h3 f =
      let long = length-after_range c r f.0 (omega arith) (omega arith) in
      let next : Cursor = after_range c r in
      Done-step c r rs f.0 (omega arith) (omega arith) (omega arith) (
        finish-merge rs next (omega (arith, after_indices c r)) (omega (arith, after_indices c r))
          (omega (arith, long, after_indices c r)) (Fits-next c r rs long f))

-- Where the ranges fit the two streams and the output has room, `do_reconstruct` stays within all
-- three buffers and writes the interleaving of the streams.
pub reconstruct-merge :
    (ranges : List Range) (u e : List ℕ) (capacity : ℕ)
    → Fits ranges 0 (length u) (length e)
    → length u + length e ≤ capacity
    → do_reconstruct ranges u e capacity ≡ some (merge ranges 0 u e)
unfolding do_reconstruct finish Done
reconstruct-merge ranges u e capacity f room =
    let start : Cursor = record { range_bytes_index = 0; other_bytes_index = 0; written = [] } in
    let (c', ends, reads) =
      finish-merge u e capacity ranges start (omega arith) (omega arith) (omega arith)
        (simp sub-zero f) in
    sym (
      >>=_assoc (place_ranges u e capacity start ranges) (place_tail u e capacity)
        (λ d. some d.written))
    ∙ rw ends (ap some reads)
