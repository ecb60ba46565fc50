-- ===== src/Dave/Codecs/H26x/Units.antt =====
-- Which bytes of a frame src/dave/codec_utils.cpp sends: its NAL units, described by the start codes.
use ekizu.Prelude.{ℕ, ◌+◌, ◌-◌, ◌^◌, ◌≤◌, ◌<◌, ◌≡◌, ◌≢◌, arith, List, [], ◌++◌, length}
use ekizu.Dave.Buffer.{sub_size}
use ekizu.Dave.Outbound.Layout.{Layout}
use ekizu.Dave.Codecs.Nalu.{at}
use ekizu.Dave.Codecs.Nalu.Search.{IsStartCode, NoneBetween}
use ekizu.Dave.Codecs.H26x.Output.{unit_bytes}

-- Where a NAL unit that begins at `start` ends: at the end of the frame, or at the first start code
-- behind, or at the zero that stands before that.
pub data EndsAt (frame : List ℕ) (start : ℕ) : ℕ → Type 0 where
  at_end : NoneBetween frame start (length frame) → EndsAt frame start (length frame)
  at_short :
      (j : ℕ)
      → start ≤ j
      → IsStartCode frame j
      → NoneBetween frame start j
      → (1 ≤ j → at frame (j - 1) ≢ 0)
      → EndsAt frame start j
  at_long :
      (j : ℕ)
      → start ≤ j
      → IsStartCode frame j
      → NoneBetween frame start j
      → 1 ≤ j
      → at frame (j - 1) ≡ 0
      → EndsAt frame start (j - 1)

-- The NAL units behind the start codes from `from` on, each behind a start code of four bytes. A unit
-- of one byte at the end of the frame is not among them.
pub data Units (frame : List ℕ) : ℕ → List ℕ → Type 0 where
  no_more : (from : ℕ) → NoneBetween frame from (length frame) → Units frame from []
  one_byte :
      (from i : ℕ)
      → from ≤ i
      → IsStartCode frame i
      → NoneBetween frame from i
      → i + 4 ≡ length frame
      → Units frame from []
  unit :
      (from i stop : ℕ) (rest : List ℕ)
      → from ≤ i
      → IsStartCode frame i
      → NoneBetween frame from i
      → i + 4 < length frame
      → EndsAt frame (i + 3) stop
      → Units frame (i + 3) rest
      → Units frame from (unit_bytes frame (i + 3) stop ++ rest)

back : (j n r : ℕ) → r + n ≡ j + 3 → j + 3 < 2 ^ 64 → sub_size (j + 3) n ≡ r
back j n r h k = omega (arith, h, k)
