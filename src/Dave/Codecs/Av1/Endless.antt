-- ===== src/Dave/Codecs/Av1/Endless.antt =====
-- Frames on which the loop of `process_frame_av1` never ends, and the frames on which it does.
use ekizu.Prelude.{ℕ, zero, suc, ◌+◌, ◌-◌, ◌^◌, ◌<◌, ◌≡◌, refl, arith}
use ekizu.Prelude.{List, ◌∷◌, ◌++◌, length, some, true, false}
use ekizu.Prelude.{length-append}
use ekizu.Dave.Leb128.{write_leb128}
use ekizu.Dave.Leb128.RoundTrip.{read-write}
use ekizu.Dave.Outbound.{OutboundFrameProcessor}
use ekizu.Dave.Codecs.Av1.{Obu, running, read_obu, obu_of, is_kept}
use ekizu.Dave.Codecs.Av1.{each_obu}

-- A padding OBU whose size takes the sum behind it back to 0: its header and the encoding of its
-- size are 11 bytes, and the size is 2 ^ 64 - 11.
pub wrapping_obu : List ℕ
wrapping_obu = 0x7a ∷ write_leb128 (2 ^ 64 - 11)

size_length : length (write_leb128 (2 ^ 64 - 11)) ≡ 10
unfolding write_leb128
size_length = refl

read_wrapping :
    (rest : List ℕ)
    → (o : Obu) × (read_obu (wrapping_obu ++ rest) 0 ≡ some o) × (o.next ≡ 0) × (is_kept o ≡ false)
unfolding wrapping_obu read_obu obu_of
read_wrapping rest =
    let size : List ℕ = write_leb128 (2 ^ 64 - 11) in
    let long : length (size ++ rest) ≡ 10 + length rest =
      omega (arith, length-append size rest, size_length) in
    (
      record {
        header_index = 0;
        header = 0x7a;
        has_extension = false;
        has_size = true;
        payload_index = 11;
        payload_size = 2 ^ 64 - 11;
        next = 0;
      },
      ground (arith, long, read-write (2 ^ 64 - 11) rest (omega arith)),
      refl,
      refl,
    )

-- On every frame that begins with such an OBU the loop is at the frame's start again after each
-- round: it has not ended after any number of rounds.
pub each_obu_endless :
    (rounds : ℕ) (rest : List ℕ) (p : OutboundFrameProcessor)
    → each_obu rounds (wrapping_obu ++ rest) 0 p ≡ running
unfolding each_obu
each_obu_endless zero rest p = unfold wrapping_obu in ground arith
each_obu_endless (suc rounds) rest p =
    let (o, read, back, dropped) = read_wrapping rest in
    let ih = each_obu_endless rounds rest p in ground (arith, read, back, dropped, ih, starts)
  where
    starts : 0 < length (wrapping_obu ++ rest)
    starts = unfold wrapping_obu in omega arith
