-- ===== src/Dave/Codecs/H26x.antt =====
-- `process_frame_h264` and `process_frame_h265` of src/dave/codec_utils.cpp. A view outside the
-- frame is `none`.
pub mod Output
pub mod Units
use ekizu.Prelude.{ℕ, zero, suc, ◌+◌, ◌-◌, ◌/◌, bit_and, List, [], ◌∷◌, drop, length}
use ekizu.Prelude.{Option, some, none, Bool, true, false, ◌||◌, ltb, ◌==◌, if◌then◌else◌}
use ekizu.Dave.Buffer.{◌>>=◌, subspan, sub_size}
use ekizu.Dave.Outbound.{OutboundFrameProcessor, add_unencrypted_bytes, add_encrypted_bytes}
use ekizu.Dave.Codecs.Nalu.{at, nalu_long_start_code, nalu_short_start_sequence_size}
use ekizu.Dave.Codecs.Nalu.{next_h26x_nalu_index, bytes_covering_h264_pps}

-- What one NAL unit from `start` up to `stop` adds to the processor.
abbrev pub Unit26x : Type 0
Unit26x = List ℕ → OutboundFrameProcessor → ℕ → ℕ → Option OutboundFrameProcessor

-- A slice, or a slice of an IDR picture.
abbrev pub is_slice : ℕ → Bool
is_slice header = bit_and header 0x1f == 1 || bit_and header 0x1f == 5

-- A long start code, `n` readable bytes from `start` and `m` encrypted ones from `body_start`.
pub add_slice : List ℕ → OutboundFrameProcessor → ℕ → ℕ → ℕ → ℕ → Option OutboundFrameProcessor
add_slice frame p start n body_start m = do
  let coded = add_unencrypted_bytes p nalu_long_start_code
  head ← subspan frame start n
  body ← subspan frame body_start m
  some (add_encrypted_bytes (add_unencrypted_bytes coded head) body)

-- A long start code and `n` readable bytes from `start`.
pub add_whole : List ℕ → OutboundFrameProcessor → ℕ → ℕ → Option OutboundFrameProcessor
add_whole frame p start n = do
  let coded = add_unencrypted_bytes p nalu_long_start_code
  bytes ← subspan frame start n
  some (add_unencrypted_bytes coded bytes)

pub h264_unit : Unit26x
unfolding add_slice add_whole
h264_unit frame p start stop =
    let pps = bytes_covering_h264_pps (drop (start + 1) frame) in
    if is_slice (at frame start)
    then add_slice frame p start (1 + pps) (start + 1 + pps)
        (sub_size (sub_size (sub_size stop start) 1) pps)
    else add_whole frame p start (sub_size stop start)

pub h265_unit : Unit26x
unfolding add_slice add_whole
h265_unit frame p start stop =
    if ltb (bit_and (at frame start) 0x7e / 2) 32
    then add_slice frame p start 2 (start + 2) (sub_size (sub_size stop start) 2)
    else add_whole frame p start (sub_size stop start)

-- Where the unit in front of the start code found next ends.
unfoldable pub next_nalu_start : List ℕ → Option (ℕ × ℕ) → ℕ
next_nalu_start frame none = length frame
next_nalu_start frame (some (index, size)) = sub_size index size

-- The loop that both functions have, with the start code found last. A later start code stands
-- further on, so as many rounds as the frame has bytes reach the end.
pub each_unit :
    Unit26x → ℕ → List ℕ → Option (ℕ × ℕ) → OutboundFrameProcessor → Option OutboundFrameProcessor
each_unit unit zero frame index p = some p
each_unit unit (suc fuel) frame none p = some p
each_unit unit (suc fuel) frame (some (start, size)) p =
    let next = next_h26x_nalu_index frame start in
    let more : Option OutboundFrameProcessor =
      unit frame p start (next_nalu_start frame next) >>= each_unit unit fuel frame next in
    if ltb start (length frame - 1) then more else some p

-- Whether the frame was processed, and the processor.
pub process_units :
    Unit26x → ℕ → OutboundFrameProcessor → List ℕ → Option (Bool × OutboundFrameProcessor)
unfolding each_unit
process_units unit nal_unit_header_size p frame =
    if ltb (length frame) (nalu_short_start_sequence_size + nal_unit_header_size)
    then some (false, p)
    else (each_unit unit (length frame) frame (next_h26x_nalu_index frame 0) p >>= λ q.
        some (true, q))

unfoldable pub process_frame_h264 :
    OutboundFrameProcessor → List ℕ → Option (Bool × OutboundFrameProcessor)
unfolding process_units h264_unit
process_frame_h264 = process_units h264_unit 1

unfoldable pub process_frame_h265 :
    OutboundFrameProcessor → List ℕ → Option (Bool × OutboundFrameProcessor)
unfolding process_units h265_unit
process_frame_h265 = process_units h265_unit 2
