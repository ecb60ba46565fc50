-- ===== src/Dave/Codecs/Simple.antt =====
-- `process_frame_opus`, `process_frame_vp8` and `process_frame_vp9` of src/dave/codec_utils.cpp.
use ekizu.Prelude.{ℕ, bit_and, List, length, get_or, Option, some, Bool, true, ◌==◌, if◌then◌else◌}
use ekizu.Dave.Buffer.{◌>>=◌, subspan, sub_size}
use ekizu.Dave.Outbound.{OutboundFrameProcessor, add_unencrypted_bytes, add_encrypted_bytes}

unfoldable pub process_frame_opus : OutboundFrameProcessor → List ℕ → Bool × OutboundFrameProcessor
process_frame_opus p frame = (true, add_encrypted_bytes p frame)

unfoldable pub process_frame_vp9 : OutboundFrameProcessor → List ℕ → Bool × OutboundFrameProcessor
process_frame_vp9 p frame = (true, add_encrypted_bytes p frame)

-- A key frame has an even first byte. Reading the first byte of an empty frame is undefined.
unfoldable pub process_frame_vp8 :
    OutboundFrameProcessor → List ℕ → Option (Bool × OutboundFrameProcessor)
unfolding subspan
process_frame_vp8 p frame = do
  first ← subspan frame 0 1
  let header = if bit_and (get_or first 0 0) 0x01 == 0 then 10 else 1
  head ← subspan frame 0 header
  body ← subspan frame header (sub_size (length frame) header)
  some (true, add_encrypted_bytes (add_unencrypted_bytes p head) body)
