-- ===== src/Dave/Codecs/Process.antt =====
-- `OutboundFrameProcessor::process_frame` of src/dave/frame_processors.cpp.
pub mod Sent
use ekizu.Prelude.{ℕ, ◌-◌, List, [], ◌++◌, length, take, replicate, Option, some, none}
use ekizu.Prelude.{Bool, true, false, if◌then◌else◌}
use ekizu.Dave.Buffer.{◌>>=◌}
use ekizu.Dave.Outbound.{OutboundFrameProcessor, Codec, unknown, opus, vp8, vp9, h264, h265, av1}
use ekizu.Dave.Outbound.{reset, add_encrypted_bytes}
use ekizu.Dave.Codecs.Simple.{process_frame_opus, process_frame_vp8, process_frame_vp9}
use ekizu.Dave.Codecs.H26x.{process_frame_h264, process_frame_h265}
use ekizu.Dave.Codecs.Av1.{Attempt, ended, undefined, running, process_frame_av1}

-- `none` where the loop does not end or leaves the frame.
abbrev pub result_of : Attempt → Option (Bool × OutboundFrameProcessor)
result_of (ended done p) = some (done, p)
result_of undefined = none
result_of running = none

-- `resize` keeps the front and fills up with zeros.
unfoldable pub resize : List ℕ → ℕ → List ℕ
resize xs n = take n xs ++ replicate (n - length xs) 0

-- The `switch`.
pub dispatch : Codec → OutboundFrameProcessor → List ℕ → Option (Bool × OutboundFrameProcessor)
dispatch opus p frame = some (process_frame_opus p frame)
dispatch vp8 p frame = process_frame_vp8 p frame
dispatch vp9 p frame = some (process_frame_vp9 p frame)
dispatch h264 p frame = process_frame_h264 p frame
dispatch h265 p frame = process_frame_h265 p frame
dispatch av1 p frame = result_of (process_frame_av1 p frame)
dispatch unknown p frame = some (false, p)

-- A frame that could not be processed is encrypted as a whole.
pub fall_back : OutboundFrameProcessor → List ℕ → OutboundFrameProcessor
fall_back p frame =
    add_encrypted_bytes
      (record p {
        frame_index = 0;
        unencrypted_bytes = [];
        encrypted_bytes = [];
        unencrypted_ranges = [];
      })
      frame

-- The end of `process_frame`: the fallback, and room for the ciphertext.
pub settle : List ℕ → Bool → OutboundFrameProcessor → OutboundFrameProcessor
unfolding fall_back
settle frame success q =
    let r = if success then q else fall_back q frame in
    record r { ciphertext_bytes = resize r.ciphertext_bytes (length r.encrypted_bytes) }

unfoldable pub process_frame :
    OutboundFrameProcessor → List ℕ → Codec → Option OutboundFrameProcessor
unfolding dispatch settle process_frame_opus process_frame_vp9 process_frame_vp8
process_frame p frame codec = do
  (success, q) ← dispatch codec (record (reset p) { frame_codec = codec }) frame
  some (settle frame success q)
