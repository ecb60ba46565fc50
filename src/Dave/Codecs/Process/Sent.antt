-- ===== src/Dave/Codecs/Process/Sent.antt =====
-- The frame that is sent for each codec.
use ekizu.Prelude.{ℕ, ◌-◌, ◌≡◌, arith}
use ekizu.Prelude.{List, [], length, take, replicate, some}
use ekizu.Prelude.{Bool, if◌then◌else◌, length-append, length-take}
use ekizu.Prelude.{length-replicate}
use ekizu.Dave.Outbound.{OutboundFrameProcessor, Codec, unknown, opus, vp8, vp9, h264, h265, av1}
use ekizu.Dave.Outbound.{reset}
use ekizu.Dave.Outbound.Layout.{Layout}
use ekizu.Dave.Codecs.Nalu.{next_h26x_nalu_index}
use ekizu.Dave.Codecs.H26x.Output.{normal_units}
use ekizu.Dave.Codecs.Av1.Output.{sent_obus}
use ekizu.Dave.Codecs.Process.{resize, dispatch}

-- What a codec that succeeds sends for a frame: H26x.Units and Av1.Output say more of it.
pub rewritten : Codec → List ℕ → List ℕ
rewritten opus frame = frame
rewritten vp8 frame = frame
rewritten vp9 frame = frame
rewritten h264 frame = normal_units (length frame) frame (next_h26x_nalu_index frame 0)
rewritten h265 frame = normal_units (length frame) frame (next_h26x_nalu_index frame 0)
rewritten av1 frame = sent_obus (length frame) frame 0
rewritten unknown frame = frame

pub length-resize : (xs : List ℕ) (n : ℕ) → length (resize xs n) ≡ n
unfolding resize
length-resize xs n = omega (
  arith,
  length-append (take n xs) (replicate (n - length xs) 0),
  length-take n xs,
  length-replicate {A = ℕ} (n - length xs) 0,
)

-- What `process_frame` starts the codec with.
abbrev pub fresh : OutboundFrameProcessor → Codec → OutboundFrameProcessor
fresh p codec = record (reset p) { frame_codec = codec }

-- What comes of a frame, by whether the codec succeeds: its own ranges and streams, which make up the
-- codec's rewriting of the frame, or the frame itself as bytes to encrypt, without ranges; and the
-- ciphertext has the size of the bytes to encrypt.
pub record IsProcessed (codec : Codec) (frame : List ℕ) (p q : OutboundFrameProcessor)
    : Type 0 where
  pub success : Bool
  pub result : OutboundFrameProcessor
  pub answered : dispatch codec (fresh p codec) frame ≡ some (success, result)
  pub layout : Layout q (if success then rewritten codec frame else frame)
  pub ranges : q.unencrypted_ranges ≡ (if success then result.unencrypted_ranges else [])
  pub readable : q.unencrypted_bytes ≡ (if success then result.unencrypted_bytes else [])
  pub encrypted : q.encrypted_bytes ≡ (if success then result.encrypted_bytes else frame)
  pub room : length q.ciphertext_bytes ≡ length q.encrypted_bytes
