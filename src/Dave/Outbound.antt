-- ===== src/Dave/Outbound.antt =====
-- `OutboundFrameProcessor` of src/dave/frame_processors.hpp: a frame is taken apart into bytes that
-- stay readable and bytes to encrypt, in the order in which they stand in the frame sent.
pub mod Layout
use ekizu.Prelude.{ℕ, ◌+◌, ◌<◌, List, [], ◌∷◌, ◌++◌, Option, some, none, length, replicate}
use ekizu.Prelude.{ltb, ◌==◌, if◌then◌else◌}
use ekizu.Dave.Ranges.{Range, do_reconstruct}

pub data Codec : Type 0 where
  unknown opus vp8 vp9 h264 h265 av1 : Codec

pub record OutboundFrameProcessor : Type 0 where
  pub frame_codec : Codec
  pub frame_index : ℕ
  pub unencrypted_bytes : List ℕ
  pub encrypted_bytes : List ℕ
  pub ciphertext_bytes : List ℕ
  pub unencrypted_ranges : List Range

-- The last range grows if it ends at `frame_index`; otherwise a new one is added.
pub cover : List Range → ℕ → ℕ → List Range
cover [] frame_index n = record { offset = frame_index; size = n } ∷ []
cover (r ∷ []) frame_index n =
    if r.offset + r.size == frame_index
    then record r { size = r.size + n } ∷ []
    else r ∷ record { offset = frame_index; size = n } ∷ []
cover (r ∷ q ∷ rs) frame_index n = r ∷ cover (q ∷ rs) frame_index n

unfoldable pub add_unencrypted_bytes : OutboundFrameProcessor → List ℕ → OutboundFrameProcessor
unfolding cover
add_unencrypted_bytes p bytes = record p {
  unencrypted_ranges = cover p.unencrypted_ranges p.frame_index (length bytes);
  unencrypted_bytes = p.unencrypted_bytes ++ bytes;
  frame_index = p.frame_index + length bytes;
}

unfoldable pub add_encrypted_bytes : OutboundFrameProcessor → List ℕ → OutboundFrameProcessor
add_encrypted_bytes p bytes = record p {
  encrypted_bytes = p.encrypted_bytes ++ bytes;
  frame_index = p.frame_index + length bytes;
}

-- `m_ciphertext_bytes` is left as it is.
unfoldable pub reset : OutboundFrameProcessor → OutboundFrameProcessor
reset p = record p {
  frame_codec = unknown;
  frame_index = 0;
  unencrypted_bytes = [];
  encrypted_bytes = [];
  unencrypted_ranges = [];
}

-- The bytes written to the front of an output of `frame_size` bytes; none are written where it is
-- too small.
unfoldable pub reconstruct_frame : OutboundFrameProcessor → ℕ → Option (List ℕ)
unfolding do_reconstruct
reconstruct_frame p frame_size =
    if ltb frame_size (length p.unencrypted_bytes + length p.ciphertext_bytes)
    then some []
    else do_reconstruct p.unencrypted_ranges p.unencrypted_bytes p.ciphertext_bytes frame_size
