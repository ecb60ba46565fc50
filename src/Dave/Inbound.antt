-- ===== src/Dave/Inbound.antt =====
-- `InboundFrameProcessor` of src/dave/frame_processors.cpp: an encrypted frame is taken apart into
-- its trailer, the readable bytes and the ciphertext. A view outside the frame is `none`.
pub mod Splitting
pub mod Streams
pub mod Safety
pub mod RoundTrip
mod Tests
use ekizu.Prelude.{ℕ, ◌+◌, ◌-◌, ◌*◌, ◌%◌, ◌^◌, List, [], ◌∷◌, ◌++◌, length, take, replicate, get_or}
use ekizu.Prelude.{Option, some, none, Bool, true, false, ltb, if◌then◌else◌}
use ekizu.Dave.Buffer.{◌>>=◌, subspan, last, ends_with, add_size, sub_size}
use ekizu.Dave.Leb128.{read_leb128}
use ekizu.Dave.Ranges.{Range, Outcome, read_all, failed, stuck, deserialize_unencrypted_ranges}
use ekizu.Dave.Ranges.{validate_unencrypted_ranges, do_reconstruct}

-- The sizes in bytes of src/dave/common.hpp.
abbrev pub truncated_tag_bytes : ℕ
truncated_tag_bytes = 8

abbrev pub magic_marker : List ℕ
magic_marker = 0xfa ∷ 0xfa ∷ []

-- The tag, the size byte and the marker.
abbrev pub supplemental_bytes : ℕ
supplemental_bytes = 11

pub record InboundFrameProcessor : Type 0 where
  pub encrypted : Bool
  pub original_size : ℕ
  pub tag : List ℕ
  pub truncated_nonce : ℕ
  pub unencrypted_ranges : List Range
  pub authenticated : List ℕ
  pub ciphertext : List ℕ
  pub plaintext : List ℕ

-- The tag is left as it is.
unfoldable pub clear : InboundFrameProcessor → InboundFrameProcessor
clear p = record p {
  encrypted = false;
  original_size = 0;
  truncated_nonce = 2 ^ 32 - 1;
  unencrypted_ranges = [];
  authenticated = [];
  ciphertext = [];
  plaintext = [];
}

-- The loop over the ranges: the position in the frame and what was added to the two buffers.
pub record Split : Type 0 where
  pub frame_index : ℕ
  pub authenticated : List ℕ
  pub ciphertext : List ℕ

pub split_range : List ℕ → Split → Range → Option Split
split_range frame s r = do
  let encrypted_bytes = sub_size r.offset s.frame_index
  let gap = subspan frame s.frame_index encrypted_bytes
  between ← if ltb 0 encrypted_bytes then gap else some []
  readable ← subspan frame r.offset r.size
  some (record {
    frame_index = add_size r.offset r.size;
    authenticated = s.authenticated ++ readable;
    ciphertext = s.ciphertext ++ between;
  })

pub split_ranges : List ℕ → Split → List Range → Option Split
split_ranges frame s [] = some s
split_ranges frame s (r ∷ rs) = split_range frame s r >>= λ s'. split_ranges frame s' rs

pub split_tail : List ℕ → ℕ → Split → Option Split
split_tail frame actual_frame_size s = do
  let rest = subspan frame s.frame_index (sub_size actual_frame_size s.frame_index)
  bytes ← if ltb s.frame_index actual_frame_size then rest else some []
  some (record s { ciphertext = s.ciphertext ++ bytes })

-- The frame in front of its trailer, by the ranges.
pub split_frame : List ℕ → ℕ → List Range → Option Split
unfolding split_range split_ranges split_tail
split_frame frame actual_frame_size ranges = do
  s ← split_ranges frame (record { frame_index = 0; authenticated = []; ciphertext = [] }) ranges
  split_tail frame actual_frame_size s

-- From the validation of the ranges on.
pub accept_ranges : InboundFrameProcessor → List ℕ → ℕ → List Range → Option InboundFrameProcessor
unfolding split_frame
accept_ranges p frame bytes_size ranges =
    let q : InboundFrameProcessor = record p { unencrypted_ranges = ranges } in
    let accepted : Option InboundFrameProcessor = (do
      s ← split_frame frame (sub_size (length frame) bytes_size) ranges
      some (record q {
        original_size = length frame;
        authenticated = s.authenticated;
        ciphertext = s.ciphertext;
        plaintext = replicate (length s.ciphertext) 0;
        encrypted = true;
      })) in
    if validate_unencrypted_ranges ranges (length frame) then accepted else some q

-- `none` also where the deserialisation has no outcome, which does not happen.
pub accept_outcome : InboundFrameProcessor → List ℕ → ℕ → Outcome → Option InboundFrameProcessor
unfolding accept_ranges
accept_outcome p frame bytes_size (read_all ranges) = accept_ranges p frame bytes_size ranges
accept_outcome p frame bytes_size failed = some p
accept_outcome p frame bytes_size stuck = none

-- The nonce and the ranges, behind the tag. A nonce that cannot be read is 0.
pub accept_nonce :
    InboundFrameProcessor → List ℕ → ℕ → Option (ℕ × List ℕ) → Option InboundFrameProcessor
unfolding accept_outcome
accept_nonce p frame bytes_size none = some (record p { truncated_nonce = 0 })
accept_nonce p frame bytes_size (some (nonce, rest)) =
    accept_outcome (record p { truncated_nonce = nonce % 2 ^ 32 }) frame bytes_size
      (deserialize_unencrypted_ranges (take (length rest % 256) rest) [])

-- From the size byte on.
pub accept_supplemental : InboundFrameProcessor → List ℕ → ℕ → Option InboundFrameProcessor
unfolding accept_nonce
accept_supplemental p frame bytes_size = do
  supplemental ← last frame bytes_size
  tag ← subspan supplemental 0 truncated_tag_bytes
  nonce_and_ranges ←
      subspan supplemental truncated_tag_bytes
        (sub_size (sub_size (sub_size bytes_size truncated_tag_bytes) 1) 2)
  accept_nonce (record p { tag = tag }) frame bytes_size (read_leb128 nonce_and_ranges)

unfoldable pub parse_frame : InboundFrameProcessor → List ℕ → Option InboundFrameProcessor
unfolding clear accept_supplemental ends_with last
parse_frame p frame =
    let marked : Option InboundFrameProcessor = (do
      marker_and_size ← last frame 3
      let bytes_size = get_or marker_and_size 0 0
      if ltb (length frame) bytes_size
          then some (clear p)
          else if ltb bytes_size supplemental_bytes
          then some (clear p)
          else accept_supplemental (clear p) frame bytes_size) in
    if ltb (length frame) supplemental_bytes
    then some (clear p)
    else if ends_with frame magic_marker
    then marked
    else some (clear p)

-- The bytes written to the front of an output of `frame_size` bytes.
unfoldable pub reconstruct_frame : InboundFrameProcessor → ℕ → Option (List ℕ)
unfolding do_reconstruct
reconstruct_frame p frame_size =
    let built = do_reconstruct p.unencrypted_ranges p.authenticated p.plaintext frame_size in
    if p.encrypted
    then if ltb frame_size (length p.authenticated + length p.plaintext) then some [] else built
    else some []
