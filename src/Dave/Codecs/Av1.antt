-- ===== src/Dave/Codecs/Av1.antt =====
-- `process_frame_av1` of src/dave/codec_utils.cpp: the OBUs of an AV1 frame.
pub mod Output
pub mod Endless
use ekizu.Prelude.{ℕ, zero, suc, ◌+◌, ◌-◌, ◌/◌, bit_and, List, [], ◌∷◌, length, drop}
use ekizu.Prelude.{Option, some, none, Bool, true, false, not, ◌&&◌, ltb, ◌==◌, if◌then◌else◌}
use ekizu.Dave.Buffer.{◌>>=◌, subspan, add_size}
use ekizu.Dave.Leb128.{read_leb128, write_leb128}
use ekizu.Dave.Outbound.{OutboundFrameProcessor, add_unencrypted_bytes, add_encrypted_bytes}
use ekizu.Dave.Codecs.Nalu.{at}

-- `ended` is the function's result. `undefined` is a view outside the frame, and `running` is no
-- end within the rounds given.
pub data Attempt : Type 0 where
  ended : Bool → OutboundFrameProcessor → Attempt
  undefined : Attempt
  running : Attempt

-- The fields of an OBU that starts at `header_index`; the next one starts at `next`.
pub record Obu : Type 0 where
  pub header_index : ℕ
  pub header : ℕ
  pub has_extension : Bool
  pub has_size : Bool
  pub payload_index : ℕ
  pub payload_size : ℕ
  pub next : ℕ

abbrev pub obu_type : Obu → ℕ
obu_type o = bit_and o.header 0x78 / 8

-- The end of reading an OBU, once its payload is known. The sum that is compared with the frame's
-- size wraps around.
pub obu_of : List ℕ → ℕ → Bool → Bool → ℕ → ℕ → Option Obu
obu_of frame i has_extension has_size payload_index payload_size =
    let next = add_size payload_index payload_size in
    let obu : Obu = record {
      header_index = i;
      header = at frame i;
      has_extension = has_extension;
      has_size = has_size;
      payload_index = payload_index;
      payload_size = payload_size;
      next = next;
    } in
    if ltb (length frame) next then none else some obu

-- Reading an OBU at `i`; `none` is `return false`.
pub read_obu : List ℕ → ℕ → Option Obu
unfolding obu_of
read_obu frame i =
    let header = at frame i in
    let has_extension = not (bit_and header 0x04 == 0) in
    let has_size = not (bit_and header 0x02 == 0) in
    let after_header = if has_extension then i + 1 + 1 else i + 1 in
    let rest_of_frame = length frame - after_header in
    let sized : Option Obu = (do
      (payload_size, rest) ← read_leb128 (drop after_header frame)
      obu_of frame i has_extension has_size (length frame - length rest) payload_size) in
    let unsized = obu_of frame i has_extension has_size after_header rest_of_frame in
    if ltb after_header (length frame) then (if has_size then sized else unsized) else none

-- OBUs that the packetizer drops are left out.
abbrev pub is_kept : Obu → Bool
is_kept o = not (obu_type o == 2) && not (obu_type o == 8) && not (obu_type o == 15)

-- The last OBU loses its size field.
abbrev pub loses_size : List ℕ → Obu → Bool
loses_size frame o = o.next == length frame && o.has_size

pub add_obu : List ℕ → OutboundFrameProcessor → Obu → Option OutboundFrameProcessor
add_obu frame p o =
    let rewritten = loses_size frame o in
    let header = if rewritten then bit_and o.header 0xfd else o.header in
    let p1 = add_unencrypted_bytes p (header ∷ []) in
    let extended =
      subspan frame (o.header_index + 1) 1 >>= λ b. some (add_unencrypted_bytes p1 b) in
    (if o.has_extension then extended else some p1) >>= λ p2.
    let p3 =
      if o.has_size && not rewritten
      then add_unencrypted_bytes p2 (write_leb128 o.payload_size)
      else p2 in
    subspan frame o.payload_index o.payload_size >>= λ payload.
    some (add_encrypted_bytes p3 payload)

pub each_obu : ℕ → List ℕ → ℕ → OutboundFrameProcessor → Attempt
each_obu zero frame i p = if ltb i (length frame) then running else ended true p
each_obu (suc fuel) frame i p =
    let round : Attempt = elim (read_obu frame i) [
      | none ↦ ended false p
      | some o ↦ elim (if is_kept o then add_obu frame p o else some p) [
        | none ↦ undefined
        | some p' ↦ each_obu fuel frame o.next p'
      ]
    ] in
    if ltb i (length frame) then round else ended true p

-- Where no size wraps, each round moves on by one byte at least.
unfoldable pub process_frame_av1 : OutboundFrameProcessor → List ℕ → Attempt
unfolding each_obu add_obu read_obu
process_frame_av1 p frame = each_obu (length frame) frame 0 p
