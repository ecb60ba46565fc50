-- ===== src/Dave/Codecs/Nalu.antt =====
-- Start codes and picture parameters of H264 and H265, in src/dave/codec_utils.cpp.
pub mod Search
pub mod Pps
use ekizu.Prelude.{ℕ, zero, suc, ◌+◌, ◌-◌, ◌*◌, ◌/◌, ◌%◌, ◌^◌, bit_and}
use ekizu.Prelude.{List, [], ◌∷◌, Option, some, none, Bool, ◌&&◌, ltb, leb, ◌==◌, if◌then◌else◌}
use ekizu.Prelude.{length, get_or}

abbrev pub nalu_short_start_sequence_size : ℕ
nalu_short_start_sequence_size = 3

abbrev pub nalu_long_start_code : List ℕ
nalu_long_start_code = 0 ∷ 0 ∷ 0 ∷ 1 ∷ []

-- Every index that the code uses is below the buffer's size.
abbrev pub at : List ℕ → ℕ → ℕ
at buffer i = get_or buffer i 0

-- The index behind the start code at `i`, and the size of that code.
unfoldable pub found : List ℕ → ℕ → ℕ × ℕ
found buffer i =
    if leb 1 i && at buffer (i - 1) == 0
    then (i + nalu_short_start_sequence_size, 4)
    else (i + nalu_short_start_sequence_size, 3)

-- The loop of `next_h26x_nalu_index` from `i` on. Each round moves on by one byte at least, so as
-- many rounds as the buffer has bytes reach the loop's end, where nothing is found.
nalu_loop : ℕ → List ℕ → ℕ → Option (ℕ × ℕ)
nalu_loop zero buffer i = none
nalu_loop (suc fuel) buffer i =
    let skip = nalu_loop fuel buffer (i + nalu_short_start_sequence_size) in
    let next = nalu_loop fuel buffer (i + 1) in
    let third = at buffer (i + 2) in
    if ltb i (length buffer - nalu_short_start_sequence_size)
    then if ltb 1 third
      then skip
      else if third == 1
      then if at buffer (i + 1) == 0 && at buffer i == 0 then some (found buffer i) else skip
      else next
    else none

unfoldable pub next_h26x_nalu_index : List ℕ → ℕ → Option (ℕ × ℕ)
unfolding nalu_loop found
next_h26x_nalu_index buffer search_start_index =
    if ltb (length buffer) nalu_short_start_sequence_size
    then none
    else nalu_loop (length buffer) buffer search_start_index

-- The state of the loop of `bytes_covering_h264_pps`.
pub record Bits : Type 0 where
  pub payload_bit_index : ℕ
  pub zero_bit_count : ℕ
  pub parsed_exp_golomb_values : ℕ

abbrev pub is_emulation_prevention : List ℕ → ℕ → Bool
is_emulation_prevention payload byte_index =
    leb 2 byte_index
    && at payload byte_index == 3
    && at payload (byte_index - 1) == 0
    && at payload (byte_index - 2) == 0

-- `none` is the early return of 0 after 32 leading zeros. A round moves on by one bit at least.
pub pps_loop : ℕ → List ℕ → Bits → Option ℕ
pps_loop zero payload s = some s.payload_bit_index
pps_loop (suc fuel) payload s =
    let i = s.payload_bit_index in
    let skip_byte = pps_loop fuel payload (record s { payload_bit_index = i + 8 }) in
    let more_zeros =
      pps_loop fuel payload
        (record s { zero_bit_count = s.zero_bit_count + 1; payload_bit_index = i + 1 }) in
    let one_bit = pps_loop fuel payload (record {
      parsed_exp_golomb_values = s.parsed_exp_golomb_values + 1;
      payload_bit_index = i + (1 + s.zero_bit_count);
      zero_bit_count = 0;
    }) in
    if ltb i (length payload * 8) && ltb s.parsed_exp_golomb_values 3
    then if i % 8 == 0 && is_emulation_prevention payload (i / 8)
      then skip_byte
      else if bit_and (at payload (i / 8)) (2 ^ (7 - i % 8)) == 0
      then if leb 32 (s.zero_bit_count + 1) then none else more_zeros
      else one_bit
    else some i

-- The bytes up to the last value, as a `uint16_t`.
bytes_covering : Option ℕ → ℕ
bytes_covering none = 0
bytes_covering (some bits) = if ltb 65535 (bits / 8 + 1) then 0 else bits / 8 + 1

abbrev first_bit : Bits
first_bit = record { payload_bit_index = 0; zero_bit_count = 0; parsed_exp_golomb_values = 0 }

unfoldable pub bytes_covering_h264_pps : List ℕ → ℕ
unfolding pps_loop bytes_covering
bytes_covering_h264_pps payload = bytes_covering (pps_loop (length payload * 8) payload first_bit)
