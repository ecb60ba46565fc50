-- ===== src/Dave/Codecs/Nalu/Pps.antt =====
-- `bytes_covering_h264_pps` on arbitrary payloads.
use ekizu.Prelude.{ℕ, zero, suc, ◌+◌, ◌*◌, ◌≤◌, ◌≡◌, refl, arith}
use ekizu.Prelude.{List, Option, some, none, length}
use ekizu.Dave.Codecs.Nalu.{Bits, pps_loop, bytes_covering}
use ekizu.Dave.Codecs.Nalu.{bytes_covering_h264_pps}

bytes_covering-le : (r : Option ℕ) → bytes_covering r ≤ 65535
unfolding bytes_covering
bytes_covering-le none = omega arith
bytes_covering-le (some bits) = ground arith

-- The result is a `uint16_t`.
pub bytes_covering_h264_pps-le : (payload : List ℕ) → bytes_covering_h264_pps payload ≤ 65535
unfolding bytes_covering_h264_pps
bytes_covering_h264_pps-le payload = bytes_covering-le (pps_loop (length payload * 8) payload _)

-- With one round for each bit that is left, or more, the loop has ended by its test: the number
-- of rounds does not change what it answers.
pub pps_loop_fuel :
    (fuel fuel' : ℕ) (payload : List ℕ) (s : Bits)
    → length payload * 8 ≤ s.payload_bit_index + fuel
    → length payload * 8 ≤ s.payload_bit_index + fuel'
    → pps_loop fuel payload s ≡ pps_loop fuel' payload s
unfolding pps_loop
pps_loop_fuel zero zero payload s h h' = refl
pps_loop_fuel zero (suc fuel') payload s h h' = ground arith
pps_loop_fuel (suc fuel) zero payload s h h' = ground arith
pps_loop_fuel (suc fuel) (suc fuel') payload s h h' =
    let i = s.payload_bit_index in
    let skip : Bits = record s { payload_bit_index = i + 8 } in
    let zeros : Bits = record s {
      zero_bit_count = s.zero_bit_count + 1;
      payload_bit_index = i + 1;
    } in
    let one : Bits = record {
      parsed_exp_golomb_values = s.parsed_exp_golomb_values + 1;
      payload_bit_index = i + (1 + s.zero_bit_count);
      zero_bit_count = 0;
    } in
    rw
      (
        pps_loop_fuel fuel fuel' payload skip (omega arith) (omega arith),
        pps_loop_fuel fuel fuel' payload zeros (omega arith) (omega arith),
        pps_loop_fuel fuel fuel' payload one (omega arith) (omega arith),
      )
      refl
