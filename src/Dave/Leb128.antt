-- ===== src/Dave/Leb128.antt =====
-- src/dave/leb128.cpp: unsigned integers in groups of seven bits, lowest first. The bytes between
-- a pointer and its end are a list; a null pointer is `none`.
pub mod Bounds
pub mod RoundTrip
pub mod Reads
pub mod Bytes
mod Tests
use ekizu.Prelude.{ℕ, zero, suc, ◌+◌, ◌-◌, ◌*◌, ◌/◌, ◌%◌, ◌^◌, ◌<◌, bit_and, bit_or, arith}
use ekizu.Prelude.{List, [], ◌∷◌, Option, none, some, ltb, leb, ◌==◌, if◌then◌else◌, dite, dec_lt}
use ekizu.Prelude.Bits.{lt_wf}
use mathlib.Core.WellFounded.{Acc}

abbrev pub leb128_max_size : ℕ
leb128_max_size = 10

abbrev pub u64_mod : ℕ
u64_mod = 2 ^ 64

abbrev pub IsU64 : ℕ → Type 0
IsU64 v = v < 2 ^ 64

abbrev pub IsByte : ℕ → Type 0
IsByte b = b < 256

pub not_small : (v : ℕ) → ¬ (v < 0x80) → v / 128 < v
not_small v h = omega arith

-- The loop of `leb128_size` after `size` rounds; `v >>= 7` is `v / 128`.
size_loop : (v : ℕ) → ℕ → Acc ◌<◌ v → ℕ
size_loop v size (Acc.intro _ smaller) =
    dite (dec_lt v 0x80) (λ _. size + 1)
      (λ h. size_loop (v / 128) (size + 1) (smaller (v / 128) (not_small v h)))

unfoldable pub leb128_size : ℕ → ℕ
unfolding size_loop lt_wf dec_lt
leb128_size value = size_loop value 0 (lt_wf.apply value)

-- The bytes that the loop of `write_leb128` stores from `buffer[size]` on.
write_loop : (v : ℕ) → Acc ◌<◌ v → List ℕ
write_loop v (Acc.intro _ smaller) =
    dite (dec_lt v 0x80) (λ _. v % 256 ∷ [])
      (λ h. bit_or 0x80 (bit_and v 0x7f) ∷ write_loop (v / 128) (smaller (v / 128) (not_small v h)))

unfoldable pub write_leb128 : ℕ → List ℕ
unfolding write_loop lt_wf dec_lt
write_leb128 value = write_loop value (lt_wf.apply value)

-- `value |= uint64_t{byte & 0x7F} << fill_bits`
abbrev pub add_bits : ℕ → ℕ → ℕ → ℕ
add_bits value bits fill_bits = bit_or value (bits * 2 ^ fill_bits % u64_mod)

-- Nine rounds of the loop, and then the tenth byte.
pub read_loop : List ℕ → ℕ → ℕ → Option (ℕ × List ℕ)
read_loop [] value fill_bits = none
read_loop (byte ∷ rest) value fill_bits =
    let value' = add_bits value (bit_and byte 0x7f) fill_bits in
    let more = read_loop rest value' (fill_bits + 7) in
    if ltb fill_bits (64 - 7)
    then if bit_and byte 0x80 == 0 then some (value', rest) else more
    else if leb byte 1
    then some (add_bits value byte fill_bits, rest)
    else none

-- The value and what is left to read.
unfoldable pub read_leb128 : List ℕ → Option (ℕ × List ℕ)
unfolding read_loop
read_leb128 bytes = read_loop bytes 0 0
