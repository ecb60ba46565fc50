-- ===== src/Dave/Leb128/Tests.antt =====
-- Runs of leb128.cpp, and its theorems at concrete numbers.
use ekizu.Prelude.{ℕ, ◌-◌, ◌^◌, ◌≤◌, ◌≡◌, refl, List, [], ◌∷◌, ◌++◌, some, none, length, arith}
use ekizu.Dave.Leb128.{IsU64, leb128_max_size, leb128_size, write_leb128, read_leb128}
use ekizu.Dave.Leb128.Bytes.{all_bytes-IsByte}
use ekizu.Dave.Leb128.RoundTrip.{read-write}
use ekizu.Dave.Leb128.Reads.{read-Reading}

writes_300 : write_leb128 300 ≡ 0xac ∷ 2 ∷ []
unfolding write_leb128
writes_300 = refl

largest_takes_ten : leb128_size (2 ^ 64 - 1) ≡ 10
unfolding leb128_size
largest_takes_ten = refl

reads_padded : read_leb128 (0x85 ∷ 0x80 ∷ 0 ∷ 9 ∷ []) ≡ some (5, 9 ∷ [])
unfolding read_leb128
reads_padded = refl

reads_no_end : read_leb128 (0x85 ∷ 0x80 ∷ []) ≡ none
unfolding read_leb128
reads_no_end = refl

read-write_example : read_leb128 (write_leb128 300 ++ (7 ∷ [])) ≡ some (300, 7 ∷ [])
read-write_example = read-write 300 (7 ∷ []) (omega arith)

abbrev padded : List ℕ
padded = 0x85 ∷ 0x80 ∷ 0 ∷ 9 ∷ []

read-Reading_example :
    IsU64 5
    × (taken : List ℕ) × (padded ≡ taken ++ (9 ∷ []))
    × (1 ≤ length taken)
    × (length taken ≤ leb128_max_size)
read-Reading_example = read-Reading padded 5 (9 ∷ []) (all_bytes-IsByte padded refl) reads_padded
