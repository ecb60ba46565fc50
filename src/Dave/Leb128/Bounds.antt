-- ===== src/Dave/Leb128/Bounds.antt =====
-- How many bytes the functions of leb128.cpp write and take.
use ekizu.Prelude.{ℕ, zero, suc, ◌+◌, ◌/◌, ◌%◌, ◌^◌, ◌<◌, ◌≤◌, ◌≡◌}
use ekizu.Prelude.{List, [], ◌∷◌, ltb, if◌then◌else◌, length, All, arith}
use ekizu.Prelude.Bits.{lt_wf, low_seven, or_80}
use ekizu.Dave.Leb128.{
  IsU64, IsByte, leb128_max_size, write_loop, size_loop, write_leb128, leb128_size,
}
use mathlib.Core.WellFounded.{Acc}

-- The groups of seven bits of a number below `128 ^ (k + 1)`.
unfoldable pub groups : ℕ → ℕ → List ℕ
groups zero v = v ∷ []
groups (suc k) v =
    let rest = groups k (v / 128) in if ltb v 0x80 then v ∷ [] else (v % 128 + 128) ∷ rest

write_loop-groups : (k v : ℕ) (w : Acc ◌<◌ v) → v < 128 ^ suc k → write_loop v w ≡ groups k v
unfolding write_loop groups
write_loop-groups zero v (Acc.intro _ smaller) h = ground arith
write_loop-groups (suc k) v (Acc.intro _ smaller) h = grind (
  arith,
  low_seven v,
  or_80 (v % 128),
  λ (w : Acc ◌<◌ (v / 128)). write_loop-groups k (v / 128) w (omega arith),
)

size_loop-length :
    (k v n : ℕ) (w : Acc ◌<◌ v) → v < 128 ^ suc k → size_loop v n w ≡ n + length (groups k v)
unfolding size_loop groups
size_loop-length zero v n (Acc.intro _ smaller) h = ground arith
size_loop-length (suc k) v n (Acc.intro _ smaller) h =
    grind (arith, λ (w : Acc ◌<◌ (v / 128)). size_loop-length k (v / 128) (n + 1) w (omega arith))

-- On every uint64 the loop of `write_leb128` stores the groups.
pub write-groups : (v : ℕ) → IsU64 v → write_leb128 v ≡ groups 9 v
unfolding write_leb128
write-groups v h = write_loop-groups 9 v (lt_wf.apply v) (omega arith)

groups-IsByte : (k v : ℕ) → v < 128 ^ suc k → All IsByte (groups k v)
unfolding groups
groups-IsByte zero v h = omega arith
groups-IsByte (suc k) v h = ground (arith, groups-IsByte k (v / 128) (omega arith))

pub length-groups : (k v : ℕ) → (1 ≤ length (groups k v)) × (length (groups k v) ≤ k + 1)
unfolding groups
length-groups zero v = omega arith
length-groups (suc k) v = ground (arith, length-groups k (v / 128))

-- For every uint64, `leb128_size` is the number of bytes that `write_leb128` stores.
pub size-write : (v : ℕ) → IsU64 v → leb128_size v ≡ length (write_leb128 v)
unfolding leb128_size
size-write v h =
    rw (write-groups v h) (omega (arith, size_loop-length 9 v 0 (lt_wf.apply v) (omega arith)))

-- `write_leb128` stores 1 to `LEB128_MAX_SIZE` bytes for every uint64, each below 256.
pub write_shape :
    (v : ℕ)
    → IsU64 v
    → All IsByte (write_leb128 v)
      × (1 ≤ length (write_leb128 v))
      × (length (write_leb128 v) ≤ leb128_max_size)
write_shape v h =
    let (lo, hi) = length-groups 9 v in
    rw (write-groups v h) (groups-IsByte 9 v (omega arith), lo, hi)

-- Small numbers take few bytes: a number below `128 ^ (k + 1)` takes at most `k + 1`.
groups_short : (k m v : ℕ) → v < 128 ^ suc k → k ≤ m → length (groups m v) ≤ k + 1
unfolding groups
groups_short zero zero v h le = omega arith
groups_short zero (suc m) v h le = ground arith
groups_short (suc k) zero v h le = absurd (omega arith)
groups_short (suc k) (suc m) v h le = ground (arith, groups_short k m (v / 128) (omega arith))

pub write_short : (k v : ℕ) → v < 128 ^ suc k → k ≤ 9 → IsU64 v → length (write_leb128 v) ≤ k + 1
write_short k v h le u = rw (write-groups v u) (groups_short k 9 v h le)
