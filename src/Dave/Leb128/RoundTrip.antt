-- ===== src/Dave/Leb128/RoundTrip.antt =====
-- `read_leb128` after `write_leb128`, and on arbitrary bytes.
use ekizu.Prelude.{ℕ, zero, suc, ◌+◌, ◌*◌, ◌/◌, ◌%◌, ◌^◌, ◌<◌, ◌≤◌, ◌≡◌, ap}
use ekizu.Prelude.{List, ◌∷◌, ◌++◌, some, arith}
use ekizu.Prelude.Bits.{and_7f, and_80, or_shifted}
use ekizu.Dave.Leb128.{IsU64, write_leb128, read_loop, read_leb128, add_bits}
use ekizu.Dave.Leb128.Bounds.{groups, write-groups}
use native.Mathlib.Nat.{div-add-mod}
use native.Mathlib.Numerals.{towards_suc}

-- In a word of which only the bits below `s` are set, new bits from `s` on are added.
pub add_bits-add :
    (s value g : ℕ)
    → value < 2 ^ s
    → IsU64 (value + g * 2 ^ s)
    → add_bits value g s ≡ value + g * 2 ^ s
add_bits-add s value g h fits =
    let e : g * 2 ^ s % 2 ^ 64 ≡ g * 2 ^ s = omega arith in rw e (or_shifted s value g h)

seven_more : (s : ℕ) → 2 ^ (s + 7) ≡ 128 * 2 ^ s
seven_more s = simp towards_suc (omega arith)

-- The lowest group of `v`, and what stands above it, both shifted by `s`.
low_and_rest : (v s : ℕ) → v * 2 ^ s ≡ v % 128 * 2 ^ s + v / 128 * 2 ^ (s + 7)
low_and_rest v s = omega (
  arith,
  ap (λ (t : ℕ). t * 2 ^ s) (div-add-mod v 128),
  ap (λ (t : ℕ). v / 128 * t) (seven_more s),
)

module _ (j s : ℕ) (at : s ≡ 7 * j) (within : j ≤ 9) where
  tenth_is_bit : (w value : ℕ) → IsU64 (value + w * 2 ^ s) → 57 ≤ s → w ≤ 1
  tenth_is_bit w value fits full =
      omega (arith, ap (λ (t : ℕ). w * 2 ^ t) {x = s} {y = 63} (omega arith))

  -- A byte with no continuation bit ends the number.
  last_byte :
      (w value : ℕ) (rest : List ℕ)
      → w < 128
      → value < 2 ^ s
      → IsU64 (value + w * 2 ^ s)
      → read_loop (w ∷ rest) value s ≡ some (value + w * 2 ^ s, rest)
  unfolding read_loop
  last_byte w value rest hw hv fits =
      ground (arith, and_7f w, and_80 w, tenth_is_bit w value fits, add_bits-add s value w hv fits)

  -- A byte with the continuation bit adds its group.
  inner_byte :
      (g value : ℕ) (rest : List ℕ)
      → g < 128
      → s < 57
      → value < 2 ^ s
      → IsU64 (value + g * 2 ^ s)
      → read_loop ((g + 128) ∷ rest) value s ≡ read_loop rest (value + g * 2 ^ s) (s + 7)
  unfolding read_loop
  inner_byte g value rest hg hs hv fits =
      ground (arith, and_7f (g + 128), and_80 (g + 128), add_bits-add s value g hv fits)

pub group_below : (g value s : ℕ) → g < 128 → value < 2 ^ s → value + g * 2 ^ s < 2 ^ (s + 7)
group_below g value s hg hv = grind (arith, seven_more s)

-- `v` is what is still to be read, at bit `s`, with `k` continuation bytes to come at most.
read_loop-groups :
    (k v value s j : ℕ) (rest : List ℕ)
    → s ≡ 7 * j
    → j + k ≤ 9
    → v < 128 ^ suc k
    → value < 2 ^ s
    → IsU64 (value + v * 2 ^ s)
    → read_loop (groups k v ++ rest) value s ≡ some (value + v * 2 ^ s, rest)
unfolding groups
read_loop-groups zero v value s j rest at hj hv low fits =
    last_byte j s at (omega arith) v value rest (omega arith) low fits
read_loop-groups (suc k) v value s j rest at hj hv low fits = ground (
  arith,
  last_byte j s at (omega arith) v value rest,
  low_and_rest v s,
  inner_byte j s at (omega arith) (v % 128) value (groups k (v / 128) ++ rest),
  group_below (v % 128) value s,
  read_loop-groups k (v / 128) (value + v % 128 * 2 ^ s) (s + 7) (j + 1) rest,
)

-- Whatever follows, `read_leb128` reads back the uint64 that `write_leb128` stored, and stops
-- right behind it.
pub read-write :
    (v : ℕ) (rest : List ℕ) → IsU64 v → read_leb128 (write_leb128 v ++ rest) ≡ some (v, rest)
unfolding read_leb128
read-write v rest h = rw (write-groups v h) (ground (arith, read_loop-groups 9 v 0 0 0 rest))
