-- ===== src/Dave/Leb128/Reads.antt =====
-- `read_leb128` on arbitrary bytes, well formed or not.
use ekizu.Prelude.{ℕ, ◌+◌, ◌*◌, ◌%◌, ◌^◌, ◌<◌, ◌≤◌, ◌≡◌, ap}
use ekizu.Prelude.{
  List, [], ◌∷◌, ◌++◌, some, length, All, arith, inl, inr, ◌⊎◌, length-append, All-append_right,
}
use ekizu.Prelude.Bits.{and_7f}
use ekizu.Dave.Leb128.{IsU64, IsByte, leb128_max_size, read_loop, read_leb128}
use ekizu.Dave.Leb128.RoundTrip.{add_bits-add, group_below}
use native.Mathlib.Nat.{pow-le-pow_right}

two-pow-le : (s t : ℕ) → s ≤ t → 2 ^ s ≤ 2 ^ t
two-pow-le s t h = pow-le-pow_right (omega arith) h

-- A group read at bit `s` keeps the word within the bits read so far.
group_fits : (g value s : ℕ) → g < 128 → s < 57 → value < 2 ^ s → value + g * 2 ^ s < 2 ^ 63
group_fits g value s hg hs hv = grind (arith, group_below g value s, two-pow-le (s + 7) 63)

-- The tenth byte, which may only be 0 or 1, fits above the 63 bits read before it.
tenth_fits :
    (b value s j : ℕ)
    → s ≡ 7 * j
    → j ≤ 9
    → 57 ≤ s
    → b ≤ 1
    → value < 2 ^ s
    → value + b * 2 ^ s < 2 ^ 64
tenth_fits b value s j at hj hs hb hv = omega (
  arith,
  ap (λ (t : ℕ). 2 ^ t) {x = s} {y = 63} (omega arith),
  ap (λ (t : ℕ). b * 2 ^ t) {x = s} {y = 63} (omega arith),
)

-- What one more byte does: it ends the number, or its group is added and the loop goes on.
Round : ℕ → List ℕ → ℕ → ℕ → ℕ → List ℕ → Type 0
Round b bs value s v rest =
    (IsU64 v × (rest ≡ bs))
    ⊎ ((s < 57) × (read_loop bs (value + b % 128 * 2 ^ s) (s + 7) ≡ some (v, rest)))

module _ (b : ℕ) (bs : List ℕ) (value s j v : ℕ) (rest : List ℕ) where
  Round-cases :
      b < 256
      → s ≡ 7 * j
      → j ≤ 9
      → value < 2 ^ s
      → read_loop (b ∷ bs) value s ≡ some (v, rest)
      → Round b bs value s v rest
  unfolding read_loop Round
  Round-cases hb at hj hv e = ground (
    arith,
    and_7f b hb,
    group_fits (b % 128) value s,
    add_bits-add s value (b % 128) hv,
    add_bits-add s value b hv,
    tenth_fits b value s j at hj,
  )

-- The `j`-th byte stands at bit `7 * j`; the word so far is below that bit.
pub record Reading (bytes : List ℕ) (j v : ℕ) (rest : List ℕ) : Type 0 where
  pub word : IsU64 v
  pub taken : List ℕ
  pub split : bytes ≡ taken ++ rest
  pub some_taken : 1 ≤ length taken
  pub few_taken : length taken + j ≤ 10

read_loop-Reading :
    (bytes : List ℕ) (value s j v : ℕ) (rest : List ℕ)
    → All IsByte bytes
    → s ≡ 7 * j
    → j ≤ 9
    → value < 2 ^ s
    → read_loop bytes value s ≡ some (v, rest)
    → Reading bytes j v rest
unfolding Round
read_loop-Reading [] value s j v rest hb at hj hv e = unfold read_loop in cc
read_loop-Reading (b ∷ bs) value s j v rest hb at hj hv e =
    elim (Round-cases b bs value s j v rest hb.0 at hj hv e) [
      | inl (word, e) ↦ record {
        word = word;
        taken = b ∷ [];
        split = rw e;
        some_taken = omega arith;
        few_taken = omega arith;
      }
      | inr (more, e) ↦
          let r =
            read_loop-Reading bs (value + b % 128 * 2 ^ s) (s + 7) (j + 1) v rest hb.1 (omega arith)
              (omega arith) (group_below (b % 128) value s (omega arith) hv) e in
          record {
            word = r.word;
            taken = b ∷ r.taken;
            split = ap (◌∷◌ b) r.split;
            some_taken = omega arith;
            few_taken = omega (arith, r.few_taken);
          }
    ]

-- A successful `read_leb128` gives a uint64, and has taken 1 to 10 bytes off the front, whatever
-- the bytes are.
pub read-Reading :
    (bytes : List ℕ) (v : ℕ) (rest : List ℕ)
    → All IsByte bytes
    → read_leb128 bytes ≡ some (v, rest)
    → IsU64 v
      × (taken : List ℕ) × (bytes ≡ taken ++ rest)
      × (1 ≤ length taken)
      × (length taken ≤ leb128_max_size)
unfolding read_leb128
read-Reading bytes v rest hb e =
    let r = read_loop-Reading bytes 0 0 0 v rest hb (omega arith) (omega arith) (omega arith) e in
    (r.word, r.taken, r.split, r.some_taken, omega (arith, r.few_taken))

pub read_shortens :
    (bytes : List ℕ) (v : ℕ) (rest : List ℕ)
    → All IsByte bytes
    → read_leb128 bytes ≡ some (v, rest)
    → (length rest < length bytes) × All IsByte rest
read_shortens bytes v rest hb e =
    let (_, taken, split, lo, _) = read-Reading bytes v rest hb e in
    (
      omega (arith, ap length split, length-append taken rest),
      All-append_right IsByte taken rest (rw split at hb),
    )
