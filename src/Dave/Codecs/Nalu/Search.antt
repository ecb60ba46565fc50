-- ===== src/Dave/Codecs/Nalu/Search.antt =====
-- The search that skips ahead finds the first start code.
use ekizu.Prelude.{◌≢◌, ℕ, zero, suc, ◌+◌, ◌-◌, ◌≤◌, ◌<◌, ◌≡◌, ◌⊎◌, inl, inr, arith}
use ekizu.Prelude.{
  List, Option, dec_lt, ap, sym, ◌∙◌, some, none, length, Bool-cases, ltb, ◌==◌, ◌&&◌,
}
use mathlib.Core.Path.{subst}
use ekizu.Dave.Codecs.Nalu.{at, found, nalu_loop, next_h26x_nalu_index}

-- The bytes 0, 0, 1 at `i`, with a byte behind them.
pub record IsStartCode (buffer : List ℕ) (i : ℕ) : Type 0 where
  pub first : at buffer i ≡ 0
  pub second : at buffer (i + 1) ≡ 0
  pub third : at buffer (i + 2) ≡ 1
  pub followed : i + 3 < length buffer

-- No start code from `start` up to `stop`.
abbrev pub NoneBetween : List ℕ → ℕ → ℕ → Type 0
NoneBetween buffer start stop = (j : ℕ) → start ≤ j → j < stop → ¬ IsStartCode buffer j

-- What the search should answer: the first start code from `start` on, if there is one; the code
-- counts four bytes if a zero stands before it.
pub data Finds (buffer : List ℕ) (start : ℕ) : Option (ℕ × ℕ) → Type 0 where
  nothing : NoneBetween buffer start (length buffer) → Finds buffer start none
  first_code :
      (i : ℕ)
      → start ≤ i
      → IsStartCode buffer i
      → NoneBetween buffer start i
      → Finds buffer start (some (found buffer i))

-- From `i` on, nothing is missed by moving to `k`.
skip_to :
    (buffer : List ℕ) (i k : ℕ) (r : Option (ℕ × ℕ))
    → i ≤ k
    → NoneBetween buffer i k
    → Finds buffer k r
    → Finds buffer i r
skip_to buffer i k none h gap (nothing rest) =
    nothing λ j lo hi. elim (dec_lt j k) [ yes p ↦ gap j lo p | no p ↦ rest j (omega arith) hi ]
skip_to buffer i k r h gap (first_code m le code rest) =
    first_code m (omega arith) code
      λ j lo hi. elim (dec_lt j k) [ yes p ↦ gap j lo p | no p ↦ rest j (omega arith) hi ]

-- Three positions hold no start code if the third byte is not 0, nor the end of a code at `i`.
no_code_in_three :
    (buffer : List ℕ) (i : ℕ)
    → at buffer (i + 2) ≢ 0
    → ¬ IsStartCode buffer i
    → NoneBetween buffer i (i + 3)
no_code_in_three buffer i third here j lo hi code = elim (three j lo hi) [
  | inl p ↦ here (subst (IsStartCode buffer) (sym p) code)
  | inr (inl p) ↦ third (ap (at buffer) {x = i + 2} {y = j + 1} (omega arith) ∙ code.second)
  | inr (inr p) ↦ third (ap (at buffer) (sym p) ∙ code.first)
]
  where
    three : (j : ℕ) → i ≤ j → j < i + 3 → (i ≡ j) ⊎ ((j ≡ i + 1) ⊎ (j ≡ i + 2))
    three j lo hi = grind arith

no_code_in_one : (buffer : List ℕ) (i : ℕ) → ¬ IsStartCode buffer i → NoneBetween buffer i (i + 1)
no_code_in_one buffer i here j lo hi code =
    here (subst (IsStartCode buffer) {x = j} {y = i} (omega arith) code)

nalu_loop-Finds :
    (fuel : ℕ) (buffer : List ℕ) (i : ℕ)
    → 3 ≤ length buffer
    → length buffer ≤ i + fuel
    → Finds buffer i (nalu_loop fuel buffer i)
unfolding nalu_loop
nalu_loop-Finds zero buffer i three h = nothing (λ j lo hi code. omega (arith, code.followed))
nalu_loop-Finds (suc fuel) buffer i three h = elim (Bool-cases (ltb i (length buffer - 3))) [
  | inr over ↦ rw over (nothing (λ j lo hi code. ground (arith, code.followed)))
  | inl inside ↦ rw inside (elim (Bool-cases (ltb 1 (at buffer (i + 2)))) [
    | inl large ↦ rw large (
        skip_to buffer i (i + 3) _ (omega arith)
          (no_code_in_three buffer i (λ e. ground arith)
            (λ c. ground (arith, c.first, c.second, c.third)))
          (nalu_loop-Finds fuel buffer (i + 3) three (omega arith)))
    | inr small ↦ rw small (elim (Bool-cases (at buffer (i + 2) == 1)) [
      | inl ends ↦ rw ends (elim (Bool-cases (at buffer (i + 1) == 0 && at buffer i == 0)) [
        | inl code ↦ rw code (first_code i (omega arith) (ground arith) (λ j lo hi c. omega arith))
        | inr other ↦ rw other (
            skip_to buffer i (i + 3) _ (omega arith)
              (no_code_in_three buffer i (λ e. ground arith)
                (λ c. ground (arith, c.first, c.second, c.third)))
              (nalu_loop-Finds fuel buffer (i + 3) three (omega arith)))
      ])
      | inr zero_byte ↦ rw zero_byte (
          skip_to buffer i (i + 1) _ (omega arith)
            (no_code_in_one buffer i (λ c. ground (arith, c.first, c.second, c.third)))
            (nalu_loop-Finds fuel buffer (i + 1) three (omega arith)))
    ])
  ])
]

-- On every buffer and from every start, the search, which skips three bytes at a time where it
-- can, answers the first start code (0, 0, 1 with a byte behind it) at or behind the start, as
-- index and size, and answers nothing exactly if there is none.
pub next_h26x_nalu_index-Finds :
    (buffer : List ℕ) (start : ℕ) → Finds buffer start (next_h26x_nalu_index buffer start)
unfolding next_h26x_nalu_index
next_h26x_nalu_index-Finds buffer start = elim (Bool-cases (ltb (length buffer) 3)) [
  | inl short ↦ rw short (nothing (λ j lo hi code. ground (arith, code.followed)))
  | inr long ↦ rw long (nalu_loop-Finds (length buffer) buffer start (ground arith) (omega arith))
]
