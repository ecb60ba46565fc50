-- ===== src/Dave/Ranges/Validate.antt =====
-- What `validate_unencrypted_ranges` accepts.
use ekizu.Prelude.{ℕ, ◌+◌, ◌≤◌, ◌≡◌, ◌↔◌, refl, List, [], ◌∷◌, true, false, All, arith}
use ekizu.Prelude.{leb, if◌then◌else◌}
use ekizu.Dave.Buffer.{size_max, checked_add_lem}
use ekizu.Dave.Ranges.{Range, max_end, validate_unencrypted_ranges}

-- Both numbers of the range are `size_t`.
abbrev pub IsWord : Range → Type 0
IsWord r = (r.offset ≤ size_max) × (r.size ≤ size_max)

-- Each range ends within the frame, and no later range starts before its end.
abbrev pub IsOrdered : ℕ → List Range → Type 0
IsOrdered n [] = Unit {0}
IsOrdered n (r ∷ rs) =
    (r.offset + r.size ≤ n) × All (λ q. r.offset + r.size ≤ q.offset) rs × IsOrdered n rs

-- The validation against the next range alone.
abbrev pub IsChain : ℕ → List Range → Type 0
IsChain n [] = Unit {0}
IsChain n (r ∷ rs) = (r.offset + r.size ≤ max_end rs n) × IsChain n rs

max_end_word : (rs : List Range) (n : ℕ) → All IsWord rs → n ≤ size_max → max_end rs n ≤ size_max
max_end_word [] n w h = h
max_end_word (r ∷ rs) n w h = w.0.0

-- One round of the loop, without the overflow flag.
validate_round :
    (r : Range) (rs : List Range) (n : ℕ)
    → IsWord r
    → max_end rs n ≤ size_max
    → validate_unencrypted_ranges (r ∷ rs) n
      ≡ (if leb (r.offset + r.size) (max_end rs n) then validate_unencrypted_ranges rs n else false)
unfolding validate_unencrypted_ranges
validate_round r rs n w h = ground (arith, checked_add_lem r.offset r.size)

pub validate-IsChain :
    (rs : List Range) (n : ℕ)
    → All IsWord rs
    → n ≤ size_max
    → (validate_unencrypted_ranges rs n ≡ true) ↔ IsChain n rs
validate-IsChain [] n w h = (λ _. tt, λ _. unfold validate_unencrypted_ranges in refl)
validate-IsChain (r ∷ rs) n w h =
    let ih = validate-IsChain rs n w.1 h in
    let round = validate_round r rs n w.0 (max_end_word rs n w.1 h) in
    (
      λ e. (ground arith, ih.0 (ground arith)),
      λ (fits, chain). let rest = ih.1 chain in ground arith,
    )

-- A bound below the first offset of ordered ranges is below all of them.
All-above :
    (e n : ℕ) (q : Range) (rs : List Range)
    → e ≤ q.offset
    → IsOrdered n (q ∷ rs)
    → All (λ x. e ≤ x.offset) rs
All-above e n q [] h o = tt
All-above e n q (x ∷ rs) h o =
    let next : e ≤ x.offset = omega arith in (next, All-above e n x rs next o.2)

IsChain-IsOrdered : (n : ℕ) (rs : List Range) → IsChain n rs → IsOrdered n rs
IsChain-IsOrdered n [] c = tt
IsChain-IsOrdered n (r ∷ []) c = (c.0, tt, tt)
IsChain-IsOrdered n (r ∷ q ∷ rs) c =
    let rest = IsChain-IsOrdered n (q ∷ rs) c.1 in
    (omega arith, (c.0, All-above (r.offset + r.size) n q rs c.0 rest), rest)

IsOrdered-IsChain : (n : ℕ) (rs : List Range) → IsOrdered n rs → IsChain n rs
IsOrdered-IsChain n [] o = tt
IsOrdered-IsChain n (r ∷ []) o = (o.0, tt)
IsOrdered-IsChain n (r ∷ q ∷ rs) o = (o.1.0, IsOrdered-IsChain n (q ∷ rs) o.2)

-- For ranges and a frame size that are `size_t` values, the validation succeeds exactly if every
-- range ends within the frame and no later range starts before the end of an earlier one.
pub validate_iff :
    (rs : List Range) (n : ℕ)
    → All IsWord rs
    → n ≤ size_max
    → (validate_unencrypted_ranges rs n ≡ true) ↔ IsOrdered n rs
validate_iff rs n w h =
    let chain = validate-IsChain rs n w h in
    (λ e. IsChain-IsOrdered n rs (chain.0 e), λ o. chain.1 (IsOrdered-IsChain n rs o))
