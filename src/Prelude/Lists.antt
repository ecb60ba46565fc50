-- ===== src/Prelude/Lists.antt =====
-- Lists measured and cut by native numbers. A byte sequence is a list of numbers.
use Prim.Native.Nat.{ℕ, zero, suc, ◌+◌, ◌-◌, ◌≤◌, min}
use mathlib.Core.Path.{◌≡◌, refl, ap, ◌∙◌}
use mathlib.Core.List.{List, [], ◌∷◌, ◌++◌}
use mathlib.Core.Option.{Option, none, some}
use native.Mathlib.Omega.{arith}

module _ {ℓ} {A : Type ℓ} where
  abbrev pub length : List A → ℕ
  length [] = 0
  length (x ∷ xs) = suc (length xs)

  abbrev pub get_elem? : List A → ℕ → Option A
  get_elem? [] i = none
  get_elem? (x ∷ xs) zero = some x
  get_elem? (x ∷ xs) (suc i) = get_elem? xs i

  abbrev pub get_or : List A → ℕ → A → A
  get_or [] i d = d
  get_or (x ∷ xs) zero d = x
  get_or (x ∷ xs) (suc i) d = get_or xs i d

  abbrev pub take : ℕ → List A → List A
  take zero xs = []
  take (suc n) [] = []
  take (suc n) (x ∷ xs) = x ∷ take n xs

  abbrev pub drop : ℕ → List A → List A
  drop zero xs = xs
  drop (suc n) [] = []
  drop (suc n) (x ∷ xs) = drop n xs

  abbrev pub replicate : ℕ → A → List A
  replicate zero a = []
  replicate (suc n) a = a ∷ replicate n a

  abbrev pub All {κ} : (A → Type κ) → List A → Type κ
  All P [] = Unit {κ}
  All P (x ∷ xs) = P x × All P xs

module _ {ℓ} {A : Type ℓ} where
  pub length-append : (xs ys : List A) → length (xs ++ ys) ≡ length xs + length ys
  length-append [] ys = omega arith
  length-append (x ∷ xs) ys = omega (arith, length-append xs ys)

  pub take-append-drop : (n : ℕ) (xs : List A) → take n xs ++ drop n xs ≡ xs
  take-append-drop zero xs = refl
  take-append-drop (suc n) [] = refl
  take-append-drop (suc n) (x ∷ xs) = rw (take-append-drop n xs)

  pub length-take : (n : ℕ) (xs : List A) → length (take n xs) ≡ min n (length xs)
  length-take zero xs = omega arith
  length-take (suc n) [] = omega arith
  length-take (suc n) (x ∷ xs) = omega (arith, length-take n xs)

  pub length-drop : (n : ℕ) (xs : List A) → length (drop n xs) ≡ length xs - n
  length-drop zero xs = omega arith
  length-drop (suc n) [] = omega arith
  length-drop (suc n) (x ∷ xs) = omega (arith, length-drop n xs)

  pub length-replicate : (n : ℕ) (a : A) → length (replicate n a) ≡ n
  length-replicate zero a = refl
  length-replicate (suc n) a = ap suc (length-replicate n a)

  -- Cutting at the seam of an append gives the two parts back.
  pub take_append : (n : ℕ) (xs ys : List A) → n ≡ length xs → take n (xs ++ ys) ≡ xs
  take_append zero [] ys e = refl
  take_append (suc n) [] ys e = absurd (omega arith)
  take_append zero (x ∷ xs) ys e = absurd (omega arith)
  take_append (suc n) (x ∷ xs) ys e = ap (◌∷◌ x) (take_append n xs ys (omega arith))

  pub drop_append : (n : ℕ) (xs ys : List A) → n ≡ length xs → drop n (xs ++ ys) ≡ ys
  drop_append zero [] ys e = refl
  drop_append (suc n) [] ys e = absurd (omega arith)
  drop_append zero (x ∷ xs) ys e = absurd (omega arith)
  drop_append (suc n) (x ∷ xs) ys e = drop_append n xs ys (omega arith)

  pub take-all : (n : ℕ) (xs : List A) → length xs ≤ n → take n xs ≡ xs
  take-all zero [] h = refl
  take-all zero (x ∷ xs) h = absurd (omega arith)
  take-all (suc n) [] h = refl
  take-all (suc n) (x ∷ xs) h = ap (◌∷◌ x) (take-all n xs (omega arith))

  pub drop-drop : (m n : ℕ) (xs : List A) → drop m (drop n xs) ≡ drop (n + m) xs
  drop-drop m zero xs = ap (λ (k : ℕ). drop k xs) {x = m} {y = 0 + m} (omega arith)
  drop-drop zero (suc n) [] = ap (λ (k : ℕ). drop k []) {x = suc n} {y = suc n + 0} (omega arith)
  drop-drop (suc m) (suc n) [] =
      ap (λ (k : ℕ). drop k []) {x = suc (n + suc m)} {y = suc n + suc m} (omega arith)
  drop-drop m (suc n) (x ∷ xs) =
      drop-drop m n xs
      ∙ ap (λ (k : ℕ). drop k (x ∷ xs)) {x = suc (n + m)} {y = suc n + m} (omega arith)

  pub drop-all : (n : ℕ) (xs : List A) → length xs ≤ n → drop n xs ≡ []
  drop-all zero [] h = refl
  drop-all zero (x ∷ xs) h = absurd (omega arith)
  drop-all (suc n) [] h = refl
  drop-all (suc n) (x ∷ xs) h = drop-all n xs (omega arith)

  pub All-append {κ} : (P : A → Type κ) (xs ys : List A) → All P xs → All P ys → All P (xs ++ ys)
  All-append P [] ys hx hy = hy
  All-append P (x ∷ xs) ys hx hy = (hx.0, All-append P xs ys hx.1 hy)

  pub All-append_left {κ} : (P : A → Type κ) (xs ys : List A) → All P (xs ++ ys) → All P xs
  All-append_left P [] ys h = tt
  All-append_left P (x ∷ xs) ys h = (h.0, All-append_left P xs ys h.1)

  pub All-append_right {κ} : (P : A → Type κ) (xs ys : List A) → All P (xs ++ ys) → All P ys
  All-append_right P [] ys h = h
  All-append_right P (x ∷ xs) ys h = All-append_right P xs ys h.1

module _ {ℓ} {A : Type ℓ} where
  pub take-append_le : (n : ℕ) (xs ys : List A) → n ≤ length xs → take n (xs ++ ys) ≡ take n xs
  take-append_le zero xs ys h = refl
  take-append_le (suc n) [] ys h = absurd (omega arith)
  take-append_le (suc n) (x ∷ xs) ys h = ap (◌∷◌ x) (take-append_le n xs ys (omega arith))

  pub drop-append_le :
      (n : ℕ) (xs ys : List A) → n ≤ length xs → drop n (xs ++ ys) ≡ drop n xs ++ ys
  drop-append_le zero xs ys h = refl
  drop-append_le (suc n) [] ys h = absurd (omega arith)
  drop-append_le (suc n) (x ∷ xs) ys h = drop-append_le n xs ys (omega arith)

  pub take-append_ge :
      (n : ℕ) (xs ys : List A) → length xs ≤ n → take n (xs ++ ys) ≡ xs ++ take (n - length xs) ys
  take-append_ge n [] ys h = ap (λ (k : ℕ). take k ys) {x = n} {y = n - 0} (omega arith)
  take-append_ge zero (x ∷ xs) ys h = absurd (omega arith)
  take-append_ge (suc n) (x ∷ xs) ys h = ap (◌∷◌ x) (
      take-append_ge n xs ys (omega arith)
      ∙ ap (λ (k : ℕ). xs ++ take k ys) {x = n - length xs} {y = suc n - suc (length xs)}
          (omega arith))

  pub take_add : (m n : ℕ) (xs : List A) → take (m + n) xs ≡ take m xs ++ take n (drop m xs)
  take_add zero n xs = ap (λ (k : ℕ). take k xs) {x = 0 + n} {y = n} (omega arith)
  take_add (suc m) zero [] = ap (λ (k : ℕ). take k []) {x = suc m + 0} {y = suc m} (omega arith)
  take_add (suc m) (suc n) [] =
      ap (λ (k : ℕ). take k []) {x = suc m + suc n} {y = suc (m + suc n)} (omega arith)
  take_add (suc m) n (x ∷ xs) =
      ap (λ (k : ℕ). take k (x ∷ xs)) {x = suc m + n} {y = suc (m + n)} (omega arith)
      ∙ ap (◌∷◌ x) (take_add m n xs)
