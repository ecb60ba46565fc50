-- ===== src/Dave/Leb128/Bytes.antt =====
-- A test that a list holds bytes, for concrete lists.
use ekizu.Prelude.{ℕ, ◌≡◌, List, [], ◌∷◌, Bool, true, ltb, ◌&&◌, All, arith}
use ekizu.Dave.Leb128.{IsByte}

abbrev pub all_bytes : List ℕ → Bool
all_bytes [] = true
all_bytes (x ∷ xs) = ltb x 256 && all_bytes xs

pub all_bytes-IsByte : (xs : List ℕ) → all_bytes xs ≡ true → All IsByte xs
all_bytes-IsByte [] h = tt
all_bytes-IsByte (x ∷ xs) h = (ground arith, all_bytes-IsByte xs (ground arith))
