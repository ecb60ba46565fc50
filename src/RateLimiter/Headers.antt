-- ===== src/RateLimiter/Headers.antt =====
-- What src/rate_limiter.cpp reads from the headers of a response: `std::stoul` and `std::stol` of
-- the C++ library on the bytes of a value. `none` is an exception (no digits, or out of range).
use ekizu.Prelude.{
  ℕ, ◌+◌, ◌-◌, ◌*◌, ◌%◌, ◌^◌, Bool, true, false, ◌&&◌, ◌||◌, Option, none, some, List, [], ◌∷◌, leb,
  ltb, ◌==◌, if◌then◌else◌,
}
use mathlib.Core.Option

unfoldable pub is_space : ℕ → Bool
is_space c = c == 32 || (leb 9 c && leb c 13)

unfoldable pub is_digit : ℕ → Bool
is_digit c = leb b'0' c && leb c b'9'

-- The number that the digits at the front spell, behind `acc`.
unfoldable pub digits_from : ℕ → List ℕ → ℕ
digits_from acc [] = acc
digits_from acc (c ∷ cs) = if is_digit c then digits_from (acc * 10 + (c - b'0')) cs else acc

unfoldable pub magnitude : List ℕ → Option ℕ
unfolding is_digit digits_from
magnitude [] = none
magnitude (c ∷ cs) = if is_digit c then some (digits_from 0 (c ∷ cs)) else none

-- A sign, if there is one, and the magnitude; `true` is a minus.
unfoldable pub signed_magnitude : List ℕ → Option (Bool × ℕ)
unfolding magnitude
signed_magnitude [] = none
signed_magnitude (c ∷ cs) =
    if c == b'-'
    then Option.map (λ n. (true, n)) (magnitude cs)
    else if c == b'+'
    then Option.map (λ n. (false, n)) (magnitude cs)
    else Option.map (λ n. (false, n)) (magnitude (c ∷ cs))

unfoldable pub skip_space : List ℕ → List ℕ
unfolding is_space
skip_space [] = []
skip_space (c ∷ cs) = if is_space c then skip_space cs else c ∷ cs

-- As C has it, a minus negates in 64 bits.
unfoldable pub unsigned_of : Option (Bool × ℕ) → Option ℕ
unsigned_of none = none
unsigned_of (some (minus, n)) =
    if ltb n (2 ^ 64) then some (if minus then (2 ^ 64 - n) % 2 ^ 64 else n) else none

unfoldable pub stoul : List ℕ → Option ℕ
unfolding signed_magnitude skip_space unsigned_of
stoul cs = unsigned_of (signed_magnitude (skip_space cs))

-- Seconds since the epoch, or before it.
pub data Time : Type 0 where
  since before : ℕ → Time

unfoldable pub signed_of : Option (Bool × ℕ) → Option Time
signed_of none = none
signed_of (some (true, n)) = if leb n (2 ^ 63) then some (Time.before n) else none
signed_of (some (false, n)) = if ltb n (2 ^ 63) then some (Time.since n) else none

unfoldable pub stol : List ℕ → Option Time
unfolding signed_magnitude skip_space signed_of
stol cs = signed_of (signed_magnitude (skip_space cs))

-- Whether `now`, in nanoseconds since the epoch, lies before the time. The source holds a time as
-- nanoseconds in 64 bits with a sign. C++ leaves it undefined where that overflows, as it does from
-- about 9.2 * 10 ^ 9 seconds on; here the number wraps around, as it does on the usual machines.
unfoldable pub is_before : ℕ → Time → Bool
is_before now (since s) =
    let nanoseconds = s * 10 ^ 9 % 2 ^ 64 in
    if ltb nanoseconds (2 ^ 63) then ltb now nanoseconds else false
is_before now (before s) =
    let nanoseconds = s * 10 ^ 9 % 2 ^ 64 in
    if leb nanoseconds (2 ^ 63) then false else ltb now (2 ^ 64 - nanoseconds)
