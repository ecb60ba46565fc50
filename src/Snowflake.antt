-- ===== src/Snowflake.antt =====
-- include/ekizu/snowflake.hpp and src/snowflake.cpp: ids, their text and what is read as one. Text
-- is a list of bytes. `std::stoull` is `stoul`, as both types have 64 bits; `none` is its exception.
use ekizu.Prelude.{
  ℕ, zero, suc, ◌+◌, ◌*◌, ◌/◌, ◌%◌, ◌^◌, ◌<◌, ◌≤◌, ◌≡◌, refl, sym, ap, ◌∙◌, Bool, true, false, ◌&&◌,
  Option, none, some, List, [], ◌∷◌, ltb, ltb→lt, lt→ltb, if◌then◌else◌, if_true, if_false,
  Bool-cases, inl, inr, arith,
}
use ekizu.RateLimiter.Headers.{
  is_digit, is_space, stoul, digits_from, magnitude, signed_magnitude, skip_space, unsigned_of,
}
mod Tests

-- The JSON values that `from_json` tells apart.
pub data Value : Type 0 where
  text : List ℕ → Value
  unsigned : ℕ → Value
  other : Value

-- `std::to_string`: the digits of a number before those of `acc`, at most as many as the fuel.
unfoldable pub digits_of : ℕ → ℕ → List ℕ → List ℕ
digits_of zero n acc = acc
digits_of (suc fuel) n acc =
    let rest = digits_of fuel (n / 10) ((b'0' + n % 10) ∷ acc) in
    if ltb n 10 then (b'0' + n) ∷ acc else rest

-- A number below 2^64 has 20 digits at most.
unfoldable pub to_string : ℕ → List ℕ
unfolding digits_of
to_string n = digits_of 20 n []

unfoldable pub to_json : ℕ → Value
unfolding to_string
to_json id = text (to_string id)

unfoldable pub all_digits : List ℕ → Bool
all_digits [] = true
all_digits (c ∷ cs) = is_digit c && all_digits cs

unfoldable pub from_text : List ℕ → ℕ → Option ℕ
unfolding all_digits
from_text [] id = some id
from_text (c ∷ cs) id = if all_digits (c ∷ cs) then stoul (c ∷ cs) else some id

-- What is read into an id.
unfoldable pub from_json : Value → ℕ → Option ℕ
unfolding from_text
from_json (text cs) id = from_text cs id
from_json (unsigned n) id = some n
from_json other id = some id

unfoldable pub timestamp : ℕ → ℕ
timestamp id = id / 2 ^ 22 + 1420070400000

digits_from_digit :
    (a d : ℕ) (cs : List ℕ) → d < 10 → digits_from a ((b'0' + d) ∷ cs) ≡ digits_from (a * 10 + d) cs
unfolding digits_from is_digit
digits_from_digit a d cs h = ground arith

one_digit : (n : ℕ) (cs : List ℕ) → n < 10 → digits_from 0 ((b'0' + n) ∷ cs) ≡ digits_from n cs
one_digit n cs h = digits_from_digit 0 n cs h ∙ ap (λ a. digits_from a cs) (omega arith)

no_digit : (n : ℕ) → digits_from n [] ≡ n
unfolding digits_from
no_digit n = refl

lower : (k n : ℕ) → n < 10 ^ suc k → n / 10 < 10 ^ k
lower k n h = omega (arith, h)

joined : (n : ℕ) → n / 10 * 10 + n % 10 ≡ n
joined n = omega arith

-- What is read of the digits of a number goes on behind it.
from-digits_of :
    (fuel n : ℕ) (acc : List ℕ)
    → n < 10 ^ suc fuel
    → digits_from 0 (digits_of (suc fuel) n acc) ≡ digits_from n acc
unfolding digits_of
from-digits_of zero n acc h = ap (digits_from 0) (if_true _ _ (lt→ltb n 10 h)) ∙ one_digit n acc h
from-digits_of (suc fuel) n acc h = elim (Bool-cases (ltb n 10)) [
  | inl small ↦ ap (digits_from 0) (if_true _ _ small) ∙ one_digit n acc (ltb→lt n 10 small)
  | inr big ↦
      ap (digits_from 0) (if_false _ _ big)
      ∙ (from-digits_of fuel (n / 10) ((b'0' + n % 10) ∷ acc) (lower (suc fuel) n h)
          ∙ (digits_from_digit (n / 10) (n % 10) acc (omega arith)
              ∙ ap (λ a. digits_from a acc) (joined n)))
]

-- Digits, the first of which is given.
digits-stoul :
    (c : ℕ) (cs : List ℕ)
    → is_digit c ≡ true
    → stoul (c ∷ cs) ≡ unsigned_of (some (false, digits_from 0 (c ∷ cs)))
unfolding stoul skip_space is_space signed_magnitude magnitude is_digit
digits-stoul c cs h = ground arith

all_digits-digits_of :
    (fuel n : ℕ) (acc : List ℕ) → all_digits acc ≡ true → all_digits (digits_of fuel n acc) ≡ true
unfolding all_digits digits_of is_digit
all_digits-digits_of zero n acc h = h
all_digits-digits_of (suc fuel) n acc h =
    ground (arith, all_digits-digits_of fuel (n / 10) ((b'0' + n % 10) ∷ acc))

starts_digit :
    (fuel n : ℕ) (acc : List ℕ)
    → n < 10 ^ suc fuel
    → (c : ℕ) × (cs : List ℕ) × (digits_of (suc fuel) n acc ≡ c ∷ cs)
unfolding digits_of
starts_digit zero n acc h = (b'0' + n, acc, if_true _ _ (lt→ltb n 10 h))
starts_digit (suc fuel) n acc h = elim (Bool-cases (ltb n 10)) [
  | inl small ↦ (b'0' + n, acc, if_true _ _ small)
  | inr big ↦
      let (c, cs, e) = starts_digit fuel (n / 10) ((b'0' + n % 10) ∷ acc) (lower (suc fuel) n h) in
      (c, cs, if_false _ _ big ∙ e)
]

first_digit : (c : ℕ) (cs : List ℕ) → all_digits (c ∷ cs) ≡ true → is_digit c ≡ true
unfolding all_digits
first_digit c cs h = ground arith

from_text_digits :
    (n id c : ℕ) (cs : List ℕ)
    → n < 2 ^ 64
    → all_digits (c ∷ cs) ≡ true
    → digits_from 0 (c ∷ cs) ≡ n
    → from_text (c ∷ cs) id ≡ some n
unfolding from_text unsigned_of
from_text_digits n id c cs h d e =
    if_true _ _ d
    ∙ (digits-stoul c cs (first_digit c cs d)
        ∙ (ap (λ m. unsigned_of (some (false, m))) e ∙ if_true _ _ (lt→ltb n (2 ^ 64) h)))

-- The JSON text of an id is read as that id, whatever is there before.
pub from_json-to_json : (n id : ℕ) → n < 2 ^ 64 → from_json (to_json n) id ≡ some n
unfolding from_json to_json to_string
from_json-to_json n id h =
    let bound : n < 10 ^ 20 = omega (arith, h) in
    let (c, cs, e) = starts_digit 19 n [] bound in
    ap (λ t. from_text t id) e
    ∙ from_text_digits n id c cs h (sym (ap all_digits e) ∙ all_digits-digits_of 20 n [] refl)
        (sym (ap (digits_from 0) e) ∙ (from-digits_of 19 n [] bound ∙ no_digit n))
