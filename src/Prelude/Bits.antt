-- ===== src/Prelude/Bits.antt =====
-- `&` and `|` of machine words as arithmetic: bytes by evaluation, fields of any width by the
-- recursion on the lowest digit.
use Prim.Native.Nat.{ℕ, zero, suc, ◌+◌, ◌-◌, ◌*◌, ◌/◌, ◌%◌, ◌^◌, ◌≤◌, ◌<◌, min, max}
use Prim.Native.Nat.{bit_and, bit_or, digits, bit_and-bitwise, bit_or-bitwise}
use mathlib.Core.Path.{◌≡◌, refl, ap, sym, ◌∙◌}
use mathlib.Core.Bool.{Bool, true, ◌&&◌}
use mathlib.Core.WellFounded.{Acc, WellFounded}
use native.Mathlib.Nat.{
  pow-suc, div-add-mod, mod-lt, mod-eq_of_lt, mul-add-mod_self_left, mul_assoc,
}
use native.Mathlib.Omega.{arith}
use ekizu.Prelude.Tests.{◌==◌, ==_iff}

acc_under : (k n : ℕ) → n < k → Acc ◌<◌ n
acc_under zero n h = absurd (omega arith)
acc_under (suc k) n h = Acc.intro n (λ m hm. acc_under k m (omega arith))

unfoldable pub lt_wf : WellFounded ◌<◌
unfolding acc_under
lt_wf = record { apply = λ n. acc_under (suc n) n (omega arith) }

-- Whether a test holds of every number below the bound, by running it.
unfoldable pub holds_below : (ℕ → Bool) → ℕ → Bool
holds_below test zero = true
holds_below test (suc bound) = holds_below test bound && test bound

pub holds_below_lem :
    (test : ℕ → Bool) (bound : ℕ)
    → holds_below test bound ≡ true
    → (v : ℕ) → v < bound
    → test v ≡ true
unfolding holds_below
holds_below_lem test zero ran v small = absurd (omega arith)
holds_below_lem test (suc bound) ran v small = ground (arith, holds_below_lem test bound _ v)

module _ (f g : ℕ → ℕ) where
  pub same_below :
      (bound : ℕ) → holds_below (λ v. f v == g v) bound ≡ true → (v : ℕ) → v < bound → f v ≡ g v
  same_below bound ran v small = (==_iff (f v) (g v)).0 (holds_below_lem _ bound ran v small)

pub and_7f : (b : ℕ) → b < 256 → bit_and b 0x7f ≡ b % 128
unfolding holds_below
and_7f = same_below _ _ 256 refl

pub and_80 : (b : ℕ) → b < 256 → bit_and b 0x80 ≡ b / 128 * 128
unfolding holds_below
and_80 = same_below _ _ 256 refl

pub or_80 : (b : ℕ) → b < 128 → bit_or 0x80 b ≡ b + 128
unfolding holds_below
or_80 = same_below _ _ 128 refl

-- Fuel for the digit recursion beyond the number itself changes nothing.
module _ (rest : ℕ → ℕ) (digit : ℕ → ℕ → ℕ) where
  digits_enough : (a b n m : ℕ) → a ≤ n → a ≤ m → digits rest digit n a b ≡ digits rest digit m a b
  digits_enough zero b zero zero hn hm = refl
  digits_enough zero b zero (suc m) hn hm = refl
  digits_enough zero b (suc n) zero hn hm = refl
  digits_enough zero b (suc n) (suc m) hn hm = refl
  digits_enough (suc a) b zero m hn hm = absurd (omega arith)
  digits_enough (suc a) b (suc n) zero hn hm = absurd (omega arith)
  digits_enough (suc a) b (suc n) (suc m) hn hm =
      omega (arith, digits_enough (suc a / 2) (b / 2) n m (omega arith) (omega arith))

pub or_step : (a b : ℕ) → bit_or a b ≡ bit_or (a / 2) (b / 2) * 2 + max (a % 2) (b % 2)
or_step zero b = omega (arith, bit_or-bitwise 0 b, bit_or-bitwise 0 (b / 2))
or_step (suc a) b = omega (
  arith,
  bit_or-bitwise (suc a) b,
  bit_or-bitwise (suc a / 2) (b / 2),
  digits_enough (λ y. y) max (suc a / 2) (b / 2) a (suc a / 2) (omega arith) (omega arith),
)

pub and_step : (a b : ℕ) → bit_and a b ≡ bit_and (a / 2) (b / 2) * 2 + min (a % 2) (b % 2)
and_step zero b = omega (arith, bit_and-bitwise 0 b, bit_and-bitwise 0 (b / 2))
and_step (suc a) b = omega (
  arith,
  bit_and-bitwise (suc a) b,
  bit_and-bitwise (suc a / 2) (b / 2),
  digits_enough (λ y. 0) min (suc a / 2) (b / 2) a (suc a / 2) (omega arith) (omega arith),
)

pub zero-or : (b : ℕ) → bit_or 0 b ≡ b
zero-or b = bit_or-bitwise 0 b

shifted_suc : (q k : ℕ) → q * 2 ^ suc k ≡ 2 * (q * 2 ^ k)
shifted_suc q k = omega (arith, ap (λ (t : ℕ). q * t) (pow-suc 2 k))

-- A word below `2 ^ k` and a field shifted by `k` do not overlap, so `|` adds them.
pub or_shifted : (k low q : ℕ) → low < 2 ^ k → bit_or low (q * 2 ^ k) ≡ low + q * 2 ^ k
or_shifted zero zero q h = omega (arith, zero-or (q * 2 ^ 0))
or_shifted zero (suc low) q h = absurd (omega arith)
or_shifted (suc k) low q h = omega (
  arith,
  or_step low (q * 2 ^ suc k),
  shifted_suc q k,
  pow-suc 2 k,
  ap (λ (t : ℕ). bit_or (low / 2) t) halve,
  or_shifted k (low / 2) q (omega (arith, pow-suc 2 k)),
)
  where
    halve : q * 2 ^ suc k / 2 ≡ q * 2 ^ k
    halve = omega (arith, shifted_suc q k)

and-zero_fuel : (n a : ℕ) → a ≤ n → bit_and a 0 ≡ 0
and-zero_fuel n zero h = bit_and-bitwise 0 0
and-zero_fuel zero (suc a) h = absurd (omega arith)
and-zero_fuel (suc n) (suc a) h =
    omega (arith, and_step (suc a) 0, and-zero_fuel n (suc a / 2) (omega arith))

pub and-zero : (a : ℕ) → bit_and a 0 ≡ 0
and-zero a = and-zero_fuel a a (omega arith)

and_3 : (a : ℕ) → bit_and a 3 ≡ a % 4
and_3 a = omega (arith, and_step a 3, and_step (a / 2) 1, and-zero (a / 2 / 2))

-- The mask of seven ones on a word of any width.
pub low_seven : (a : ℕ) → bit_and a 0x7f ≡ a % 128
low_seven a = omega (
  arith,
  and_step a 0x7f,
  and_step (a / 2) 0x3f,
  and_step (a / 2 / 2) 0x1f,
  and_step (a / 2 / 2 / 2) 0xf,
  and_step (a / 2 / 2 / 2 / 2) 7,
  and_3 (a / 2 / 2 / 2 / 2 / 2),
)

or_comm_fuel : (n a b : ℕ) → a ≤ n → b ≤ n → bit_or a b ≡ bit_or b a
or_comm_fuel n zero zero ha hb = refl
or_comm_fuel zero (suc a) b ha hb = absurd (omega arith)
or_comm_fuel zero zero (suc b) ha hb = absurd (omega arith)
or_comm_fuel (suc n) zero (suc b) ha hb = omega (
  arith,
  or_step 0 (suc b),
  or_step (suc b) 0,
  or_comm_fuel n 0 (suc b / 2) (omega arith) (omega arith),
)
or_comm_fuel (suc n) (suc a) b ha hb = omega (
  arith,
  or_step (suc a) b,
  or_step b (suc a),
  or_comm_fuel n (suc a / 2) (b / 2) (omega arith) (omega arith),
)

pub or_comm : (a b : ℕ) → bit_or a b ≡ bit_or b a
or_comm a b = or_comm_fuel (a + b) a b (omega arith) (omega arith)

-- The remainder by `2 * m`, by the lowest digit and the remainder of the rest.
mod_twice : (m a : ℕ) → 0 < m → a % (2 * m) ≡ a / 2 % m * 2 + a % 2
mod_twice m a pos =
    let c = a / 2 % m * 2 + a % 2 in
    let small : c < 2 * m = omega (arith, mod-lt (a / 2) {m = m} pos) in
    let product : 2 * m * (a / 2 / m) ≡ 2 * (m * (a / 2 / m)) = mul_assoc 2 m (a / 2 / m) in
    let whole : 2 * m * (a / 2 / m) + c ≡ a = omega (arith, div-add-mod (a / 2) m, product) in
    ap (λ (x : ℕ). x % (2 * m)) (sym whole)
    ∙ mul-add-mod_self_left (2 * m) (a / 2 / m) c
    ∙ mod-eq_of_lt small

power_positive : (k : ℕ) → 0 < 2 ^ k
power_positive zero = omega arith
power_positive (suc k) = omega (arith, pow-suc 2 k, power_positive k)

-- A mask of `k` ones takes the remainder by `2 ^ k`.
pub and_mask : (k a : ℕ) → bit_and a (2 ^ k - 1) ≡ a % 2 ^ k
and_mask zero a = omega (arith, and-zero a)
and_mask (suc k) a =
    let pos = power_positive k in
    let twice : 2 ^ suc k ≡ 2 * 2 ^ k = omega (arith, pow-suc 2 k) in
    let half : (2 * 2 ^ k - 1) / 2 ≡ 2 ^ k - 1 = omega arith in
    let odd : (2 * 2 ^ k - 1) % 2 ≡ 1 = omega arith in
    rw twice (
      omega (
        arith,
        and_step a (2 * 2 ^ k - 1),
        ap (λ (t : ℕ). bit_and (a / 2) t) half,
        odd,
        and_mask k (a / 2),
        mod_twice (2 ^ k) a pos,
      ))
