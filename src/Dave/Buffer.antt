-- ===== src/Dave/Buffer.antt =====
-- src/dave/buffer_utils.hpp: views into byte buffers. A view outside its buffer is undefined
-- behaviour in the source, and `none` here. Values are stored little-endian.
use ekizu.Prelude.{ℕ, zero, suc, ◌+◌, ◌-◌, ◌*◌, ◌/◌, ◌%◌, ◌^◌, ◌≤◌, ◌≡◌, refl, ap, arith}
use ekizu.Prelude.{List, [], ◌∷◌, ◌++◌, Option, none, some, Bool, true, false, ◌&&◌}
use ekizu.Prelude.{ltb, leb, ◌==◌, if◌then◌else◌, length, take, drop, length-take, length-drop}
use ekizu.Prelude.{length-append, take_append, drop_append, drop-drop, take_add}
use native.Mathlib.Nat.{le-div_iff_mul-le}

infixl 5 ◌>>=◌
abbrev pub ◌>>=◌ {ℓ κ} : {A : Type ℓ} {B : Type κ} → Option A → (A → Option B) → Option B
none >>= f = none
some a >>= f = f a

-- Inversion of a chain that succeeds.
pub >>=-eq-some {ℓ κ} :
    {A : Type ℓ} {B : Type κ} (m : Option A) (f : A → Option B) {b : B}
    → (m >>= f) ≡ some b
    → (a : A) × (m ≡ some a) × (f a ≡ some b)
>>=-eq-some (some a) f h = (a, refl, h)
>>=-eq-some none f h = cc

pub >>=_assoc {ℓ κ μ} :
    {A : Type ℓ} {B : Type κ} {C : Type μ} (m : Option A) (f : A → Option B) (g : B → Option C)
    → ((m >>= f) >>= g) ≡ (m >>= λ a. f a >>= g)
>>=_assoc none f g = refl
>>=_assoc (some a) f g = refl

abbrev pub size_max : ℕ
size_max = 2 ^ 64 - 1

-- `a + b` and `a - b` of `size_t`, which wrap around.
abbrev pub add_size : ℕ → ℕ → ℕ
add_size a b = (a + b) % 2 ^ 64

abbrev pub sub_size : ℕ → ℕ → ℕ
sub_size a b = (a + 2 ^ 64 - b) % 2 ^ 64

unfoldable pub subspan : List ℕ → ℕ → ℕ → Option (List ℕ)
subspan buf offset count =
    if leb (offset + count) (length buf) then some (take count (drop offset buf)) else none

unfoldable pub last : List ℕ → ℕ → Option (List ℕ)
last buf count = if leb count (length buf) then some (drop (length buf - count) buf) else none

-- `copy_at`: the bytes replace those from `offset` on.
unfoldable pub copy_at : List ℕ → ℕ → List ℕ → Option (List ℕ)
copy_at dst offset src =
    if leb (offset + length src) (length dst)
    then some (take offset dst ++ (src ++ drop (offset + length src) dst))
    else none

unfoldable pub bytes_equal : List ℕ → List ℕ → Bool
bytes_equal [] [] = true
bytes_equal [] (y ∷ ys) = false
bytes_equal (x ∷ xs) [] = false
bytes_equal (x ∷ xs) (y ∷ ys) = x == y && bytes_equal xs ys

unfoldable pub ends_with : List ℕ → List ℕ → Bool
unfolding bytes_equal
ends_with buf suffix =
    if ltb (length buf) (length suffix)
    then false
    else bytes_equal (drop (length buf - length suffix) buf) suffix

-- The bytes of a `uint32_t` as `write_value` stores them.
unfoldable pub u32_bytes : ℕ → List ℕ
u32_bytes v = v % 256 ∷ v / 256 % 256 ∷ v / 65536 % 256 ∷ v / 16777216 % 256 ∷ []

unfoldable pub checked_add : ℕ → ℕ → Option ℕ
checked_add a b = if ltb (size_max - b) a then none else some (a + b)

unfoldable pub checked_mul : ℕ → ℕ → Option ℕ
checked_mul a zero = some 0
checked_mul a (suc b) = if ltb (size_max / suc b) a then none else some (a * suc b)

-- `checked_add` gives the true sum where it fits `size_t`, and nothing where it would wrap.
pub checked_add_lem :
    (a b : ℕ)
    → b ≤ size_max
    → checked_add a b ≡ (if leb (a + b) size_max then some (a + b) else none)
unfolding checked_add
checked_add_lem a b h = ground arith

pub checked_mul_lem :
    (a b : ℕ) → checked_mul a b ≡ (if leb (a * b) size_max then some (a * b) else none)
unfolding checked_mul
checked_mul_lem a zero = ground arith
checked_mul_lem a (suc b) =
    ground (arith, le-div_iff_mul-le {k = suc b} {x = a} {y = size_max} (omega arith))

pub bytes_equal_iff : (xs ys : List ℕ) → (bytes_equal xs ys ≡ true) → xs ≡ ys
unfolding bytes_equal
bytes_equal_iff [] [] h = refl
bytes_equal_iff [] (y ∷ ys) h = cc
bytes_equal_iff (x ∷ xs) [] h = cc
bytes_equal_iff (x ∷ xs) (y ∷ ys) h = ground (arith, bytes_equal_iff xs ys)

pub bytes_equal_refl : (xs : List ℕ) → bytes_equal xs xs ≡ true
unfolding bytes_equal
bytes_equal_refl [] = refl
bytes_equal_refl (x ∷ xs) = ground (arith, bytes_equal_refl xs)

-- Behind any bytes, a suffix is found.
pub ends_with-append : (xs suffix : List ℕ) → ends_with (xs ++ suffix) suffix ≡ true
unfolding ends_with
ends_with-append xs suffix = ground (
  arith,
  length-append xs suffix,
  drop_append (length (xs ++ suffix) - length suffix) xs suffix,
  bytes_equal_refl suffix,
)

-- The last bytes of an append are its second part.
pub last-append : (xs ys : List ℕ) (n : ℕ) → n ≡ length ys → last (xs ++ ys) n ≡ some ys
unfolding last
last-append xs ys n e =
    ground (arith, length-append xs ys, drop_append (length (xs ++ ys) - n) xs ys)

-- A view of the middle part of three.
pub subspan_middle :
    (xs ys zs : List ℕ) (i n : ℕ)
    → i ≡ length xs
    → n ≡ length ys
    → subspan (xs ++ (ys ++ zs)) i n ≡ some ys
unfolding subspan
subspan_middle xs ys zs i n hi hn = ground (
  arith,
  length-append xs (ys ++ zs),
  length-append ys zs,
  drop_append i xs (ys ++ zs) hi,
  take_append n ys zs hn,
)

-- A view that is not undefined lies within the buffer, and reads it there.
pub subspan-eq-some :
    (buf : List ℕ) (i n : ℕ) (a : List ℕ)
    → subspan buf i n ≡ some a
    → (i + n ≤ length buf) × (a ≡ take n (drop i buf))
unfolding subspan
subspan-eq-some buf i n a h = ground arith

pub length-subspan : (buf : List ℕ) (i n : ℕ) (a : List ℕ) → subspan buf i n ≡ some a → length a ≡ n
length-subspan buf i n a h =
    let (fits, e) = subspan-eq-some buf i n a h in
    omega (arith, ap length e, length-take n (drop i buf), length-drop i buf)

-- Two adjacent views are one.
pub subspan_adjacent :
    (buf : List ℕ) (i m j n : ℕ) (a b : List ℕ)
    → subspan buf i m ≡ some a
    → subspan buf j n ≡ some b
    → j ≡ i + m
    → a ++ b ≡ take (m + n) (drop i buf)
subspan_adjacent buf i m j n a b ha hb hj = rw (
  (subspan-eq-some buf i m a ha).1,
  (subspan-eq-some buf j n b hb).1,
  hj,
  ← drop-drop m i buf,
  take_add m n (drop i buf),
)
