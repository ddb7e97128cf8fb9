-- ===== src/Base/Bits.antt =====
-- Bit operations at variables: the equation for the lowest digit, and what the code needs of it.
use Prim.Native.Nat.{min, max, digits, bit_and-bitwise, bit_or-bitwise}
use native.Mathlib.Nat.{pow-suc}
use libgpuarray.Base.{
  ℕ, zero, suc, ◌+◌, ◌*◌, ◌/◌, ◌%◌, ◌^◌, ◌≤◌, ◌<◌, ◌≡◌, refl, ap, arith, bit_and, bit_or,
}

-- More fuel than digits changes nothing.
enough_digits :
    (on_zero : ℕ → ℕ) (op : ℕ → ℕ → ℕ) (f g x y : ℕ)
    → x ≤ f
    → x ≤ g
    → digits on_zero op f x y ≡ digits on_zero op g x y
enough_digits z op zero zero x y h k = refl
enough_digits z op zero (suc g) zero y h k = refl
enough_digits z op zero (suc g) (suc x) y h k = absurd (omega arith)
enough_digits z op (suc f) zero zero y h k = refl
enough_digits z op (suc f) zero (suc x) y h k = absurd (omega arith)
enough_digits z op (suc f) (suc g) zero y h k = refl
enough_digits z op (suc f) (suc g) (suc x) y h k =
    rw (enough_digits z op f g (suc x / 2) (y / 2) (omega arith) (omega arith))

bit_and-zero_left : (y : ℕ) → bit_and 0 y ≡ 0
bit_and-zero_left y = bit_and-bitwise 0 y

bit_and_digit : (x y : ℕ) → bit_and x y ≡ bit_and (x / 2) (y / 2) * 2 + min (x % 2) (y % 2)
bit_and_digit zero y = omega (arith, bit_and-zero_left y, bit_and-zero_left (y / 2))
bit_and_digit (suc x) y = omega (
  arith,
  bit_and-bitwise (suc x) y,
  bit_and-bitwise (suc x / 2) (y / 2),
  enough_digits (λ b. zero) min x (suc x / 2) (suc x / 2) (y / 2) (omega arith) (omega arith),
)

bit_and-le_fuel : (f x y : ℕ) → x ≤ f → bit_and x y ≤ y
bit_and-le_fuel f zero y h = omega (arith, bit_and-zero_left y)
bit_and-le_fuel zero (suc x) y h = absurd (omega arith)
bit_and-le_fuel (suc f) (suc x) y h =
    omega (arith, bit_and_digit (suc x) y, bit_and-le_fuel f (suc x / 2) (y / 2) (omega arith))

-- A masked number is at most the mask.
pub bit_and-le : (x y : ℕ) → bit_and x y ≤ y
bit_and-le x y = bit_and-le_fuel x x y (omega arith)

bit_or-zero_left : (y : ℕ) → bit_or 0 y ≡ y
bit_or-zero_left y = bit_or-bitwise 0 y

bit_or_digit : (x y : ℕ) → bit_or x y ≡ bit_or (x / 2) (y / 2) * 2 + max (x % 2) (y % 2)
bit_or_digit zero y = omega (arith, bit_or-zero_left y, bit_or-zero_left (y / 2))
bit_or_digit (suc x) y = omega (
  arith,
  bit_or-bitwise (suc x) y,
  bit_or-bitwise (suc x / 2) (y / 2),
  enough_digits (λ b. b) max x (suc x / 2) (suc x / 2) (y / 2) (omega arith) (omega arith),
)

le-bit_or_fuel : (f x y : ℕ) → x ≤ f → (x ≤ bit_or x y) × (y ≤ bit_or x y)
le-bit_or_fuel f zero y h = omega (arith, bit_or-zero_left y)
le-bit_or_fuel zero (suc x) y h = absurd (omega arith)
le-bit_or_fuel (suc f) (suc x) y h =
    omega (arith, bit_or_digit (suc x) y, le-bit_or_fuel f (suc x / 2) (y / 2) (omega arith))

-- `|` clears no bit of either side.
pub le-bit_or : (x y : ℕ) → (x ≤ bit_or x y) × (y ≤ bit_or x y)
le-bit_or x y = le-bit_or_fuel x x y (omega arith)

-- `|` of two `k`-bit numbers has `k` bits.
pub bit_or-lt_pow : (k x y : ℕ) → x < 2 ^ k → y < 2 ^ k → bit_or x y < 2 ^ k
bit_or-lt_pow zero x y h g =
    let ex : x ≡ 0 = omega arith in let ey : y ≡ 0 = omega arith in rw (ex, ey) (omega arith)
bit_or-lt_pow (suc k) x y h g = omega (
  arith,
  pow-suc 2 k,
  bit_or_digit x y,
  bit_or-lt_pow k (x / 2) (y / 2) (omega (arith, pow-suc 2 k)) (omega (arith, pow-suc 2 k)),
)

bit_or-zero_right_fuel : (f x : ℕ) → x ≤ f → bit_or x 0 ≡ x
bit_or-zero_right_fuel f zero h = refl
bit_or-zero_right_fuel zero (suc x) h = absurd (omega arith)
bit_or-zero_right_fuel (suc f) (suc x) h =
    omega (arith, bit_or_digit (suc x) 0, bit_or-zero_right_fuel f (suc x / 2) (omega arith))

mul-two-pow : (hi k : ℕ) → hi * 2 ^ suc k ≡ 2 * (hi * 2 ^ k)
mul-two-pow hi k = omega (arith, ap (λ (p : ℕ). hi * p) (pow-suc 2 k))

-- Above `k` bits `|` with a `k`-bit number changes nothing.
pub bit_or_high :
    (k hi x y : ℕ) → x < 2 ^ k → y < 2 ^ k → bit_or (hi * 2 ^ k + x) y ≡ hi * 2 ^ k + bit_or x y
bit_or_high zero hi x y h g =
    let ex : x ≡ 0 = omega arith in
    let ey : y ≡ 0 = omega arith in
    rw (ex, ey) (omega (arith, bit_or-zero_right_fuel (hi * 1 + 0) (hi * 1 + 0) (omega arith)))
bit_or_high (suc k) hi x y h g =
    let low : (hi * 2 ^ suc k + x) / 2 ≡ hi * 2 ^ k + x / 2 = omega (arith, mul-two-pow hi k) in
    omega (
      arith,
      mul-two-pow hi k,
      bit_or_digit (hi * 2 ^ suc k + x) y,
      bit_or_digit x y,
      ap (λ t. bit_or t (y / 2)) low,
      bit_or_high k hi (x / 2) (y / 2) (omega (arith, pow-suc 2 k)) (omega (arith, pow-suc 2 k)),
    )
