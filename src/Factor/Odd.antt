-- ===== src/Factor/Odd.antt =====
-- Odd numbers, and the twos that src/util/integerfactoring.c takes out of a number.
use libgpuarray.Base.{ℕ, zero, suc, ◌+◌, ◌*◌, ◌/◌, ◌%◌, ◌^◌, ◌≡◌, refl, sym, ap, ◌∙◌, arith}
use native.Mathlib.Nat.{pow-zero, pow-succ', one-mul, mul_assoc}

odd-mul : (x y : ℕ) → x % 2 ≡ 1 → y % 2 ≡ 1 → x * y % 2 ≡ 1
odd-mul x y p q =
    let e : x ≡ 2 * (x / 2) + 1 = omega arith in
    let f : x * y ≡ 2 * (x / 2 * y) + y =
      ap (λ t. t * y) e ∙ omega (arith, mul_assoc 2 (x / 2) y) in
    omega arith

odd-pow : (f a : ℕ) → f % 2 ≡ 1 → f ^ a % 2 ≡ 1
odd-pow f zero p = ap (λ t. t % 2) (pow-zero f)
odd-pow f (suc a) p = ap (λ t. t % 2) (pow-succ' f a) ∙ odd-mul f (f ^ a) p (odd-pow f a p)

pub odd-35 : (a b : ℕ) → 3 ^ a * 5 ^ b % 2 ≡ 1
odd-35 a b = odd-mul (3 ^ a) (5 ^ b) (odd-pow 3 a refl) (odd-pow 5 b refl)

twice : (z q : ℕ) → 2 ^ suc z * q ≡ 2 * (2 ^ z * q)
twice z q = ap (λ t. t * q) (pow-succ' 2 z) ∙ mul_assoc 2 (2 ^ z) q

-- A number has one odd cofactor of a power of 2.
pub odd_unique : (z s q o : ℕ) → 2 ^ z * q ≡ 2 ^ s * o → q % 2 ≡ 1 → o % 2 ≡ 1 → q ≡ o
odd_unique zero zero q o e p r =
    sym (ap (λ t. t * q) (pow-zero 2) ∙ one-mul q) ∙ e ∙ ap (λ t. t * o) (pow-zero 2) ∙ one-mul o
odd_unique zero (suc s) q o e p r =
    absurd (omega (arith, e, twice s o, ap (λ t. t * q) (pow-zero 2), one-mul q))
odd_unique (suc z) zero q o e p r =
    absurd (omega (arith, e, twice z q, ap (λ t. t * o) (pow-zero 2), one-mul o))
odd_unique (suc z) (suc s) q o e p r =
    odd_unique z s q o (omega (arith, e, twice z q, twice s o)) p r
