-- ===== src/Factor/Divide.antt =====
-- Division by powers in src/util/integerfactoring.c: gaICtz, trial division, and taking a factor out.
use libgpuarray.Base.{
  ℕ, zero, suc, ◌+◌, ◌*◌, ◌/◌, ◌%◌, ◌^◌, ◌≤◌, ◌<◌, ◌&&◌, Option, none, some, ltb, leb, ◌==◌,
  if◌then◌else◌, ◌≡◌, inl, inr, refl, sym, ap, ◌∙◌, arith, Bool-cases, ==_iff, ltb→lt,
}
use native.Mathlib.Nat.{
  div-le_self, le_trans, mul-le-mul_left, mod-add-div', zero-mul, pow-succ', mul_assoc,
  div-div-eq-div-mul,
}
use native.Mathlib.Numerals.{add-one}
use libgpuarray.Factor.Smooth.{ctz_loop, gai_ctz}
use libgpuarray.Factor.Search.{trial, divide_out}

-- The shifted number is odd, and shifting it back restores the number.
abbrev pub Shifted : ℕ → ℕ → Type 0
Shifted n z = (n ≡ 2 ^ z * (n / 2 ^ z)) × (n / 2 ^ z % 2 ≡ 1)

ctz_loop-Shifted : (rounds n : ℕ) → 0 < n → n < 2 ^ rounds → Shifted n (ctz_loop rounds n)
unfolding ctz_loop
ctz_loop-Shifted zero n p h = absurd (omega arith)
ctz_loop-Shifted (suc rounds) n p h = elim (Bool-cases (n % 2 == 1)) [
  | inl e ↦ rw e (omega arith, ground arith)
  | inr e ↦ rw e (
      let r = ctz_loop-Shifted rounds (n / 2) (ground arith) (omega (arith, pow-succ' 2 rounds)) in
      let z = ctz_loop rounds (n / 2) in
      let d : n / 2 ^ suc z ≡ n / 2 / 2 ^ z =
        ap (λ t. n / t) (pow-succ' 2 z) ∙ sym (div-div-eq-div-mul n 2 (2 ^ z)) in
      let even : n ≡ 2 * (n / 2) = ground arith in
      (
        even
            ∙ ap (λ t. 2 * t) (r.0)
            ∙ sym (mul_assoc 2 (2 ^ z) (n / 2 / 2 ^ z))
            ∙ ap (λ t. t * (n / 2 / 2 ^ z)) (sym (pow-succ' 2 z))
            ∙ ap (λ t. 2 ^ suc z * t) (sym d),
        rw d (r.1),
      ))
]

-- For a number that is not 0, gaICtz counts the twos in it.
pub gai_ctz-Shifted : (n : ℕ) → 0 < n → n < 2 ^ 64 → Shifted n (gai_ctz n)
unfolding gai_ctz
gai_ctz-Shifted n p h = ctz_loop-Shifted 64 n p h

-- Trial division answers a divisor in its range.
pub trial-divides : (fuel k f x g : ℕ) → trial fuel k f x ≡ some g → (f ≤ g) × (g ≤ k) × (x % g ≡ 0)
unfolding trial
trial-divides zero k f x g e = cc
trial-divides (suc fuel) k f x g e =
    elim (Bool-cases (leb f k && leb (f * f % 2 ^ 64) x && leb f 0xffffffff)) [
      | inl a ↦
          let e' : (if x % f == 0 then some f else trial fuel k (f + 2) x) ≡ some g = rw a at e in
          elim (Bool-cases (x % f == 0)) [
            | inl b ↦
                let same : some f ≡ some g = rw b at e' in
                let h : f ≡ g = cc in rw (← h) (omega arith, ground arith, (==_iff (x % f) 0).0 b)
            | inr b ↦
                let r = trial-divides fuel k (f + 2) x g (rw b at e') in (omega arith, r.1, r.2)
          ]
      | inr a ↦ let none_some : ◌≡◌ {A = Option ℕ} none (some g) = rw a at e in cc
    ]

quotient-pos : (x f : ℕ) → 0 < x → x / f * f ≡ x → 0 < x / f
quotient-pos x f q e = elim (Bool-cases (ltb 0 (x / f))) [
  | inl a ↦ ltb→lt 0 (x / f) a
  | inr a ↦
      let z : x / f ≡ 0 = ground arith in
      let w : 0 ≡ x = sym (zero-mul f) ∙ ap (λ t. t * f) (sym z) ∙ e in absurd (omega arith)
]

pub divide_out-divides :
    (fuel f x c : ℕ)
    → 0 < f
    → 0 < x
    → x % f ≡ 0
    → ((divide_out fuel f x c).0 * f ^ (divide_out fuel f x c).1 ≡ x * f ^ c)
      × (0 < (divide_out fuel f x c).0)
unfolding divide_out
divide_out-divides zero f x c p q e = (refl, q)
divide_out-divides (suc fuel) f x c p q e =
    let whole : x / f * f ≡ x = omega (arith, mod-add-div' x f) in
    let moved : x / f * f ^ suc c ≡ x * f ^ c =
      ap (λ t. x / f * t) (pow-succ' f c)
      ∙ sym (mul_assoc (x / f) f (f ^ c))
      ∙ ap (λ t. t * f ^ c) whole in
    let q' : 0 < x / f = quotient-pos x f q whole in
    elim (Bool-cases (x / f % f == 0)) [
      | inl a ↦
          rw (a, add-one c)
            (let r = divide_out-divides fuel f (x / f) (suc c) p q' ((==_iff _ 0).0 a) in
              (r.0 ∙ moved, r.1))
      | inr a ↦ rw (a, add-one c) (moved, q')
    ]

divide_out-le : (fuel f x c : ℕ) → (divide_out fuel f x c).0 ≤ x
unfolding divide_out
divide_out-le zero f x c = omega arith
divide_out-le (suc fuel) f x c =
    let less : x / f ≤ x = div-le_self x f in
    elim (Bool-cases (x / f % f == 0)) [
      | inl a ↦ rw a (le_trans (divide_out-le fuel f (x / f) (c + 1)) less)
      | inr a ↦ rw a less
    ]

-- What is left is smaller, and odd if the number was.
pub divide_out-lt :
    (fuel f x c : ℕ) → 2 ≤ f → 0 < x → x % f ≡ 0 → (divide_out (suc fuel) f x c).0 < x
unfolding divide_out
divide_out-lt fuel f x c p q e =
    let whole : x / f * f ≡ x = omega (arith, mod-add-div' x f) in
    let q' : 0 < x / f = quotient-pos x f q whole in
    let twice : x / f * 2 ≤ x / f * f = mul-le-mul_left (x / f) p in
    let less : x / f < x = omega arith in
    elim (Bool-cases (x / f % f == 0)) [
      | inl a ↦ rw a (omega (arith, divide_out-le fuel f (x / f) (c + 1)))
      | inr a ↦ rw a less
    ]

pub odd-cofactor : (y t x : ℕ) → y * t ≡ x → x % 2 ≡ 1 → y % 2 ≡ 1
odd-cofactor y t x e h = elim (Bool-cases (y % 2 == 1)) [
  | inl a ↦ (==_iff _ 1).0 a
  | inr a ↦
      let even : y ≡ 2 * (y / 2) = ground arith in
      let z : x ≡ 2 * (y / 2 * t) = sym e ∙ ap (λ s. s * t) even ∙ mul_assoc 2 (y / 2) t in
      absurd (omega arith)
]
