-- ===== src/Factor/Scale.antt =====
-- gaIClz, and the scaling by a power of 2 in the smooth searches of src/util/integerfactoring.c.
use libgpuarray.Base.{
  ℕ, zero, suc, ◌+◌, ◌-◌, ◌*◌, ◌/◌, ◌%◌, ◌^◌, ◌≤◌, ◌<◌, false, ltb, ◌==◌, ◌≡◌, inl, inr, refl, sym,
  ap, ◌∙◌, arith, Bool-cases, ltb→lt,
}
use native.Mathlib.Nat.{
  pow-zero, pow-succ', mul_comm, mul_assoc, mul-le-mul_left, mul-le-mul_right, pow-le-pow_right,
  mod-eq_of_lt, mod-lt, div-lt_iff_lt-mul, mul-zero, mod-add-div, one-le-pow,
}
use libgpuarray.Factor.Product.{pow-add}
use libgpuarray.Factor.Smooth.{clz_loop, gai_clz, scaled}

lt-mul-pow : (n a b : ℕ) → n < 2 ^ a → n * 2 ^ b < 2 ^ (a + b)
lt-mul-pow n a b h =
    let g : suc n * 2 ^ b ≤ 2 ^ a * 2 ^ b = mul-le-mul_right (2 ^ b) (omega arith) in
    omega (arith, g, pow-add 2 a b, one-le-pow b 2 (omega arith))

-- Shifting by the leading zeros loses no bit.
clz_loop-shift : (z n : ℕ) → z ≤ 64 → n < 2 ^ z → n * 2 ^ clz_loop z n < 2 ^ 64
unfolding clz_loop
clz_loop-shift zero n h l = omega (arith, pow-zero 2)
clz_loop-shift (suc z) n h l = elim (Bool-cases (n / 2 ^ z % 2 == 1)) [
  | inl a ↦ rw a (
      let e : suc z + (63 - z) ≡ 64 = omega arith in
      let g = lt-mul-pow n (suc z) (63 - z) l in rw e at g)
  | inr a ↦ rw a (
      let low : n / 2 ^ z < 2 =
        (div-lt_iff_lt-mul {k = 2 ^ z} {x = n} {y = 2} (one-le-pow z 2 (omega arith))).1
          (omega (arith, pow-succ' 2 z)) in
      let e : n / 2 ^ z ≡ 0 = ground arith in
      let w : n % 2 ^ z + 2 ^ z * 0 ≡ n =
        ap (λ t. n % 2 ^ z + 2 ^ z * t) (sym e) ∙ mod-add-div n (2 ^ z) in
      clz_loop-shift z n (omega arith)
        (omega (arith, w, mul-zero (2 ^ z), mod-lt n {m = 2 ^ z} (one-le-pow z 2 (omega arith)))))
]

pub gai_clz-shift : (n : ℕ) → n < 2 ^ 64 → n * 2 ^ gai_clz n < 2 ^ 64
unfolding gai_clz
gai_clz-shift n h = clz_loop-shift 64 n (omega arith) h

-- A doubled number under `n` that is not under `n` did not overflow.
doubled-fits :
    (t n : ℕ) → t < n → n < 2 ^ 64 → ltb (t * 2 % 2 ^ 64) n ≡ false → t * 2 % 2 ^ 64 ≡ t * 2
doubled-fits t n l b e = omega (arith, not_ltb (t * 2 % 2 ^ 64) n e)
  where
    not_ltb : (a c : ℕ) → ltb a c ≡ false → c ≤ a
    not_ltb a c f = ground arith

-- A number that is scaled to `n` or over it is a multiple by a power of 2.
pub scaled-power :
    (n c : ℕ)
    → c < n
    → n < 2 ^ 64
    → ltb (scaled n c) n ≡ false
    → (s : ℕ) × (scaled n c ≡ c * 2 ^ s) × (scaled n c < 2 ^ 64)
unfolding scaled
scaled-power n c l b e =
    let d = gai_clz c - gai_clz n in
    let up : c * 2 ^ d ≤ c * 2 ^ gai_clz c =
      mul-le-mul_left c
        (pow-le-pow_right {n = 2} (omega arith) {i = d} {j = gai_clz c} (omega arith)) in
    let small : c * 2 ^ d < 2 ^ 64 = omega (arith, gai_clz-shift c (omega arith)) in
    let exact : c * 2 ^ d % 2 ^ 64 ≡ c * 2 ^ d = mod-eq_of_lt small in
    elim (Bool-cases (ltb (c * 2 ^ d) n)) [
      | inl a ↦
          rw (exact, a)
            (let w : ltb (c * 2 ^ d * 2 % 2 ^ 64) n ≡ false = rw (exact, a) at e in
              let fits : c * 2 ^ d * 2 % 2 ^ 64 ≡ c * 2 ^ d * 2 =
                doubled-fits (c * 2 ^ d) n (ltb→lt _ n a) b w in
              (
                suc d,
                fits
                    ∙ mul_assoc c (2 ^ d) 2
                    ∙ ap (λ t. c * t) (mul_comm (2 ^ d) 2 ∙ sym (pow-succ' 2 d)),
                omega arith,
              ))
      | inr a ↦ rw (exact, a) (d, refl, small)
    ]
