-- ===== src/Factor/Overflow.antt =====
-- gaIFLIsOverflowed of src/util/integerfactoring.c tells whether the number of a list needs more than
-- 64 bits.
use libgpuarray.Base.{
  ℕ, zero, suc, ◌-◌, ◌*◌, ◌/◌, ◌%◌, ◌^◌, ◌≤◌, ◌<◌, true, Option, none, some, List, [], ◌∷◌, ltb,
  leb, ◌==◌, ◌≡◌, inl, inr, refl, sym, arith, Bool-cases, ==_iff, ltb→lt, leb→le,
}
use native.Mathlib.Nat.{
  pow-succ', pow-zero, mul_comm, mul_assoc, mul-one, one-mul, one-le-pow, one-le-mul,
  le-mul_of_pos_right, div-lt_iff_lt-mul, mod-eq_of_lt, le_trans, pow-le-pow_right,
}
use libgpuarray.Factor.{
  Entry, checked_multiply, overflow_loop, then_loop, gaifl_is_overflowed, gaifl_get_factor_power,
}
use libgpuarray.Factor.Product.{product, product-pos, AllAbove, IsFactorList}
use libgpuarray.Factor.Take.{factor_above}

-- The check before a multiplication is exact.
multiply_check : (f p : ℕ) → 0 < p → ltb ((2 ^ 64 - 1) / p) f ≡ leb (2 ^ 64) (p * f)
multiply_check f p h =
    let i = div-lt_iff_lt-mul {k = p} {x = 2 ^ 64 - 1} {y = f} h in
    elim (Bool-cases (leb (2 ^ 64) (p * f))) [
      | inl a ↦ rw a (
          let big : 2 ^ 64 ≤ p * f = leb→le (2 ^ 64) (p * f) a in
          let lt : (2 ^ 64 - 1) / p < f = i.1 (omega (arith, mul_comm p f)) in ground (arith, lt))
      | inr a ↦ rw a (
          let small : p * f < 2 ^ 64 = ground arith in
          elim (Bool-cases (ltb ((2 ^ 64 - 1) / p) f)) [
            | inl b ↦ absurd (omega (arith, i.0 (ltb→lt ((2 ^ 64 - 1) / p) f b), mul_comm p f))
            | inr b ↦ b
          ])
    ]

-- Whether the powers of one factor are multiplied, and to what.
Checked : ℕ → Option ℕ → Type 0
Checked q none = 2 ^ 64 ≤ q
Checked q (some r) = (r ≡ q) × (q < 2 ^ 64)

checked_multiply-Checked :
    (j f p : ℕ) → 0 < f → 0 < p → p < 2 ^ 64 → Checked (p * f ^ j) (checked_multiply j f p)
unfolding Checked checked_multiply
checked_multiply-Checked zero f p h k l =
    let e : p * f ^ 0 ≡ p = rw (pow-zero f) (mul-one p) in (sym e, omega (arith, e))
checked_multiply-Checked (suc j) f p h k l =
    let e : p * f ^ suc j ≡ p * f * f ^ j = rw (pow-succ' f j) (sym (mul_assoc p f (f ^ j))) in
    rw (multiply_check f p k) (elim (Bool-cases (leb (2 ^ 64) (p * f))) [
      | inl a ↦ rw a (
          let big : 2 ^ 64 ≤ p * f = leb→le (2 ^ 64) (p * f) a in
          let more : p * f ≤ p * f * f ^ j = le-mul_of_pos_right (p * f) (one-le-pow j f h) in
          omega (arith, e))
      | inr a ↦
          let small : p * f < 2 ^ 64 = ground arith in
          let m : p * f % 2 ^ 64 ≡ p * f = mod-eq_of_lt small in
          rw (a, m, e) (checked_multiply-Checked j f (p * f) h (one-le-mul k h) small)
    ])

leb_of_le : (a b : ℕ) → a ≤ b → leb a b ≡ true
leb_of_le a b h = ground arith

-- The loop goes on with the number so far, `q`, if that has not overflowed.
then_loop_lem :
    (n : ℕ) (es : List Entry) (q : ℕ) (r : Option ℕ)
    → AllAbove n es
    → 0 < q
    → (q < 2 ^ 64 → overflow_loop es q ≡ leb (2 ^ 64) (q * product es))
    → Checked q r
    → then_loop r (overflow_loop es) ≡ leb (2 ^ 64) (q * product es)
unfolding Checked
then_loop_lem n es q none v k ih big =
    let more : q ≤ q * product es = le-mul_of_pos_right q (product-pos n es v) in
    sym (leb_of_le (2 ^ 64) (q * product es) (omega arith))
then_loop_lem n es q (some r) v k ih t = rw (t.0) (ih t.1)

overflow_loop_lem :
    (n : ℕ) (fl : List Entry) (p : ℕ)
    → AllAbove n fl
    → 0 < p
    → p < 2 ^ 64
    → overflow_loop fl p ≡ leb (2 ^ 64) (p * product fl)
unfolding overflow_loop product
overflow_loop_lem n [] p v k l = rw (mul-one p) (ground arith)
overflow_loop_lem n (e ∷ es) p v k l = rw (← mul_assoc p (e.f ^ e.p) (product es)) (
    then_loop_lem e.f es (p * e.f ^ e.p) (checked_multiply e.p e.f p) v.3
      (one-le-mul k (one-le-pow e.p e.f (omega (arith, v.0))))
      (λ t.
        overflow_loop_lem e.f es (p * e.f ^ e.p) v.3
          (one-le-mul k (one-le-pow e.p e.f (omega (arith, v.0)))) t)
      (checked_multiply-Checked e.p e.f p (omega (arith, v.0)) k l))

-- A power in the list divides the number of the list.
power-le-product :
    (n : ℕ) (fl : List Entry) (f : ℕ) → AllAbove n fl → f ^ gaifl_get_factor_power fl f ≤ product fl
unfolding gaifl_get_factor_power product
power-le-product n [] f v = rw (pow-zero f) (omega arith)
power-le-product n (e ∷ es) f v = elim (Bool-cases (e.f == f)) [
  | inl a ↦ rw a (
      let same : e.f ≡ f = (==_iff e.f f).0 a in
      rw (← same) (le-mul_of_pos_right (e.f ^ e.p) (product-pos e.f es v.3)))
  | inr a ↦ rw a (
      let more : product es ≤ product es * e.f ^ e.p =
        le-mul_of_pos_right (product es) (one-le-pow e.p e.f (omega (arith, v.0))) in
      omega (arith, power-le-product e.f es f v.3, mul_comm (product es) (e.f ^ e.p)))
]

-- gaIFLIsOverflowed of a list of growing factors is true just if its number is 2 ^ 64 or more.
pub gaifl_is_overflowed_lem :
    (fl : List Entry) → IsFactorList fl → gaifl_is_overflowed fl ≡ leb (2 ^ 64) (product fl)
unfolding gaifl_is_overflowed
gaifl_is_overflowed_lem fl v = elim (Bool-cases (leb 1 (gaifl_get_factor_power fl 0))) [
  | inl a ↦ absurd (omega (arith, factor_above 1 fl 0 v (leb→le 1 (gaifl_get_factor_power fl 0) a)))
  | inr a ↦ rw a (elim (Bool-cases (leb 64 (gaifl_get_factor_power fl 2))) [
    | inl b ↦ rw b (
        let many : 64 ≤ gaifl_get_factor_power fl 2 = leb→le 64 (gaifl_get_factor_power fl 2) b in
        let big : 2 ^ 64 ≤ 2 ^ gaifl_get_factor_power fl 2 = pow-le-pow_right (omega arith) many in
        sym (leb_of_le (2 ^ 64) (product fl) (le_trans big (power-le-product 1 fl 2 v))))
    | inr b ↦
        rw (b, overflow_loop_lem 1 fl 1 v (omega arith) (omega arith), one-mul (product fl)) refl
  ])
]
