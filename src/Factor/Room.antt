-- ===== src/Factor/Room.antt =====
-- Moving factors to a list of src/util/integerfactoring.c, and the bound on its number.
use libgpuarray.Base.{
  ℕ, zero, suc, ◌+◌, ◌*◌, ◌/◌, ◌%◌, ◌^◌, ◌≤◌, ◌<◌, Bool, true, false, List, pos, ◌≡◌, ◌⊎◌, inl, inr,
  ap, arith, Bool-cases,
}
use native.Mathlib.Nat.{
  pow-zero, pow-succ', mul_comm, mul_assoc, le-mul_of_pos_right, one-le-pow, mul-le-mul_left,
  mul-le-mul_right, pow-le-pow_right, div-one,
}
use libgpuarray.Factor.{Entry, gaifl_add_factors, gaifl_get_factor_power}
use libgpuarray.Factor.Product.{product}
use libgpuarray.Factor.Add.{gaifl_add_factors-Adds}
use libgpuarray.Factor.Limit.{power-bound}
use libgpuarray.Factor.Partial.{Partial}
use libgpuarray.Factor.Smooth.{gai_ctz}
use libgpuarray.Factor.Divide.{Shifted}
use libgpuarray.Factor.Search.{Outcome, found, absent, no_fuel, with_factor}

-- An attempt that does not run out of fuel.
abbrev pub ends : Outcome → Bool
ends (found fl) = true
ends absent = true
ends no_fuel = false

-- Moving a factor to the list multiplies its number, or leaves a full list as it is.
unfoldable pub Moved : List Entry → ℕ → ℕ → Type 0
Moved fl f c = (product (with_factor fl f c) ≡ product fl * f ^ c) ⊎ (with_factor fl f c ≡ fl)

pub with_factor-Moved :
    (n max_n k : ℕ) (fl : List Entry) (f c y x : ℕ)
    → max_n < 2 ^ 64
    → 2 ≤ f
    → x ≡ f ^ c * y
    → 0 < y
    → Partial n max_n k fl x
    → Moved fl f c
unfolding Moved
with_factor-Moved n max_n k fl f c y x m h e q v =
    let w = v.upper in
    let b : gaifl_get_factor_power fl f + c < 64 =
      power-bound fl f c y v.proper h q (omega (arith, ap (λ t. product fl * t) e)) in
    let a = gaifl_add_factors-Adds fl f c v.proper (omega arith) (omega arith) in
    elim (Bool-cases (gaifl_add_factors fl f (pos c)).1) [
      | inl d ↦ inl (a.added d)
      | inr d ↦ inr (a.kept d).0
    ]

pub Moved-le :
    (fl : List Entry) (f c : ℕ) → 0 < f → Moved fl f c → product fl ≤ product (with_factor fl f c)
unfolding Moved
Moved-le fl f c p (inl e) = rw e (le-mul_of_pos_right (product fl) (one-le-pow c f p))
Moved-le fl f c p (inr e) = rw e (omega arith)

-- The bound on the product that fuel is measured by.
abbrev pub Room : ℕ → List Entry → ℕ → Type 0
Room max_n fl j = max_n < product fl * 2 ^ j

pub Room-le :
    (max_n : ℕ) (fl fl' : List Entry) (j : ℕ)
    → product fl ≤ product fl'
    → Room max_n fl j
    → Room max_n fl' j
Room-le max_n fl fl' j h r =
    let g : product fl * 2 ^ j ≤ product fl' * 2 ^ j = mul-le-mul_right (2 ^ j) h in omega arith

-- The twos of an even number at least double the product of a list that takes them.
pub Room-twice :
    (max_n : ℕ) (fl : List Entry) (c j : ℕ)
    → 0 < c
    → product (with_factor fl 2 c) ≡ product fl * 2 ^ c
    → Room max_n fl (suc j)
    → Room max_n (with_factor fl 2 c) j
Room-twice max_n fl c j p e r =
    let g : 2 ^ 1 ≤ 2 ^ c = pow-le-pow_right {n = 2} (omega arith) {i = 1} {j = c} p in
    let t : product fl * 2 * 2 ^ j ≤ product fl * 2 ^ c * 2 ^ j =
      mul-le-mul_right (2 ^ j) (mul-le-mul_left (product fl) (omega arith)) in
    rw e
      (omega (arith, t, mul_assoc (product fl) 2 (2 ^ j), ap (λ s. product fl * s) (pow-succ' 2 j)))

-- An odd number has no twos, an even one has.
pub ctz-even : (x : ℕ) → Shifted x (gai_ctz x) → x % 2 ≡ 0 → 0 < gai_ctz x
ctz-even x s e = even_shift (gai_ctz x) s
  where
    even_shift : (z : ℕ) → Shifted x z → 0 < z
    even_shift zero t =
        absurd (omega (arith, t.1, pow-zero 2, div-one x, ap (λ p. x / p % 2) (pow-zero 2)))
    even_shift (suc z) t = omega arith

pub Shifted-le : (x z : ℕ) → Shifted x z → 0 < z → 0 < x → x / 2 ^ z * 2 ≤ x
Shifted-le x z s p q =
    let g : 2 ^ 1 ≤ 2 ^ z = pow-le-pow_right {n = 2} (omega arith) {i = 1} {j = z} p in
    let t : x / 2 ^ z * 2 ≤ x / 2 ^ z * 2 ^ z = mul-le-mul_left (x / 2 ^ z) (omega arith) in
    omega (arith, t, s.0, mul_comm (2 ^ z) (x / 2 ^ z))
