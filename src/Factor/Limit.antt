-- ===== src/Factor/Limit.antt =====
-- Bounds on the factors and powers of a list of src/util/integerfactoring.c.
use libgpuarray.Base.{
  ℕ, ◌+◌, ◌*◌, ◌^◌, ◌≤◌, ◌<◌, Bool, true, false, ◌||◌, Option, none, some, List, [], ◌∷◌, ltb, ◌==◌,
  ℤ, pos, ◌≡◌, inl, inr, refl, arith, Bool-cases, ==_iff, ltb→lt,
}
use native.Mathlib.Nat.{
  pow-zero, mul_comm, mul_assoc, le_trans, one-le-pow, mul-le-mul_right, pow-le-pow_left,
  pow-le-pow_right, le-mul_of_pos_right,
}
use libgpuarray.Factor.{
  Entry, add_loop, cons?, or_same, gaifl_full, gaifl_add_factors, gaifl_get_factor_power,
}
use libgpuarray.Factor.Product.{product, product-pos, pow-add, AllAbove, IsFactorList}

-- No factor of the list is over `k`.
abbrev pub AllUpTo : ℕ → List Entry → Type 0
AllUpTo k [] = Unit
AllUpTo k (e ∷ es) = (e.f ≤ k) × AllUpTo k es

abbrev UpTo? : ℕ → Option (List Entry) → Type 0
UpTo? k none = Unit
UpTo? k (some fl) = AllUpTo k fl

cons?-UpTo? :
    (k : ℕ) (e : Entry) (r : Option (List Entry)) → e.f ≤ k → UpTo? k r → UpTo? k (cons? e r)
cons?-UpTo? k e none h g = tt
cons?-UpTo? k e (some fl) h g = (h, g)

add_loop-UpTo? :
    (full : Bool) (k : ℕ) (fl : List Entry) (f : ℕ) (p : ℤ)
    → AllUpTo k fl
    → f ≤ k
    → UpTo? k (add_loop full fl f p)
unfolding add_loop
add_loop-UpTo? true k [] f p h g = tt
add_loop-UpTo? false k [] f p h g = (g, tt)
add_loop-UpTo? true k (e ∷ es) f p h g =
    ground (arith, cons?-UpTo? k e (add_loop true es f p), add_loop-UpTo? true k es f p)
add_loop-UpTo? false k (e ∷ es) f p h g =
    ground (arith, cons?-UpTo? k e (add_loop false es f p), add_loop-UpTo? false k es f p)

or_same-AllUpTo :
    (k : ℕ) (fl : List Entry) (r : Option (List Entry))
    → AllUpTo k fl
    → UpTo? k r
    → AllUpTo k (or_same fl r).0
or_same-AllUpTo k fl none h g = h
or_same-AllUpTo k fl (some fl') h g = g

pub gaifl_add_factors-AllUpTo :
    (k : ℕ) (fl : List Entry) (f p : ℕ)
    → AllUpTo k fl
    → f ≤ k
    → AllUpTo k (gaifl_add_factors fl f (pos p)).0
unfolding gaifl_add_factors
gaifl_add_factors-AllUpTo k fl f p h g = elim (Bool-cases ((p == 0) || (f == 1))) [
  | inl e ↦ rw e h
  | inr e ↦ rw e (
      or_same-AllUpTo k fl (add_loop (gaifl_full fl) fl f (pos p)) h
        (add_loop-UpTo? (gaifl_full fl) k fl f (pos p) h g))
]

-- A factor that would stand before the list has the power 0.
pub power-zero :
    (n f : ℕ) (fl : List Entry) → AllAbove n fl → f ≤ n → gaifl_get_factor_power fl f ≡ 0
unfolding gaifl_get_factor_power
power-zero n f [] v h = refl
power-zero n f (e ∷ es) v h = ground (arith, power-zero e.f f es v.3)

-- The power of a factor in the list is a factor of its number.
pub power-le-product :
    (n f : ℕ) (fl : List Entry) → AllAbove n fl → f ^ gaifl_get_factor_power fl f ≤ product fl
unfolding gaifl_get_factor_power product
power-le-product n f [] v = omega (arith, pow-zero f)
power-le-product n f (e ∷ es) v = elim (Bool-cases (e.f == f)) [
  | inl a ↦
      rw a (rw (← (==_iff e.f f).0 a) (le-mul_of_pos_right (e.f ^ e.p) (product-pos e.f es v.3)))
  | inr a ↦ rw a (
      le_trans (power-le-product e.f f es v.3) (
        rw (mul_comm (e.f ^ e.p) (product es))
          (le-mul_of_pos_right (product es) (one-le-pow e.p e.f (omega arith)))))
]

exponent-lt : (a : ℕ) → 2 ^ a < 2 ^ 64 → a < 64
exponent-lt a h = elim (Bool-cases (ltb a 64)) [
  | inl e ↦ ltb→lt a 64 e
  | inr e ↦
      let g : 2 ^ 64 ≤ 2 ^ a =
        pow-le-pow_right {n = 2} (omega arith) {i = 64} {j = a} (ground arith) in
      absurd (omega arith)
]

-- The power of a factor of a number below 2 ^ 64 is below 64.
pub power-bound :
    (fl : List Entry) (f c y : ℕ)
    → IsFactorList fl
    → 2 ≤ f
    → 0 < y
    → product fl * (f ^ c * y) < 2 ^ 64
    → gaifl_get_factor_power fl f + c < 64
power-bound fl f c y v h p b =
    let q = gaifl_get_factor_power fl f in
    let low : 2 ^ (q + c) ≤ f ^ (q + c) = pow-le-pow_left h (q + c) in
    let mid : f ^ q * f ^ c ≤ product fl * f ^ c =
      mul-le-mul_right {m = f ^ q} {n = product fl} (f ^ c) (power-le-product 1 f fl v) in
    let up : product fl * f ^ c ≤ product fl * f ^ c * y =
      le-mul_of_pos_right (product fl * f ^ c) p in
    exponent-lt (q + c)
      (omega (arith, low, mid, up, pow-add f q c, mul_assoc (product fl) (f ^ c) y))
