-- ===== src/Factor/Product.antt =====
-- The number that a factor list of src/util/integerfactoring.c stands for, which gaIFLGetProduct
-- gives modulo 2 ^ 64, and what gaIFLAddFactors does to it.
use libgpuarray.Base.{ℕ, zero, suc, ◌+◌, ◌*◌, ◌%◌, ◌^◌, ◌<◌, List, [], ◌∷◌, ◌≡◌, ap, ◌∙◌, arith}
use mathlib.Core.Path.{◌≡⟨◌⟩◌, ◌∎}
use native.Mathlib.Nat.{
  pow-succ', mul_assoc, one-le-pow, one-le-mul, one-mul, mul-one, zero-add, suc-add,
}
use native.Mathlib.Numerals.{unary_clauses}
use libgpuarray.Base.Modulo.{mod-mul_left}
use libgpuarray.Factor.{Entry, multiply, product_loop, gaifl_get_product}

unfoldable pub product : List Entry → ℕ
product [] = 1
product (e ∷ es) = e.f ^ e.p * product es

pub pow-add : (f a b : ℕ) → f ^ (a + b) ≡ f ^ a * f ^ b
pow-add f zero b = simp (unary_clauses, zero-add, one-mul)
pow-add f (suc a) b = simp (suc-add, pow-succ', mul_assoc) (ap (λ t. f * t) (pow-add f a b))

multiply-mod : (j f p : ℕ) → multiply j f (p % 2 ^ 64) ≡ p * f ^ j % 2 ^ 64
unfolding multiply
multiply-mod zero f p = simp (unary_clauses, mul-one)
multiply-mod (suc j) f p =
    multiply j f (p % 2 ^ 64 * f % 2 ^ 64)
    ≡⟨ ap (multiply j f) (mod-mul_left p f (2 ^ 64)) ⟩ multiply j f (p * f % 2 ^ 64)
    ≡⟨ multiply-mod j f (p * f) ⟩ p * f * f ^ j % 2 ^ 64
    ≡⟨ ap (λ t. t % 2 ^ 64) (simp (pow-succ', mul_assoc)) ⟩ p * f ^ suc j % 2 ^ 64 ∎

product_loop-mod :
    (fl : List Entry) (p : ℕ) → product_loop fl (p % 2 ^ 64) ≡ p * product fl % 2 ^ 64
unfolding product_loop product
product_loop-mod [] p = simp (mul-one)
product_loop-mod (e ∷ es) p =
    product_loop es (multiply e.p e.f (p % 2 ^ 64))
    ≡⟨ ap (product_loop es) (multiply-mod e.p e.f p) ⟩ product_loop es (p * e.f ^ e.p % 2 ^ 64)
    ≡⟨ product_loop-mod es (p * e.f ^ e.p) ⟩ p * e.f ^ e.p * product es % 2 ^ 64
    ≡⟨ ap (λ t. t % 2 ^ 64) (mul_assoc p (e.f ^ e.p) (product es)) ⟩ p * product (e ∷ es) % 2 ^ 64 ∎

-- gaIFLGetProduct is the product of the powers, modulo 2 ^ 64.
pub gaifl_get_product-mod : (fl : List Entry) → gaifl_get_product fl ≡ product fl % 2 ^ 64
unfolding gaifl_get_product
gaifl_get_product-mod fl = product_loop-mod fl 1 ∙ ap (λ t. t % 2 ^ 64) (one-mul (product fl))

-- The factors grow, none is under 2, and no power is 0.
abbrev pub AllAbove : ℕ → List Entry → Type 0
AllAbove n [] = Unit
AllAbove n (e ∷ es) = (n < e.f) × (0 < e.p) × (e.p < 256) × AllAbove e.f es

abbrev pub IsFactorList : List Entry → Type 0
IsFactorList fl = AllAbove 1 fl

pub product-pos : (n : ℕ) (fl : List Entry) → AllAbove n fl → 0 < product fl
unfolding product
product-pos n [] v = omega arith
product-pos n (e ∷ es) v = one-le-mul (one-le-pow e.p e.f (omega arith)) (product-pos e.f es v.3)
