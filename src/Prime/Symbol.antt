-- ===== src/Prime/Symbol.antt =====
-- The recursion of gaIJacobiSymbol in src/util/integerfactoring.c ends.
use libgpuarray.Base.{
  ℕ, zero, suc, ◌/◌, ◌%◌, ◌^◌, ◌≤◌, ◌<◌, ◌||◌, Option, none, some, ◌==◌, inl, inr, arith,
  Bool-cases, ℤ,
}
use native.Mathlib.Nat.{mod-lt, div-le_self}
use libgpuarray.Factor.Smooth.{gai_ctz}
use libgpuarray.Factor.Divide.{gai_ctz-Shifted}
use libgpuarray.Prime.Check.{gai_jacobi_symbol}

abbrev pub IsSome : Option ℤ → Type 0
IsSome none = ⊥
IsSome (some j) = Unit

scaled-IsSome :
    (f : ℤ → ℤ) (r : Option ℤ) → IsSome r → IsSome (elim r [ none ↦ none | some j ↦ some (f j) ])
scaled-IsSome f none h = h
scaled-IsSome f (some j) h = tt

pub gai_jacobi_symbol-IsSome :
    (fuel a n : ℕ) → 0 < n → n < 2 ^ 64 → n < fuel → IsSome (gai_jacobi_symbol fuel a n)
unfolding gai_jacobi_symbol
gai_jacobi_symbol-IsSome zero a n p h b = absurd (omega arith)
gai_jacobi_symbol-IsSome (suc fuel) a n p h b = elim (Bool-cases ((a % n == 1) || (n == 1))) [
  | inl e ↦ rw e tt
  | inr e ↦ rw e (elim (Bool-cases (a % n == 0)) [
    | inl z ↦ rw z tt
    | inr z ↦
        let r : 0 < a % n = ground arith in
        let l : a % n < n = mod-lt a p in
        let s = gai_ctz-Shifted (a % n) r (omega arith) in
        let le : a % n / 2 ^ gai_ctz (a % n) ≤ a % n = div-le_self (a % n) (2 ^ gai_ctz (a % n)) in
        rw z (
          scaled-IsSome _ _ (
            gai_jacobi_symbol-IsSome fuel _ (a % n / 2 ^ gai_ctz (a % n)) (omega (arith, s.1))
              (omega arith) (omega arith)))
  ])
]
