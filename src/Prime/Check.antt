-- ===== src/Prime/Check.antt =====
-- The tests that gaIIsPrime of src/util/integerfactoring.c combines. A result is GA_IS_COMPOSITE,
-- GA_IS_PRIME or GA_IS_PROBABLY_PRIME; `none` is no fuel.
use Prim.Native.Char.{code}
use Prim.Native.String.{String}
use libgpuarray.Base.{
  ℕ, zero, suc, ◌+◌, ◌-◌, ◌/◌, ◌%◌, ◌^◌, Bool, false, ◌&&◌, ◌||◌, Option, none, some, List, [], ◌∷◌,
  ◌++◌, get_or, ltb, ◌==◌, if◌then◌else◌, ℤ, pos, negsuc, ◌*ℤ◌, ◌==ℤ◌,
}
use libgpuarray.Factor.Smooth.{gai_ctz, gai_clz}
use libgpuarray.Prime.{gai_add_mod, gai_sub_mod, gai_avg_mod, gai_mul_mod, gai_pow_mod}

abbrev pub composite : ℕ
composite = 0

abbrev pub prime : ℕ
prime = 1

abbrev pub probably_prime : ℕ
probably_prime = 2

-- The sign that the twos of `a` and reciprocity give, for `a = 2 ^ e * a1`.
unfoldable pub jacobi_sign : ℕ → ℕ → ℕ → ℤ
jacobi_sign e a1 n =
    let s =
      if e % 2 == 0
      then pos 1
      else if (n % 8 == 1) || (n % 8 == 7)
      then pos 1
      else if (n % 8 == 3) || (n % 8 == 5)
      then negsuc 0
      else pos 0 in
    if (n % 4 == 3) && (a1 % 4 == 3) then negsuc 0 *ℤ s else s

-- A unit of fuel is one call; the second argument falls from call to call.
unfoldable pub gai_jacobi_symbol : ℕ → ℕ → ℕ → Option ℤ
gai_jacobi_symbol zero a' n = none
gai_jacobi_symbol (suc fuel) a' n =
    let a = a' % n in
    let a1 = a / 2 ^ gai_ctz a in
    let rest = gai_jacobi_symbol fuel (n % a1) a1 in
    if (a == 1) || (n == 1)
    then some (pos 1)
    else if a == 0
    then some (pos 0)
    else elim rest [ none ↦ none | some j ↦ some (jacobi_sign (gai_ctz a) a1 n *ℤ j) ]

-- The squarings, with as many rounds as the loop has.
unfoldable pub fermat_loop : ℕ → ℕ → ℕ → ℕ
fermat_loop zero x n = composite
fermat_loop (suc rounds) x' n =
    let x = gai_mul_mod x' x' n in
    let rest = fermat_loop rounds x n in
    if x == 1 then composite else if x == n - 1 then probably_prime else rest

unfoldable pub gai_is_prime_strong_fermat : ℕ → ℕ → ℕ
gai_is_prime_strong_fermat n a' =
    let a = a' % n in
    let s = gai_ctz (n - 1) in
    let x = gai_pow_mod a ((n - 1) / 2 ^ s) n in
    if a == 0
    then probably_prime
    else if (x == 1) || (x == n - 1)
    then probably_prime
    else fermat_loop (s - 1) x n

-- The search for the parameter D, by `Dp` and `Dm`. `some none` is the result that `n` is composite.
-- A unit of fuel is one round; a Jacobi symbol gets fuel for its second argument.
unfoldable pub search_d : ℕ → ℕ → ℕ → ℕ → Option (Option ℕ)
search_d zero dp dm n = none
search_d (suc fuel) dp dm n =
    let rest = search_d fuel (gai_add_mod dp 4 n) (gai_sub_mod dm 4 n) n in
    elim (gai_jacobi_symbol (n + 1) dp n) [
      | none ↦ none
      | some j ↦
          if j ==ℤ pos 0
          then some none
          else if j ==ℤ negsuc 0
          then some (some dp)
          else elim (gai_jacobi_symbol (n + 1) dm n) [
            | none ↦ none
            | some i ↦
                if i ==ℤ pos 0 then some none else if i ==ℤ negsuc 0 then some (some dm) else rest
          ]
    ]

-- The binary expansion of `k` below its first bit, from the place `i - 1` down; the result is U.
unfoldable pub lucas_loop : ℕ → ℕ → ℕ → ℕ → ℕ → ℕ → ℕ
lucas_loop zero k d n u v = u
lucas_loop (suc i) k d n u v =
    let ut = gai_mul_mod u v n in
    let vt = gai_avg_mod (gai_mul_mod v v n) (gai_mul_mod d (gai_mul_mod u u n) n) n in
    let odd = k / 2 ^ i % 2 == 1 in
    lucas_loop i k d n (if odd then gai_avg_mod ut vt n else ut)
      (if odd then gai_avg_mod vt (gai_mul_mod d ut n) n else vt)

abbrev lucas_with : ℕ → Option (Option ℕ) → Option ℕ
lucas_with n none = none
lucas_with n (some none) = some composite
lucas_with n (some (some d)) = some (
    if lucas_loop (63 - gai_clz ((n + 1) % 2 ^ 64)) ((n + 1) % 2 ^ 64) d n 1 1 == 0
    then probably_prime
    else composite)

unfoldable pub gai_is_prime_strong_lucas : ℕ → ℕ → Option ℕ
gai_is_prime_strong_lucas fuel n =
    if (n == 1194649) || (n == 12327121)
    then some composite
    else lucas_with n (search_d fuel (gai_add_mod 0 5 n) (gai_sub_mod 0 7 n) n)

abbrev codes : String → List ℕ
codes String.[] = []
codes (String.◌∷◌ c s) = code c ∷ codes s

-- The answers for the numbers below 256.
unfoldable pub table : List ℕ
table =
    codes "nnyynynynnnynynnnynynnnynnnnnyny"
    ++ codes "nnnnnynnnynynnnynnnnnynnnnnynynn"
    ++ codes "nnnynnnynynnnnnynnnynnnnnynnnnnn"
    ++ codes "nynnnynynnnynynnnynnnnnnnnnnnnny"
    ++ codes "nnnynnnnnynynnnnnnnnnynynnnnnynn"
    ++ codes "nnnynnnynnnnnynnnnnynynnnnnnnnny"
    ++ codes "nynnnynynnnnnnnnnnnynnnnnnnnnnny"
    ++ codes "nnnynynnnynnnnnynynnnnnnnnnynnnn"

abbrev pub small_factors : List ℕ
small_factors =
    3 ∷ 5 ∷ 7 ∷ 11 ∷ 13 ∷ 17 ∷ 19 ∷ 23 ∷ 29 ∷ 31 ∷ 37 ∷ 41 ∷ 43 ∷ 47 ∷ 53 ∷ 59 ∷ 61 ∷ 67 ∷ 71 ∷ 73
    ∷ 79 ∷ []

-- One of the numbers divides `n`.
unfoldable pub has_small_factors : List ℕ → ℕ → Bool
has_small_factors [] n = false
has_small_factors (f ∷ fs) n = (n % f == 0) || has_small_factors fs n

-- `&&` of C
abbrev both : ℕ → Option ℕ → Option ℕ
both f l =
    if f == 0 then some 0 else elim l [ none ↦ none | some c ↦ some (if c == 0 then 0 else 1) ]

unfoldable pub gai_is_prime : ℕ → ℕ → Option ℕ
gai_is_prime fuel n =
    if n == 2
    then some prime
    else if n % 2 == 0
    then some composite
    else if ltb n 256
    then some (if get_or table n 0 == b'y' then 1 else 0)
    else if has_small_factors small_factors n
    then some composite
    else both (gai_is_prime_strong_fermat n 2) (gai_is_prime_strong_lucas fuel n)
