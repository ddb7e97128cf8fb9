-- ===== src/Factor.antt =====
-- Factor lists of src/util/integerfactoring.c: the first `d` entries of the arrays `f` and `p`. An
-- `uint64_t` wraps around at 2 ^ 64, a power is an `uint8_t`.
pub mod Product
pub mod Add
pub mod Smooth
pub mod Search
pub mod Divide
pub mod Limit
pub mod Partial
pub mod Found
pub mod Room
pub mod Ends
pub mod Scale
pub mod Optimal
pub mod Odd
pub mod Factorize
pub mod Schedule
pub mod Take
pub mod Overflow
pub mod Lists
pub mod Smallest
pub mod Limits
mod Tests
use libgpuarray.Base.{
  ℕ, zero, suc, ◌+◌, ◌-◌, ◌*◌, ◌/◌, ◌%◌, ◌^◌, Bool, true, false, not, ◌&&◌, ◌||◌, Option, none,
  some, List, [], ◌∷◌, ltb, leb, ◌==◌, if◌then◌else◌, length, get_elem?, ℤ, pos, negsuc, pos_part,
  neg_part,
}

pub record Entry : Type 0 where
  pub f : ℕ
  pub p : ℕ

-- The conversion to `uint8_t` of the sum of a power and an `int`.
abbrev pub add_power : ℕ → ℤ → ℕ
add_power p z = (p + pos_part z % 256 + (256 - neg_part z % 256)) % 256

unfoldable pub gaifl_full : List Entry → Bool
gaifl_full fl = leb 15 (length fl)

abbrev pub cons? : Entry → Option (List Entry) → Option (List Entry)
cons? e none = none
cons? e (some es) = some (e ∷ es)

-- The scan over the entries; `none` is a return of 0, which leaves the list as it was. `full` is
-- gaIFLFull of the whole list.
unfoldable pub add_loop : Bool → List Entry → ℕ → ℤ → Option (List Entry)
add_loop full [] f p = if full then none else some (record { f = f; p = add_power 0 p } ∷ [])
add_loop full (e ∷ es) f p =
    if e.f == f
    then (if add_power e.p p == 0 then some es else some (record e { p = add_power e.p p } ∷ es))
    else if ltb f e.f
    then (if full then none else some (record { f = f; p = add_power 0 p } ∷ e ∷ es))
    else cons? e (add_loop full es f p)

abbrev is_zero : ℤ → Bool
is_zero (pos n) = n == 0
is_zero (negsuc n) = false

abbrev or_same : List Entry → Option (List Entry) → List Entry × Bool
or_same fl none = (fl, false)
or_same fl (some fl') = (fl', true)

unfoldable pub gaifl_add_factors : List Entry → ℕ → ℤ → List Entry × Bool
unfolding add_loop gaifl_full
gaifl_add_factors fl f p =
    if is_zero p || (f == 1) then (fl, true) else or_same fl (add_loop (gaifl_full fl) fl f p)

unfoldable pub gaifl_get_factor_power : List Entry → ℕ → ℕ
gaifl_get_factor_power [] f = 0
gaifl_get_factor_power (e ∷ es) f = if e.f == f then e.p else gaifl_get_factor_power es f

-- The inner loop of gaIFLGetProduct.
unfoldable pub multiply : ℕ → ℕ → ℕ → ℕ
multiply zero f p = p
multiply (suc j) f p = multiply j f (p * f % 2 ^ 64)

unfoldable pub product_loop : List Entry → ℕ → ℕ
unfolding multiply
product_loop [] p = p
product_loop (e ∷ es) p = product_loop es (multiply e.p e.f p)

unfoldable pub gaifl_get_product : List Entry → ℕ
unfolding product_loop
gaifl_get_product fl = product_loop fl 1

-- The inner loop of gaIFLIsOverflowed, in which `none` is the return of 1. A division by 0 is a
-- fault of the code; no factor is 0 there.
unfoldable pub checked_multiply : ℕ → ℕ → ℕ → Option ℕ
checked_multiply zero f p = some p
checked_multiply (suc j) f p =
    let rest = checked_multiply j f (p * f % 2 ^ 64) in
    if ltb ((2 ^ 64 - 1) / p) f then none else rest

abbrev then_loop : Option ℕ → (ℕ → Bool) → Bool
then_loop none next = true
then_loop (some p) next = next p

unfoldable pub overflow_loop : List Entry → ℕ → Bool
unfolding checked_multiply
overflow_loop [] p = false
overflow_loop (e ∷ es) p = then_loop (checked_multiply e.p e.f p) (overflow_loop es)

unfoldable pub gaifl_is_overflowed : List Entry → Bool
unfolding overflow_loop gaifl_get_factor_power
gaifl_is_overflowed fl =
    if leb 1 (gaifl_get_factor_power fl 0)
    then false
    else if leb 64 (gaifl_get_factor_power fl 2)
    then true
    else overflow_loop fl 1

abbrev pub last_factor : ℕ → List Entry → ℕ
last_factor d [] = d
last_factor d (e ∷ es) = last_factor e.f es

unfoldable pub gaifl_get_greatest_factor : List Entry → ℕ
gaifl_get_greatest_factor fl = last_factor 1 fl

unfoldable pub gaifl_get_smallest_factor : List Entry → ℕ
gaifl_get_smallest_factor [] = 1
gaifl_get_smallest_factor (e ∷ es) = e.f
