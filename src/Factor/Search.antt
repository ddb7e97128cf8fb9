-- ===== src/Factor/Search.antt =====
-- gaIFactorize of src/util/integerfactoring.c. `is_prime` is gaIIsPrime as a test.
use libgpuarray.Base.{
  ℕ, zero, suc, ◌+◌, ◌-◌, ◌*◌, ◌/◌, ◌%◌, ◌^◌, Bool, not, ◌&&◌, ◌||◌, Option, none, some, List, [],
  ltb, leb, ◌==◌, if◌then◌else◌, pos,
}
use libgpuarray.Factor.{Entry, gaifl_add_factors, gaifl_get_product, gaifl_is_overflowed}
use libgpuarray.Factor.Smooth.{
  gai_ctz, gai_factorize2_smooth, gai_factorize3_smooth, gai_factorize5_smooth,
}

-- What an attempt ends with: a list, no list, or no fuel.
pub data Outcome : Type 0 where
  found : List Entry → Outcome
  absent : Outcome
  no_fuel : Outcome

abbrev pub with_factor : List Entry → ℕ → ℕ → List Entry
with_factor fl f p = (gaifl_add_factors fl f (pos p)).0

-- The trial divisions from `f` on, up to a factor of `x`. A round of fuel is one value of `f`.
unfoldable pub trial : ℕ → ℕ → ℕ → ℕ → Option ℕ
trial zero k f x = none
trial (suc fuel) k f x =
    let rest = trial fuel k (f + 2) x in
    if leb f k && leb (f * f % 2 ^ 64) x && leb f 0xffffffff
    then (if x % f == 0 then some f else rest)
    else none

-- `do { x /= f; c++; } while (x%f == 0)`, with the count so far.
unfoldable pub divide_out : ℕ → ℕ → ℕ → ℕ → ℕ × ℕ
divide_out zero f x c = (x, c)
divide_out (suc fuel) f x c =
    let rest = divide_out fuel f (x / f) (c + 1) in if x / f % f == 0 then rest else (x / f, c + 1)

-- `n / p` rounded up.
abbrev pub divided_up : ℕ → ℕ → ℕ
divided_up n p = n / p + (if ltb (n / p * p % 2 ^ 64) n then 1 else 0)

abbrev pub trial_fuel : ℕ
trial_fuel = 2 ^ 32

abbrev pub or_absent : Option ℕ → (ℕ → Outcome) → Outcome
or_absent none again = absent
or_absent (some g) again = again g

abbrev pub or_next : Outcome → Outcome → Outcome
or_next absent next = next
or_next (found fl) next = found fl
or_next no_fuel next = no_fuel

-- The fast optimizers: 2-, 3- or 5-smooth numbers.
abbrev pub optimized : ℕ → ℕ → List Entry
optimized n k =
    if leb k 2
    then gai_factorize2_smooth n
    else if leb k 4
    then gai_factorize3_smooth n
    else gai_factorize5_smooth n

abbrev pub is_greater : ℕ → List Entry → Bool
is_greater max_n fl =
    not (max_n == 2 ^ 64 - 1) && (gaifl_is_overflowed fl || ltb max_n (gaifl_get_product fl))

abbrev pub no_smoothness : ℕ → ℕ → Bool
no_smoothness n k = (k == 0) || leb n k

module _ (is_prime : ℕ → Bool) where
  -- From the label `primetest` on; a round of fuel is one arrival there. `subfactorize` is the part
  -- before it.
  unfoldable pub prime_test : ℕ → ℕ → ℕ → ℕ → ℕ → ℕ → List Entry → Outcome
  prime_test zero n max_n k f x fl = no_fuel
  prime_test (suc fuel) n max_n k f x fl =
      let p = gaifl_get_product fl in
      let new_x = divided_up n p in
      let subfactorize =
        λ (y : ℕ). prime_test fuel n max_n k 3 (y / 2 ^ gai_ctz y) (with_factor fl 2 (gai_ctz y)) in
      let again = λ (g : ℕ).
        prime_test fuel n max_n k g (divide_out 64 g x 0).0
          (with_factor fl g (divide_out 64 g x 0).1) in
      let smaller = subfactorize new_x in
      let larger = subfactorize ((x + 1) % 2 ^ 64) in
      if (x == 1) || is_prime x
      then (if leb x k
          then found (with_factor fl x 1)
          else if ltb new_x x
          then smaller
          else if ltb ((max_n + 2 ^ 64 - p * x % 2 ^ 64) % 2 ^ 64) p
          then absent
          else larger)
      else or_absent (trial trial_fuel k f x) again

  -- One value of `i` of the master loop.
  unfoldable pub factorize_at : ℕ → ℕ → ℕ → ℕ → ℕ → Outcome
  unfolding prime_test
  factorize_at fuel n max_n k i =
      prime_test fuel n max_n k 3 (i / 2 ^ gai_ctz i) (with_factor [] 2 (gai_ctz i))

  -- The master loop from `i` on, with as many rounds as there are values of `i`.
  unfoldable pub master_loop : ℕ → ℕ → ℕ → ℕ → ℕ → ℕ → Outcome
  unfolding factorize_at
  master_loop zero fuel n max_n k i = absent
  master_loop (suc rounds) fuel n max_n k i =
      let next = if i == 2 ^ 64 - 1 then absent else master_loop rounds fuel n max_n k (i + 1) in
      if ltb max_n i then absent else or_next (factorize_at fuel n max_n k i) next

  -- After the special cases, with `max_n` and `k` made canonical.
  unfoldable pub search_from : ℕ → ℕ → ℕ → ℕ → Bool → Outcome
  unfolding master_loop
  search_from fuel n max_n k free =
      if is_greater max_n (optimized n k)
      then (if not free && leb k 6 then absent else master_loop (max_n + 1 - n) fuel n max_n k n)
      else found (optimized n k)

  -- `absent` is a return of 0. The list is there, so that the check for NULL is left out.
  unfoldable pub gai_factorize : ℕ → ℕ → ℕ → ℕ → Outcome
  unfolding search_from
  gai_factorize fuel n max_n k =
      if (k == 1) || (ltb 0 max_n && ltb max_n n)
      then absent
      else if leb n 2
      then found (with_factor [] n 1)
      else search_from fuel n (if max_n == 0 then n else max_n) (if no_smoothness n k then n else k)
          (no_smoothness n k)
