-- ===== src/Factor/Tests.antt =====
-- Runs of the factorization of src/util/integerfactoring.c, and its theorems at inputs.
use libgpuarray.Base.{
  ℕ, ◌^◌, ◌*◌, Bool, ◌||◌, ◌==◌, ◌≡◌, List, [], ◌∷◌, refl, arith, pos, none, some, leb,
}
use libgpuarray.Factor.{
  Entry, gaifl_add_factors, gaifl_get_product, gaifl_get_factor_power, gaifl_is_overflowed,
  gaifl_get_greatest_factor, gaifl_get_smallest_factor,
}
use libgpuarray.Factor.Add.{Adds, gaifl_add_factors-Adds}
use libgpuarray.Factor.Smooth.{
  gai_ctz, gai_clz, smooth3_loop, smooth35_loop, smooth5_loop, gai_factorize2_smooth,
  gai_factorize3_smooth, gai_factorize5_smooth,
}
use libgpuarray.Factor.Search.{found, trial, divide_out, gai_factorize}
use libgpuarray.Factor.Product.{product, IsFactorList}
use libgpuarray.Factor.Overflow.{gaifl_is_overflowed_lem}
use libgpuarray.Factor.Lists.{total, vproduct}
use libgpuarray.Factor.Limits.{Within, schedule_satisfy_tot-Within}
use libgpuarray.Factor.Take.{given-taken}
use libgpuarray.Factor.Schedule.{
  taken, given, gaifl_schedule, gai_schedule, schedule_satisfy_ind, last_fit, schedule_satisfy_tot,
}
use libgpuarray.Factor.Factorize.{Answers, max_of, k_of, gai_factorize-Answers}

abbrev small_prime : ℕ → Bool
small_prime x = (x == 3) || (x == 5) || (x == 7) || (x == 11) || (x == 13)

abbrev power : ℕ → ℕ → Entry
power f p = record { f = f; p = p }

smooth2_77 : gai_factorize2_smooth 77 ≡ power 2 7 ∷ []
unfolding gai_factorize2_smooth gaifl_add_factors gai_ctz
smooth2_77 = refl

smooth3_100 : gai_factorize3_smooth 100 ≡ power 2 2 ∷ power 3 3 ∷ []
unfolding gai_factorize3_smooth smooth3_loop gaifl_add_factors gai_ctz gai_clz
smooth3_100 = refl

smooth5_49 : gai_factorize5_smooth 49 ≡ power 2 1 ∷ power 5 2 ∷ []
unfolding gai_factorize5_smooth smooth5_loop smooth35_loop gaifl_add_factors gai_ctz gai_clz
smooth5_49 = refl

-- 77 is no 5-smooth number, and is factored by trial division.
exact_77 : gai_factorize small_prime 10000 77 0 0 ≡ found (power 7 1 ∷ power 11 1 ∷ [])
unfolding gai_factorize gai_factorize5_smooth smooth5_loop smooth35_loop gaifl_add_factors
    gaifl_is_overflowed gai_ctz gaifl_get_product trial divide_out
exact_77 = refl

gai_factorize-Answers_example :
    Answers 77 (max_of 77 0) (k_of 77 0) (gai_factorize small_prime 10000 77 0 0)
gai_factorize-Answers_example =
    gai_factorize-Answers small_prime 10000 77 0 0 (omega arith) (omega arith) (omega arith)
      (λ e. omega arith) (omega arith)

abbrev six : List Entry
six = power 2 1 ∷ power 3 1 ∷ []

gaifl_add_factors-Adds_example : Adds six 2 3 (gaifl_add_factors six 2 (pos 3))
unfolding gaifl_get_factor_power
gaifl_add_factors-Adds_example =
    gaifl_add_factors-Adds six 2 3 (omega arith) (omega arith) (omega arith)

-- A block of 24 under the limits 8 and 8, and a grid of 5 under 4 and 16; the chunk takes the rest.
scheduled :
    gaifl_schedule 100 8
      (8 ∷ [])
      16
      (4 ∷ [])
      (record { bs = (power 2 3 ∷ power 3 1 ∷ []) ∷ []; gs = (power 5 1 ∷ []) ∷ []; cs = [] ∷ [] })
    ≡ some (record {
      bs = (power 2 3 ∷ []) ∷ [];
      gs = (power 3 1 ∷ []) ∷ [];
      cs = (power 5 1 ∷ []) ∷ [];
    })
unfolding gaifl_schedule gaifl_add_factors gaifl_get_product gaifl_get_greatest_factor
    gaifl_get_smallest_factor last_fit
scheduled = refl

-- With a limit of 1 gaIFactorize returns 0, and the list is read uninitialized.
limit_of_one : gai_schedule small_prime 100 1 (1 ∷ []) 1 (1 ∷ []) (4 ∷ []) (4 ∷ []) (1 ∷ []) ≡ none
unfolding gai_schedule gai_factorize
limit_of_one = refl

-- With a limit of 0 an empty list never satisfies it.
limit_of_zero : schedule_satisfy_ind 100 ([] ∷ []) ([] ∷ []) (0 ∷ []) ≡ none
unfolding schedule_satisfy_ind gaifl_add_factors gaifl_get_product gaifl_get_greatest_factor
limit_of_zero = refl

abbrev five : List Entry
five = power 5 1 ∷ []

given-taken_example :
    (product (taken six 3) * product (given five 3) ≡ product six * product five)
    × (IsFactorList (taken six 3) × IsFactorList (given five 3))
unfolding gaifl_get_factor_power
given-taken_example =
    given-taken six five 3 (omega arith) (omega arith) (omega arith) (omega arith) (omega arith)

gaifl_is_overflowed_lem_example :
    gaifl_is_overflowed (power 3 41 ∷ []) ≡ leb (2 ^ 64) (product (power 3 41 ∷ []))
gaifl_is_overflowed_lem_example = gaifl_is_overflowed_lem (power 3 41 ∷ []) (omega arith)

schedule_satisfy_tot-Within_example :
    Within 4 (schedule_satisfy_tot 3 (six ∷ five ∷ []) ([] ∷ [] ∷ []) 4)
unfolding total vproduct product
schedule_satisfy_tot-Within_example =
    schedule_satisfy_tot-Within 3 4 (six ∷ five ∷ []) ([] ∷ [] ∷ []) (omega arith) (omega arith)
      (omega arith) (omega arith)
