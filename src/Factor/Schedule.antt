-- ===== src/Factor/Schedule.antt =====
-- The scheduling of factors in src/util/integerfactoring.c: gaIFLSchedule moves them between the lists
-- of blocks, grids and chunks, and gaISchedule does so for numbers. `none` is a fault of the code: a
-- loop out of fuel, a division by zero, or a list that is not initialized.
use libgpuarray.Base.{
  ℕ, zero, suc, ◌+◌, ◌-◌, ◌*◌, ◌/◌, ◌%◌, ◌^◌, Bool, true, false, ◌&&◌, ◌||◌, Option, none, some,
  List, [], ◌∷◌, ltb, leb, ◌==◌, if◌then◌else◌, get_or, set, ◌>>=◌, pos, negsuc,
}
use libgpuarray.Factor.{
  Entry, gaifl_add_factors, gaifl_get_factor_power, gaifl_get_product, gaifl_get_greatest_factor,
  gaifl_get_smallest_factor,
}
use libgpuarray.Factor.Search.{Outcome, found, absent, no_fuel, gai_factorize}

abbrev Lists : Type 0
Lists = List (List Entry)

-- `gaIFLAddFactors(from, f, -1)` and `gaIFLAddFactors(to, f, +1)`
abbrev pub taken : List Entry → ℕ → List Entry
taken fl f = (gaifl_add_factors fl f (negsuc 0)).0

abbrev pub given : List Entry → ℕ → List Entry
given fl f = (gaifl_add_factors fl f (pos 1)).0

unfoldable pub productv_loop : Lists → ℕ → ℕ
productv_loop [] p = p
productv_loop (fl ∷ fls) p = productv_loop fls (p * gaifl_get_product fl % 2 ^ 64)

unfoldable pub gaifl_get_productv : Lists → ℕ
unfolding productv_loop
gaifl_get_productv fls = productv_loop fls 1

-- The factor so far, the list that it is from, and `hasFactors`.
pub record Pick : Type 0 where
  pub f : ℕ
  pub idx : ℕ
  pub has_factors : Bool

abbrev picked : Pick → Bool → ℕ → ℕ → Pick
picked b better curr_f i =
    if better
    then record { f = curr_f; idx = i; has_factors = true }
    else record b { has_factors = true }

unfoldable pub greatest_loop : Lists → ℕ → Pick → Pick
greatest_loop [] i b = b
greatest_loop ([] ∷ fls) i b = greatest_loop fls (i + 1) b
greatest_loop ((e ∷ es) ∷ fls) i b =
    let c = gaifl_get_greatest_factor (e ∷ es) in
    greatest_loop fls (i + 1) (picked b (leb b.f c) c i)

unfoldable pub smallest_loop : Lists → ℕ → Pick → Pick
smallest_loop [] i b = b
smallest_loop ([] ∷ fls) i b = smallest_loop fls (i + 1) b
smallest_loop ((e ∷ es) ∷ fls) i b =
    let c = gaifl_get_smallest_factor (e ∷ es) in
    smallest_loop fls (i + 1) (picked b (leb c b.f) c i)

-- The factor and the index of its list.
abbrev pick_or_one : Pick → ℕ × ℕ
pick_or_one b = (if b.has_factors then b.f else 1, b.idx)

unfoldable pub gaifl_get_greatest_factorv : Lists → ℕ × ℕ
unfolding greatest_loop
gaifl_get_greatest_factorv fls =
    pick_or_one (greatest_loop fls 0 (record { f = 0; idx = 0; has_factors = false }))

unfoldable pub gaifl_get_smallest_factorv : Lists → ℕ × ℕ
unfolding smallest_loop
gaifl_get_smallest_factorv fls =
    pick_or_one (smallest_loop fls 0 (record { f = 2 ^ 64 - 1; idx = 0; has_factors = false }))

-- The loop of one dimension; a round of fuel moves a factor.
unfoldable pub satisfy_loop :
    ℕ → ℕ → ℕ → ℕ → List Entry → List Entry → Option (List Entry × List Entry)
satisfy_loop zero max p f' from to = if ltb max p then none else some (from, to)
satisfy_loop (suc fuel) max p f' from to =
    let f = if p % f' == 0 then f' else gaifl_get_greatest_factor from in
    let rest = satisfy_loop fuel max (p / f) f (taken from f) (given to f) in
    if ltb max p then (if (f' == 0) || (f == 0) then none else rest) else some (from, to)

-- One dimension after the other; the arrays have the same length.
unfoldable pub schedule_satisfy_ind : ℕ → Lists → Lists → List ℕ → Option (Lists × Lists)
unfolding satisfy_loop
schedule_satisfy_ind fuel (fl ∷ from) (tl ∷ to) (max ∷ max_ind) = do
  (fl', tl') ← satisfy_loop fuel max (gaifl_get_product fl) (gaifl_get_greatest_factor fl) fl tl
  (from', to') ← schedule_satisfy_ind fuel from to max_ind
  some (fl' ∷ from', tl' ∷ to')
schedule_satisfy_ind fuel from to max_ind = some (from, to)

-- The inner loop, with as many rounds as the factor has powers.
unfoldable pub move_loop : ℕ → ℕ → ℕ → ℕ → List Entry → List Entry → ℕ × (List Entry × List Entry)
move_loop zero max p f from to = (p, (from, to))
move_loop (suc i) max p f from to =
    let rest = move_loop i max (p / f) f (taken from f) (given to f) in
    if ltb max p then rest else (p, (from, to))

-- A round of fuel moves the powers of one factor. No factor is 0.
unfoldable pub tot_loop : ℕ → ℕ → ℕ → Lists → Lists → Option (Lists × Lists)
unfolding gaifl_get_smallest_factorv gaifl_get_factor_power move_loop
tot_loop zero max p from to = if ltb max p then none else some (from, to)
tot_loop (suc fuel) max p from to =
    let s = gaifl_get_smallest_factorv from in
    let c = gaifl_get_factor_power (get_or from s.1 []) s.0 in
    let m = move_loop c max p s.0 (get_or from s.1 []) (get_or to s.1 []) in
    let rest = tot_loop fuel max m.0 (set from s.1 m.1.0) (set to s.1 m.1.1) in
    if ltb max p then (if s.0 == 0 then none else rest) else some (from, to)

unfoldable pub schedule_satisfy_tot : ℕ → Lists → Lists → ℕ → Option (Lists × Lists)
unfolding tot_loop gaifl_get_productv
schedule_satisfy_tot fuel from to max_tot = tot_loop fuel max_tot (gaifl_get_productv from) from to

-- From the last entry on, the first factor within both limits and not under `f`.
unfoldable pub last_fit : List Entry → ℕ → ℕ → Option ℕ
last_fit [] limit f = none
last_fit (e ∷ es) limit f = elim (last_fit es limit f) [
  | some g ↦ some g
  | none ↦ if leb e.f limit && leb f e.f then some e.f else none
]

abbrev pub least : ℕ → ℕ → ℕ
least a b = if leb a b then a else b

-- The factor chosen and its dimension, from the dimension `i` on.
unfoldable pub choose_loop : Lists → List ℕ → List ℕ → ℕ → ℕ → ℕ → Option ℕ → Option (ℕ × Option ℕ)
unfolding last_fit
choose_loop (fl ∷ from) (max ∷ max_ind) (p ∷ p_ind) max_f_tot i f k =
    if p == 0 then none else elim (last_fit fl (least max_f_tot (max / p)) f) [
      | none ↦ choose_loop from max_ind p_ind max_f_tot (i + 1) f k
      | some g ↦ choose_loop from max_ind p_ind max_f_tot (i + 1) g (some i)
    ]
choose_loop from max_ind p_ind max_f_tot i f k = some (f, k)

-- A round of fuel moves a factor.
unfoldable pub opt_loop : ℕ → ℕ → ℕ → List ℕ → List ℕ → ℕ → Lists → Lists → Option (Lists × Lists)
opt_loop zero max_f_tot max_tot max_ind p_ind p_tot from to = none
opt_loop (suc fuel) max_f_tot max_tot max_ind p_ind p_tot from to =
    elim (choose_loop from max_ind p_ind max_f_tot 0 1 none) [
      | none ↦ none
      | some (f, none) ↦ some (from, to)
      | some (f, some k) ↦
          let from' = set from k (taken (get_or from k []) f) in
          let to' = set to k (given (get_or to k []) f) in
          let p_tot' = p_tot * f % 2 ^ 64 in
          let rest =
            opt_loop fuel (max_tot / p_tot') max_tot max_ind
              (set p_ind k (get_or p_ind k 0 * f % 2 ^ 64)) p_tot' from' to' in
          if p_tot' == 0
          then none
          else if ltb 1 (max_tot / p_tot') && ltb 1 f
          then rest
          else some (from', to')
    ]

abbrev products : Lists → List ℕ
products [] = []
products (fl ∷ fls) = gaifl_get_product fl ∷ products fls

unfoldable pub schedule_opt : ℕ → Lists → Lists → ℕ → List ℕ → Option (Lists × Lists)
unfolding opt_loop choose_loop gaifl_get_productv
schedule_opt fuel from to max_tot max_ind =
    let p_tot = gaifl_get_productv to in
    let run = opt_loop fuel (max_tot / p_tot) max_tot max_ind (products to) p_tot from to in
    if p_tot == 0 then none else if leb (max_tot / p_tot) 1 then some (from, to) else run

-- The lists of blocks, grids and chunks.
pub record Schedule : Type 0 where
  pub bs : Lists
  pub gs : Lists
  pub cs : Lists

-- An array of no dimensions is left as it is by every step.
unfoldable pub gaifl_schedule : ℕ → ℕ → List ℕ → ℕ → List ℕ → Schedule → Option Schedule
unfolding schedule_satisfy_ind schedule_satisfy_tot schedule_opt
gaifl_schedule fuel max_btot max_bind max_gtot max_gind s = do
  (b1, c1) ← schedule_satisfy_ind fuel s.bs s.cs max_bind
  (g1, c2) ← schedule_satisfy_ind fuel s.gs c1 max_gind
  (b2, c3) ← schedule_satisfy_tot fuel b1 c2 max_btot
  (g2, c4) ← schedule_satisfy_tot fuel g1 c3 max_gtot
  (c5, b3) ← schedule_opt fuel c4 b2 max_btot max_bind
  (c6, g3) ← schedule_opt fuel c5 g2 max_gtot max_gind
  some (record { bs = b3; gs = g3; cs = c6 })

-- A list that gaIFactorize returns 0 for stays uninitialized.
abbrev initialized : Outcome → Option (List Entry)
initialized (found fl) = some fl
initialized absent = none
initialized no_fuel = none

abbrev limit_of : ℕ → ℕ → ℕ → ℕ → ℕ
limit_of max_btot max_b max_gtot max_g =
    let kbs = if ltb max_btot max_b then max_btot else max_b in
    let kgs = if ltb max_gtot max_g then max_gtot else max_g in if ltb kbs kgs then kbs else kgs

module _ (is_prime : ℕ → Bool) where
  -- The lists of numbers, each under the stricter limit of its dimension.
  unfoldable pub factor_all : ℕ → ℕ → List ℕ → ℕ → List ℕ → List ℕ → Option Lists
  factor_all fuel max_btot (max_b ∷ max_bind) max_gtot (max_g ∷ max_gind) (x ∷ xs) = do
    fl ←
        initialized
          (gai_factorize is_prime fuel x (2 ^ 64 - 1) (limit_of max_btot max_b max_gtot max_g))
    fls ← factor_all fuel max_btot max_bind max_gtot max_gind xs
    some (fl ∷ fls)
  factor_all fuel max_btot max_bind max_gtot max_gind xs = some []

  -- The sizes of blocks, grids and chunks that result.
  unfoldable pub gai_schedule :
      ℕ → ℕ → List ℕ → ℕ → List ℕ → List ℕ → List ℕ → List ℕ → Option (List ℕ × (List ℕ × List ℕ))
  unfolding factor_all gaifl_schedule
  gai_schedule fuel max_btot max_bind max_gtot max_gind bs gs cs = do
    fact_bs ← factor_all fuel max_btot max_bind max_gtot max_gind bs
    fact_gs ← factor_all fuel max_btot max_bind max_gtot max_gind gs
    fact_cs ← factor_all fuel max_btot max_bind max_gtot max_gind cs
    s ←
        gaifl_schedule fuel max_btot max_bind max_gtot max_gind
          (record { bs = fact_bs; gs = fact_gs; cs = fact_cs })
    some (products s.bs, (products s.gs, products s.cs))
