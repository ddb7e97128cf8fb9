-- ===== src/Factor/Limits.antt =====
-- gaIFLScheduleSatisfyTot of src/util/integerfactoring.c ends within its limit.
use libgpuarray.Base.{
  ℕ, zero, suc, ◌-◌, ◌*◌, ◌/◌, ◌%◌, ◌^◌, ◌≤◌, ◌<◌, true, false, Option, none, some, List, [], ◌∷◌,
  ltb, ◌==◌, if◌then◌else◌, ◌≡◌, ◌⊎◌, inl, inr, refl, sym, ap, ◌∙◌, arith, Bool-cases, ==_iff,
  ltb→lt, get_or, set, length, negsuc,
}
use native.Mathlib.Nat.{
  mul_comm, mul_assoc, one-mul, one-le-pow, mod-eq_of_lt, mul-le-mul_left, le-mul_of_pos_right,
  mul-div_cancel_left,
}
use mathlib.Core.Path.{subst}
use libgpuarray.Factor.{Entry, add_power, gaifl_add_factors, gaifl_get_factor_power}
use libgpuarray.Factor.Product.{product, IsFactorList}
use libgpuarray.Factor.Take.{product-taken}
use libgpuarray.Factor.Schedule.{
  taken, given, move_loop, tot_loop, gaifl_get_smallest_factorv, gaifl_get_productv, productv_loop,
  schedule_satisfy_tot,
}
use libgpuarray.Factor.Lists.{
  vproduct, total, AllProper, productv_loop-mod, Hole, Hole-at, head_power,
}
use libgpuarray.Factor.Smallest.{HeadAt, smallestv-HeadAt, AllEmpty-vproduct, total-AllEmpty}

-- After the inner loop the product is within the limit, or all powers of the first factor are gone.
Moved : ℕ → ℕ → List Entry → ℕ × (List Entry × List Entry) → Type 0
Moved max q es m = (m.0 ≡ q * product m.1.0) × IsFactorList m.1.0 × ((m.0 ≤ max) ⊎ (m.1.0 ≡ es))

head_taken :
    (e : Entry) (es : List Entry)
    → IsFactorList (e ∷ es)
    → taken (e ∷ es) e.f ≡ (if e.p == 1 then es else record e { p = e.p - 1 } ∷ es)
unfolding gaifl_add_factors
head_taken e es v =
    let ne : (e.f == 1) ≡ false = ground (arith, v.0) in
    let same : (e.f == e.f) ≡ true = (==_iff e.f e.f).1 refl in
    let a : 0 < e.p = v.1 in
    let b : e.p < 256 = v.2 in
    let less : add_power e.p (negsuc 0) ≡ e.p - 1 = omega arith in
    rw (taken, ne, same, less)
      (elim (Bool-cases (e.p == 1)) [
        | inl z ↦ let last : (e.p - 1 == 0) ≡ true = ground arith in rw (z, last) refl
        | inr z ↦ let more : (e.p - 1 == 0) ≡ false = ground arith in rw (z, more) refl
      ])

-- The division of the product by a factor that the list has is exact.
divided : (q x f y : ℕ) → 0 < f → x * f ≡ y → q * y / f ≡ q * x
divided q x f y h e =
    rw (← e, ← mul_assoc q x f, mul_comm (q * x) f) (mul-div_cancel_left (q * x) h)

move_loop-Moved :
    (c max q : ℕ) (e : Entry) (es to : List Entry)
    → IsFactorList (e ∷ es)
    → c ≡ e.p
    → Moved max q es (move_loop c max (q * product (e ∷ es)) e.f (e ∷ es) to)
unfolding move_loop Moved
move_loop-Moved zero max q e es to v h = absurd (omega (arith, v.1))
move_loop-Moved (suc c) max q e es to v h = elim (Bool-cases (ltb max (q * product (e ∷ es)))) [
  | inr a ↦ rw a (refl, v, inl (ground arith))
  | inl a ↦
      let power : 0 < gaifl_get_factor_power (e ∷ es) e.f = omega (arith, head_power e es) in
      let t = product-taken (e ∷ es) e.f v power in
      let d =
        divided q (product (taken (e ∷ es) e.f)) e.f (product (e ∷ es)) (omega (arith, v.0)) t.0 in
      rw (a, d)
        (subst
          (λ x.
            IsFactorList x → Moved max q es (move_loop c max (q * product x) e.f x (given to e.f)))
          (sym (head_taken e es v))
          (elim (Bool-cases (e.p == 1)) [
            | inl z ↦
                rw z
                  (let none_left : c ≡ 0 = ground arith in rw none_left (λ w. (refl, w, inr refl)))
            | inr z ↦ rw z (λ w.
                move_loop-Moved c max q (record e { p = e.p - 1 }) es (given to e.f) w
                  (omega arith))
          ])
          t.1)
]

-- Some lists come out, whose product is within the limit.
abbrev pub Within : ℕ → Option (List (List Entry) × List (List Entry)) → Type 0
Within max none = ⊥
Within max (some (from, to)) = (vproduct from ≤ max) × AllProper from

tot_loop-done :
    (fuel max : ℕ) (from to : List (List Entry))
    → AllProper from
    → vproduct from ≤ max
    → Within max (tot_loop fuel max (vproduct from) from to)
unfolding tot_loop
tot_loop-done zero max from to v h =
    let a : ltb max (vproduct from) ≡ false = ground arith in rw a (h, v)
tot_loop-done (suc fuel) max from to v h =
    let a : ltb max (vproduct from) ≡ false = ground arith in rw a (h, v)

move_at :
    (c max p f q : ℕ) (x to : List Entry) (e : Entry) (es : List Entry)
    → x ≡ e ∷ es
    → f ≡ e.f
    → c ≡ gaifl_get_factor_power x f
    → IsFactorList x
    → p ≡ q * product x
    → Moved max q es (move_loop c max p f x to)
move_at c max p f q x to e es hx hf hc v hp =
    let w : IsFactorList (e ∷ es) = subst IsFactorList hx v in
    let n : c ≡ e.p =
      hc
      ∙ ap (λ y. gaifl_get_factor_power y f) hx
      ∙ ap (gaifl_get_factor_power (e ∷ es)) hf
      ∙ head_power e es in
    rw (hp, hf, hx) (move_loop-Moved c max q e es to w n)

HeadAt-proper :
    (fls : List (List Entry)) (a f : ℕ) (h : HeadAt fls a f)
    → IsFactorList (get_or fls a [])
    → IsFactorList (h.e ∷ h.es)
HeadAt-proper fls a f h v = subst IsFactorList h.at v

product-cons : (e : Entry) (es : List Entry) → product (e ∷ es) ≡ product es * e.f ^ e.p
unfolding product
product-cons e es = mul_comm (e.f ^ e.p) (product es)

not_zero : (f : ℕ) → 0 < f → (f == 0) ≡ false
not_zero f h = ground arith

-- The lists after the inner loop are smaller, or within the limit.
after_move :
    (fuel max a f : ℕ) (from to : List (List Entry)) (o : Hole from a) (h : HeadAt from a f)
    (m : ℕ × (List Entry × List Entry))
    → vproduct from < 2 ^ 64
    → total from ≤ suc fuel
    → Moved max o.q h.es m
    → (AllProper (set from a m.1.0)
        → vproduct (set from a m.1.0) < 2 ^ 64
        → total (set from a m.1.0) ≤ fuel
        → Within max (tot_loop fuel max (vproduct (set from a m.1.0)) (set from a m.1.0) to))
    → Within max (tot_loop fuel max m.0 (set from a m.1.0) to)
unfolding Moved
after_move fuel max a f from to o h m u b t ih =
    let p : m.0 ≡ vproduct (set from a m.1.0) = t.0 ∙ sym (o.change m.1.0) in
    let k = o.kept m.1.0 t.1 in
    rw p (elim t.2 [
      | inl le ↦ tot_loop-done fuel max (set from a m.1.0) to k (omega (arith, p, le))
      | inr e ↦ ih k (fewer e) (shorter e)
    ])
  where
    lists : length (get_or from a []) ≡ suc (length h.es)
    lists = ap length h.at

    shorter : m.1.0 ≡ h.es → total (set from a m.1.0) ≤ fuel
    shorter e = omega (arith, o.entries m.1.0, ap length e, lists)

    fewer : m.1.0 ≡ h.es → vproduct (set from a m.1.0) < 2 ^ 64
    fewer e =
        let w = HeadAt-proper from a f h o.proper in
        let le : product h.es ≤ product h.es * h.e.f ^ h.e.p =
          le-mul_of_pos_right (product h.es) (one-le-pow h.e.p h.e.f (omega (arith, w.0))) in
        let d : product (get_or from a []) ≡ product h.es * h.e.f ^ h.e.p =
          ap product h.at ∙ product-cons h.e h.es in
        let q : o.q * product h.es ≤ o.q * product (get_or from a []) =
          mul-le-mul_left o.q (omega (arith, d, le)) in
        omega (arith, o.change m.1.0, ap (λ x. o.q * product x) e, o.whole, q)

pub tot_loop-Within :
    (fuel max : ℕ) (from to : List (List Entry))
    → 0 < max
    → AllProper from
    → vproduct from < 2 ^ 64
    → total from ≤ fuel
    → Within max (tot_loop fuel max (vproduct from) from to)
unfolding tot_loop
tot_loop-Within zero max from to k v u b =
    let one = AllEmpty-vproduct from (total-AllEmpty from (omega arith)) in
    tot_loop-done zero max from to v (omega (arith, one))
tot_loop-Within (suc fuel) max from to k v u b = elim (Bool-cases (ltb max (vproduct from))) [
  | inr a ↦ tot_loop-done (suc fuel) max from to v (ground arith)
  | inl a ↦ elim (smallestv-HeadAt from v u) [
    | inr empty ↦ absurd (omega (arith, ltb→lt max (vproduct from) a, AllEmpty-vproduct from empty))
    | inl h ↦
        let s = gaifl_get_smallest_factorv from in
        let o = Hole-at from s.1 h.inside v in
        let w = HeadAt-proper from s.1 s.0 h o.proper in
        let ne : (s.0 == 0) ≡ false = not_zero s.0 (omega (arith, h.same, w.0)) in
        let c = gaifl_get_factor_power (get_or from s.1 []) s.0 in
        let m = move_loop c max (vproduct from) s.0 (get_or from s.1 []) (get_or to s.1 []) in
        let t =
          move_at c max (vproduct from) s.0 o.q (get_or from s.1 []) (get_or to s.1 []) h.e h.es
            h.at h.same refl o.proper o.whole in
        rw (a, ne)
          (after_move fuel max s.1 s.0 from (set to s.1 m.1.1) o h m u b t
            (λ x y z. tot_loop-Within fuel max (set from s.1 m.1.0) (set to s.1 m.1.1) k x y z))
  ]
]

-- gaIFLScheduleSatisfyTot of lists of growing factors, whose numbers together are below 2 ^ 64, with a
-- limit over 0 and fuel for every entry: it ends, the product of the numbers of the first lists is then
-- within the limit, and their factors still grow.
pub schedule_satisfy_tot-Within :
    (fuel max : ℕ) (from to : List (List Entry))
    → 0 < max
    → AllProper from
    → vproduct from < 2 ^ 64
    → total from ≤ fuel
    → Within max (schedule_satisfy_tot fuel from to max)
unfolding schedule_satisfy_tot gaifl_get_productv
schedule_satisfy_tot-Within fuel max from to k v u b =
    let e : productv_loop from 1 ≡ vproduct from =
      productv_loop-mod from 1 ∙ ap (λ t. t % 2 ^ 64) (one-mul (vproduct from)) ∙ mod-eq_of_lt u in
    rw e (tot_loop-Within fuel max from to k v u b)
