-- ===== src/Factor/Take.antt =====
-- gaIFLAddFactors of src/util/integerfactoring.c with a power of -1, and the moves of a factor from
-- list to list that the schedulers make.
use libgpuarray.Base.{
  ℕ, suc, ◌*◌, ◌^◌, ◌≤◌, ◌<◌, Bool, true, false, Option, none, some, List, [], ◌∷◌, ltb, ◌==◌,
  if◌then◌else◌, length, pos, negsuc, ◌≡◌, inl, inr, sym, ap, ◌∙◌, arith, Bool-cases, ==_iff,
}
use native.Mathlib.Nat.{pow-succ', pow-zero, mul_comm, mul_assoc, mul-one, one-mul}
use libgpuarray.Factor.{
  Entry, add_power, add_loop, gaifl_full, cons?, or_same, gaifl_add_factors, gaifl_get_factor_power,
}
use libgpuarray.Factor.Product.{product, AllAbove, IsFactorList}
use libgpuarray.Factor.Add.{gaifl_add_factors-Adds}
use libgpuarray.Factor.Schedule.{taken, given}

-- The list that results, and there is one, stands for the number of `fl` divided by `f`.
abbrev Takes : ℕ → ℕ → List Entry → Option (List Entry) → Type 0
Takes n f fl none = ⊥
Takes n f fl (some fl') = (product fl' * f ≡ product fl) × AllAbove n fl' × (length fl' ≤ length fl)

cons?-Takes :
    (n f : ℕ) (e : Entry) (es : List Entry) (r : Option (List Entry))
    → n < e.f
    → 0 < e.p
    → e.p < 256
    → Takes e.f f es r
    → Takes n f (e ∷ es) (cons? e r)
unfolding product
cons?-Takes n f e es none h p q t = absurd t
cons?-Takes n f e es (some es') h p q t = (
  mul_assoc (e.f ^ e.p) (product es') f ∙ ap (λ x. e.f ^ e.p * x) t.0,
  (h, p, q, t.1),
  omega (arith, t.2),
)

-- A list above `n` is above a smaller number.
AllAbove-lower : (m n : ℕ) (fl : List Entry) → m ≤ n → AllAbove n fl → AllAbove m fl
AllAbove-lower m n [] h v = tt
AllAbove-lower m n (e ∷ es) h v = (omega (arith, v.0), v.1, v.2, v.3)

less_power : (f p q k : ℕ) → p ≡ suc q → f ^ q * k * f ≡ f ^ p * k
less_power f p q k e = rw (e, pow-succ' f q) (mul_comm (f ^ q * k) f ∙ sym (mul_assoc f (f ^ q) k))

-- One of the factors of the entry at the head is taken.
taken_head :
    (n : ℕ) (e : Entry) (es : List Entry)
    → AllAbove n (e ∷ es)
    → Takes n e.f (e ∷ es) (
        if add_power e.p (negsuc 0) == 0
        then some es
        else some (record e { p = add_power e.p (negsuc 0) } ∷ es))
unfolding product
taken_head n e es v =
    let a : 0 < e.p = v.1 in
    let b : e.p < 256 = v.2 in
    let c : e.p ≡ suc (add_power e.p (negsuc 0)) = omega arith in
    let less = less_power e.f e.p (add_power e.p (negsuc 0)) (product es) c in
    elim (Bool-cases (add_power e.p (negsuc 0) == 0)) [
      | inl z ↦ rw z (
          let d : add_power e.p (negsuc 0) ≡ 0 = (==_iff (add_power e.p (negsuc 0)) 0).0 z in
          let one : e.f ^ add_power e.p (negsuc 0) * product es ≡ product es =
            rw (d, pow-zero e.f) (one-mul (product es)) in
          (
            ap (λ x. x * e.f) (sym one) ∙ less,
            AllAbove-lower n e.f es (omega (arith, v.0)) v.3,
            omega arith,
          ))
      | inr z ↦ rw z (less, (v.0, ground (arith, z), omega arith, v.3), omega arith)
    ]

take_loop-Takes :
    (full : Bool) (n : ℕ) (fl : List Entry) (f : ℕ)
    → AllAbove n fl
    → 0 < gaifl_get_factor_power fl f
    → Takes n f fl (add_loop full fl f (negsuc 0))
unfolding add_loop gaifl_get_factor_power
take_loop-Takes full n [] f v h = absurd (omega arith)
take_loop-Takes full n (e ∷ es) f v h = elim (Bool-cases (e.f == f)) [
  | inl a ↦ rw a (let same : e.f ≡ f = (==_iff e.f f).0 a in rw (← same) (taken_head n e es v))
  | inr a ↦ rw a (
      let w : 0 < gaifl_get_factor_power es f = rw a at h in
      let b : ltb f e.f ≡ false = above e.f es f v.3 w in
      rw b (
        cons?-Takes n f e es (add_loop full es f (negsuc 0)) v.0 v.1 v.2
          (take_loop-Takes full e.f es f v.3 w)))
]
  where
    above :
        (n : ℕ) (es : List Entry) (f : ℕ)
        → AllAbove n es
        → 0 < gaifl_get_factor_power es f
        → ltb f n ≡ false
    above n [] f v h = absurd (omega arith)
    above n (e ∷ es) f v h = elim (Bool-cases (e.f == f)) [
      | inl a ↦ let same : e.f ≡ f = (==_iff e.f f).0 a in ground (arith, v.0)
      | inr a ↦
          let w : 0 < gaifl_get_factor_power es f = rw a at h in
          let b = above e.f es f v.3 w in ground (arith, b, v.0)
    ]

pub factor_above :
    (n : ℕ) (fl : List Entry) (f : ℕ) → AllAbove n fl → 0 < gaifl_get_factor_power fl f → n < f
unfolding gaifl_get_factor_power
factor_above n [] f v h = absurd (omega arith)
factor_above n (e ∷ es) f v h = elim (Bool-cases (e.f == f)) [
  | inl a ↦ let same : e.f ≡ f = (==_iff e.f f).0 a in rw (← same) v.0
  | inr a ↦
      let w : 0 < gaifl_get_factor_power es f = rw a at h in
      omega (arith, factor_above e.f es f v.3 w, v.0)
]

or_same-Takes :
    (f : ℕ) (fl : List Entry) (r : Option (List Entry))
    → Takes 1 f fl r
    → (product (or_same fl r).0 * f ≡ product fl) × IsFactorList (or_same fl r).0
or_same-Takes f fl none t = absurd t
or_same-Takes f fl (some fl') t = (t.0, t.1)

pub product-taken :
    (fl : List Entry) (f : ℕ)
    → IsFactorList fl
    → 0 < gaifl_get_factor_power fl f
    → (product (taken fl f) * f ≡ product fl) × IsFactorList (taken fl f)
unfolding gaifl_add_factors
product-taken fl f v h =
    let up : 1 < f = factor_above 1 fl f v h in
    let ne : (f == 1) ≡ false = ground arith in
    rw (taken, ne)
      (or_same-Takes f fl (add_loop (gaifl_full fl) fl f (negsuc 0))
        (take_loop-Takes (gaifl_full fl) 1 fl f v h))

pub product-given :
    (fl : List Entry) (f : ℕ)
    → IsFactorList fl
    → 0 < f
    → gaifl_get_factor_power fl f < 255
    → length fl < 15
    → (product (given fl f) ≡ product fl * f) × IsFactorList (given fl f)
product-given fl f v h p room =
    let a = gaifl_add_factors-Adds fl f 1 v h (omega arith) in
    let yes : (gaifl_add_factors fl f (pos 1)).1 ≡ true =
      elim (Bool-cases (gaifl_add_factors fl f (pos 1)).1) [
        | inl e ↦ e
        | inr e ↦ absurd (omega (arith, (a.kept e).1))
      ] in
    (a.added yes ∙ ap (λ x. product fl * x) (rw (pow-succ' f 0, pow-zero f) (mul-one f)), a.proper)

-- A move of a factor that the first list has to a second list, which has less than 15 factors and the
-- factor less than 255 times: the numbers of the two lists have the same product after it, and both
-- stay lists of growing factors.
pub given-taken :
    (from to : List Entry) (f : ℕ)
    → IsFactorList from
    → IsFactorList to
    → 0 < gaifl_get_factor_power from f
    → gaifl_get_factor_power to f < 255
    → length to < 15
    → (product (taken from f) * product (given to f) ≡ product from * product to)
      × (IsFactorList (taken from f) × IsFactorList (given to f))
given-taken from to f v w h p room =
    let t = product-taken from f v h in
    let up : 1 < f = factor_above 1 from f v h in
    let g = product-given to f w (omega arith) p room in
    (
      rw (g.0, ← t.0)
          (ap (λ x. product (taken from f) * x) (mul_comm (product to) f)
            ∙ sym (mul_assoc (product (taken from f)) f (product to))),
      (t.1, g.1),
    )
