-- ===== src/Factor/Partial.antt =====
-- What the master loop of gaIFactorize in src/util/integerfactoring.c keeps while it splits a number.
use libgpuarray.Base.{
  ℕ, zero, suc, ◌+◌, ◌-◌, ◌*◌, ◌/◌, ◌%◌, ◌^◌, ◌≤◌, ◌<◌, Bool, true, false, List, ltb, length, pos,
  ◌≡◌, ◌⊎◌, inl, inr, sym, ap, ◌∙◌, arith, Bool-cases, ltb→lt,
}
use native.Mathlib.Nat.{
  pow-zero, zero-mul, mul_comm, mul_assoc, mul-one, le_trans, le-mul_of_pos_right, mul-le-mul_left,
  mod-eq_of_lt, mod-add-div', lt-mul-div-succ, one-le-pow,
}
use libgpuarray.Factor.{Entry, gaifl_add_factors, gaifl_get_factor_power, gaifl_get_product}
use libgpuarray.Factor.Product.{product, product-pos, IsFactorList, gaifl_get_product-mod}
use libgpuarray.Factor.Add.{Adds, gaifl_add_factors-Adds}
use libgpuarray.Factor.Limit.{AllUpTo, gaifl_add_factors-AllUpTo, power-bound}
use libgpuarray.Factor.Smooth.{gai_ctz}
use libgpuarray.Factor.Divide.{gai_ctz-Shifted, divide_out-divides}
use libgpuarray.Factor.Search.{with_factor, divide_out, divided_up}

-- The list and what is left of the number to factor. A full list of 15 factors takes no more.
pub record Partial (n max_n k : ℕ) (fl : List Entry) (x : ℕ) : Type 0 where
  pub proper : IsFactorList fl
  pub positive : 0 < x
  pub upper : product fl * x ≤ max_n
  pub lower : (n ≤ product fl * x) ⊎ (15 ≤ length fl)
  pub smooth : AllUpTo k fl

lower-Adds :
    (n : ℕ) (fl : List Entry) (f c y : ℕ) (r : List Entry × Bool)
    → Adds fl f c r
    → (n ≤ product fl * (f ^ c * y)) ⊎ (15 ≤ length fl)
    → (n ≤ product r.0 * y) ⊎ (15 ≤ length r.0)
lower-Adds n fl f c y r a (inr h) = inr (le_trans h a.longer)
lower-Adds n fl f c y r a (inl h) = elim (Bool-cases r.1) [
  | inl e ↦ inl (rw (a.added e, mul_assoc (product fl) (f ^ c) y) h)
  | inr e ↦ inr (le_trans (a.kept e).1 a.longer)
]

upper-Adds :
    (m : ℕ) (fl : List Entry) (f c y : ℕ) (r : List Entry × Bool)
    → 0 < f
    → Adds fl f c r
    → product fl * (f ^ c * y) ≤ m
    → product r.0 * y ≤ m
upper-Adds m fl f c y r p a h = elim (Bool-cases r.1) [
  | inl e ↦ rw (a.added e, mul_assoc (product fl) (f ^ c) y) h
  | inr e ↦ rw (a.kept e).0 (
      let g : y ≤ y * f ^ c = le-mul_of_pos_right y (one-le-pow c f p) in
      le_trans (mul-le-mul_left (product fl) (rw (mul_comm (f ^ c) y) g)) h)
]

-- Moving powers of a factor from the number to the list.
pub with_factor-Partial :
    (n max_n k : ℕ) (fl : List Entry) (f c y : ℕ)
    → max_n < 2 ^ 64
    → 0 < f
    → f ≤ k
    → gaifl_get_factor_power fl f + c < 256
    → 0 < y
    → Partial n max_n k fl (f ^ c * y)
    → Partial n max_n k (with_factor fl f c) y
with_factor-Partial n max_n k fl f c y m p h w q v =
    let a = gaifl_add_factors-Adds fl f c v.proper p w in
    record {
      proper = a.proper;
      positive = q;
      upper = upper-Adds max_n fl f c y (gaifl_add_factors fl f (pos c)) p a v.upper;
      lower = lower-Adds n fl f c y (gaifl_add_factors fl f (pos c)) a v.lower;
      smooth = gaifl_add_factors-AllUpTo k fl f c v.smooth h;
    }

pub split-Partial :
    (n max_n k : ℕ) (fl : List Entry) (f c y x : ℕ)
    → max_n < 2 ^ 64
    → 2 ≤ f
    → f ≤ k
    → x ≡ f ^ c * y
    → 0 < y
    → Partial n max_n k fl x
    → Partial n max_n k (with_factor fl f c) y
split-Partial n max_n k fl f c y x m p h e q v =
    let v' : Partial n max_n k fl (f ^ c * y) = rw (← e) v in
    let b : gaifl_get_factor_power fl f + c < 64 =
      power-bound fl f c y v.proper p q (omega (arith, v'.upper)) in
    with_factor-Partial n max_n k fl f c y m (omega arith) h (omega arith) q v'

-- Taking the twos out.
pub subfactorize-Partial :
    (n max_n k : ℕ) (fl : List Entry) (x : ℕ)
    → max_n < 2 ^ 64
    → 2 ≤ k
    → Partial n max_n k fl x
    → Partial n max_n k (with_factor fl 2 (gai_ctz x)) (x / 2 ^ gai_ctz x)
subfactorize-Partial n max_n k fl x m h v =
    let small : x ≤ product fl * x =
      rw (mul_comm (product fl) x) (le-mul_of_pos_right x (product-pos 1 fl v.proper)) in
    let s = gai_ctz-Shifted x v.positive (omega (arith, v.upper)) in
    let odd = s.1 in
    split-Partial n max_n k fl 2 (gai_ctz x) (x / 2 ^ gai_ctz x) x m (omega arith) h s.0
      (omega arith) v

-- Taking a divisor out.
pub divided-Partial :
    (n max_n k : ℕ) (fl : List Entry) (x g : ℕ)
    → max_n < 2 ^ 64
    → 2 ≤ g
    → g ≤ k
    → x % g ≡ 0
    → Partial n max_n k fl x
    → Partial n max_n k (with_factor fl g (divide_out 64 g x 0).1) (divide_out 64 g x 0).0
divided-Partial n max_n k fl x g m p h e v =
    let d = divide_out-divides 64 g x 0 (omega arith) v.positive e in
    let y = (divide_out 64 g x 0).0 in
    let c = (divide_out 64 g x 0).1 in
    let same : x ≡ g ^ c * y =
      sym (mul-one x) ∙ ap (λ t. x * t) (sym (pow-zero g)) ∙ sym (d.0) ∙ mul_comm y (g ^ c) in
    split-Partial n max_n k fl g c y x m p h same d.1 v

module _ (n max_n k : ℕ) (fl : List Entry) (x : ℕ) (m : max_n < 2 ^ 64) (h : n ≤ max_n)
    (v : Partial n max_n k fl x) where
  p-pos : 0 < product fl
  p-pos = product-pos 1 fl v.proper

  -- The product does not overflow.
  pub product-exact : gaifl_get_product fl ≡ product fl
  product-exact =
      let small : product fl ≤ product fl * x = le-mul_of_pos_right (product fl) v.positive in
      gaifl_get_product-mod fl ∙ mod-eq_of_lt (omega (arith, small, v.upper))

  n-le-divided_up : n ≤ product fl * divided_up n (product fl)
  n-le-divided_up =
      let p = product fl in
      let below : n / p * p ≤ n = omega (arith, mod-add-div' n p) in
      let above : n < p * (n / p + 1) = lt-mul-div-succ n p-pos in
      let exact : n / p * p % 2 ^ 64 ≡ n / p * p = mod-eq_of_lt (omega arith) in
      elim (Bool-cases (ltb (n / p * p) n)) [
        | inl e ↦ rw (exact, e) (omega (arith, above))
        | inr e ↦ rw (exact, e) (ground (arith, mul_comm p (n / p + 0)))
      ]

  -- A smaller cofactor that is still large enough.
  pub divided_up-Partial :
      0 < n
      → ltb (divided_up n (product fl)) x ≡ true
      → Partial n max_n k fl (divided_up n (product fl))
  divided_up-Partial q e = record {
    proper = v.proper;
    positive = cofactor-pos (divided_up n (product fl)) n-le-divided_up;
    upper =
        le_trans
          (mul-le-mul_left (product fl) (omega (arith, ltb→lt (divided_up n (product fl)) x e)))
          v.upper;
    lower = inl n-le-divided_up;
    smooth = v.smooth;
  }
    where
      cofactor-pos : (y : ℕ) → n ≤ product fl * y → 0 < y
      cofactor-pos zero l = absurd (omega (arith, mul_comm (product fl) 0, zero-mul (product fl)))
      cofactor-pos (suc y) l = omega arith

  -- The next cofactor, if it is not too large.
  pub next-Partial :
      ltb ((max_n + 2 ^ 64 - product fl * x % 2 ^ 64) % 2 ^ 64) (product fl) ≡ false
      → Partial n max_n k fl ((x + 1) % 2 ^ 64)
  next-Partial e =
      let u = v.upper in
      let exact : product fl * x % 2 ^ 64 ≡ product fl * x = mod-eq_of_lt (omega arith) in
      let room : product fl ≤ max_n - product fl * x = ground (arith, rw exact at e) in
      let more : product fl * (x + 1) ≤ max_n = omega arith in
      let small : x + 1 ≤ product fl * (x + 1) =
        rw (mul_comm (product fl) (x + 1)) (le-mul_of_pos_right (x + 1) p-pos) in
      rw (mod-eq_of_lt {n = x + 1} {m = 2 ^ 64} (omega arith)) record {
        proper = v.proper;
        positive = omega arith;
        upper = more;
        lower = raised v.lower (omega arith);
        smooth = v.smooth;
      }
    where
      raised :
          (n ≤ product fl * x) ⊎ (15 ≤ length fl)
          → product fl * x ≤ product fl * (x + 1)
          → (n ≤ product fl * (x + 1)) ⊎ (15 ≤ length fl)
      raised (inl l) g = inl (le_trans l g)
      raised (inr l) g = inr l
