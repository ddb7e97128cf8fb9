-- ===== src/Factor/Add.antt =====
-- gaIFLAddFactors of src/util/integerfactoring.c multiplies and divides the number of a list.
use libgpuarray.Base.{
  ℕ, zero, suc, ◌+◌, ◌*◌, ◌^◌, ◌≤◌, ◌<◌, Bool, true, false, ◌||◌, Option, none, some, List, [], ◌∷◌,
  ltb, ◌==◌, if◌then◌else◌, length, pos, ◌≡◌, inl, inr, refl, sym, ap, ◌∙◌, arith, Bool-cases,
  ==_iff, ltb→lt,
}
use native.Mathlib.Nat.{pow-succ', pow-zero, mul_comm, mul_assoc, mul-one, one-mul}
use libgpuarray.Factor.{
  Entry, add_power, add_loop, gaifl_full, cons?, or_same, gaifl_add_factors, gaifl_get_factor_power,
}
use libgpuarray.Factor.Product.{product, pow-add, AllAbove, IsFactorList}

-- The list that results, if there is one, stands for `k` times the number of `fl`.
abbrev pub Times : ℕ → ℕ → List Entry → Option (List Entry) → Type 0
Times n k fl none = Unit
Times n k fl (some fl') = (product fl' ≡ product fl * k) × AllAbove n fl'

cons?-Times :
    (n k : ℕ) (e : Entry) (es : List Entry) (r : Option (List Entry))
    → n < e.f
    → 0 < e.p
    → e.p < 256
    → Times e.f k es r
    → Times n k (e ∷ es) (cons? e r)
unfolding product
cons?-Times n k e es none h p q t = tt
cons?-Times n k e es (some es') h p q t = (
  (let d : product es' ≡ product es * k = t.0 in rw d (sym (mul_assoc (e.f ^ e.p) (product es) k))),
  (h, p, q, t.1),
)

fresh-product : (f p q k : ℕ) → q ≡ p → f ^ q * k ≡ k * f ^ p
fresh-product f p q k e = rw e (mul_comm (f ^ p) k)

more-product : (f a b c k : ℕ) → c ≡ a + b → f ^ c * k ≡ f ^ a * k * f ^ b
more-product f a b c k e =
    rw (e, pow-add f a b)
      (mul_assoc (f ^ a) (f ^ b) k
        ∙ ap (λ t. f ^ a * t) (mul_comm (f ^ b) k)
        ∙ sym (mul_assoc (f ^ a) k (f ^ b)))

inserted :
    (full : Bool) (n : ℕ) (e : Entry) (es : List Entry) (f p : ℕ)
    → AllAbove n (e ∷ es)
    → n < f
    → 0 < p
    → p < 256
    → f < e.f
    → Times n
        (f ^ p)
        (e ∷ es)
        (if full then none else some (record { f = f; p = add_power 0 (pos p) } ∷ e ∷ es))
unfolding product
inserted true n e es f p v h k w l = tt
inserted false n e es f p v h k w l = (
  fresh-product f p (add_power 0 (pos p)) (product (e ∷ es)) (omega arith),
  (h, omega arith, omega arith, (l, v.1, v.2, v.3)),
)

pub add_loop-Times :
    (full : Bool) (n : ℕ) (fl : List Entry) (f p : ℕ)
    → AllAbove n fl
    → n < f
    → 0 < p
    → gaifl_get_factor_power fl f + p < 256
    → Times n (f ^ p) fl (add_loop full fl f (pos p))
unfolding add_loop gaifl_get_factor_power product
add_loop-Times true n [] f p v h k g = tt
add_loop-Times false n [] f p v h k g =
    (fresh-product f p (add_power 0 (pos p)) 1 (omega arith), omega arith)
add_loop-Times full n (e ∷ es) f p v h k g = elim (Bool-cases (e.f == f)) [
  | inl a ↦ rw a (
      let w : e.p + p < 256 = rw a at g in
      let c : add_power e.p (pos p) ≡ e.p + p = omega arith in
      let b : (add_power e.p (pos p) == 0) ≡ false = ground arith in
      let same : e.f ≡ f = (==_iff e.f f).0 a in
      rw b (
        rw (← same) (more-product e.f e.p p (add_power e.p (pos p)) (product es) c),
        (v.0, omega arith, omega arith, v.3),
      ))
  | inr a ↦ rw a (
      let w : gaifl_get_factor_power es f + p < 256 = rw a at g in
      elim (Bool-cases (ltb f e.f)) [
        | inl b ↦ rw b (inserted full n e es f p v h k (omega arith) (ltb→lt f e.f b))
        | inr b ↦ rw b (
            cons?-Times n (f ^ p) e es (add_loop full es f (pos p)) v.0 v.1 v.2
              (add_loop-Times full e.f es f p v.3 (ground arith) k w))
      ])
]

-- A list that is not full takes every factor, and no list gets shorter.
abbrev Longer : Bool → List Entry → Option (List Entry) → Type 0
Longer full fl none = full ≡ true
Longer full fl (some fl') = length fl ≤ length fl'

cons?-Longer :
    (full : Bool) (e : Entry) (es : List Entry) (r : Option (List Entry))
    → Longer full es r
    → Longer full (e ∷ es) (cons? e r)
cons?-Longer full e es none h = h
cons?-Longer full e es (some es') h = omega arith

add_loop-Longer :
    (full : Bool) (n : ℕ) (fl : List Entry) (f p : ℕ)
    → AllAbove n fl
    → 0 < p
    → gaifl_get_factor_power fl f + p < 256
    → Longer full fl (add_loop full fl f (pos p))
unfolding add_loop gaifl_get_factor_power
add_loop-Longer true n [] f p v k g = refl
add_loop-Longer false n [] f p v k g = omega arith
add_loop-Longer full n (e ∷ es) f p v k g = elim (Bool-cases (e.f == f)) [
  | inl a ↦ rw a (
      let w : e.p + p < 256 = rw a at g in
      let b : (add_power e.p (pos p) == 0) ≡ false = ground arith in rw b (omega arith))
  | inr a ↦ rw a (
      let w : gaifl_get_factor_power es f + p < 256 = rw a at g in
      elim (Bool-cases (ltb f e.f)) [
        | inl b ↦ rw b (elim (Bool-cases full) [ inl c ↦ rw c refl | inr c ↦ rw c (omega arith) ])
        | inr b ↦ rw b (
            cons?-Longer full e es (add_loop full es f (pos p))
              (add_loop-Longer full e.f es f p v.3 k w))
      ])
]

one-pow : (p : ℕ) → 1 ^ p ≡ 1
one-pow zero = refl
one-pow (suc p) = pow-succ' 1 p ∙ one-mul (1 ^ p) ∙ one-pow p

times_one :
    (fl : List Entry) (f p : ℕ) → ((p == 0) || (f == 1)) ≡ true → product fl * f ^ p ≡ product fl
times_one fl f p e = elim (Bool-cases (p == 0)) [
  | inl a ↦ rw ((==_iff p 0).0 a) (ap (λ t. product fl * t) (pow-zero f) ∙ mul-one (product fl))
  | inr a ↦ let b : f ≡ 1 = ground arith in rw (b, one-pow p) (mul-one (product fl))
]

-- What gaIFLAddFactors does with `p` powers of `f`: it adds them, or the list is full and stays.
pub record Adds (fl : List Entry) (f p : ℕ) (r : List Entry × Bool) : Type 0 where
  pub added : r.1 ≡ true → product r.0 ≡ product fl * f ^ p
  pub kept : r.1 ≡ false → (r.0 ≡ fl) × (15 ≤ length fl)
  pub proper : IsFactorList r.0
  pub longer : length fl ≤ length r.0

or_same-Adds :
    (fl : List Entry) (f p : ℕ) (r : Option (List Entry))
    → IsFactorList fl
    → Times 1 (f ^ p) fl r
    → Longer (gaifl_full fl) fl r
    → Adds fl f p (or_same fl r)
unfolding gaifl_full
or_same-Adds fl f p none v t l = record {
  added = λ e. cc;
  kept = λ e. (refl, ground arith);
  proper = v;
  longer = omega arith;
}
or_same-Adds fl f p (some fl') v t l = record {
  added = λ e. t.0;
  kept = λ e. cc;
  proper = t.1;
  longer = l;
}

-- gaIFLAddFactors with `p` powers of a factor `f`, not 0, where the power in the list does not
-- overflow: it returns 1 and multiplies the number of the list by `f ^ p`, or the list is full and
-- stays. The factors still grow, and the list gets no shorter.
pub gaifl_add_factors-Adds :
    (fl : List Entry) (f p : ℕ)
    → IsFactorList fl
    → 0 < f
    → gaifl_get_factor_power fl f + p < 256
    → Adds fl f p (gaifl_add_factors fl f (pos p))
unfolding gaifl_add_factors
gaifl_add_factors-Adds fl f p v h g = elim (Bool-cases ((p == 0) || (f == 1))) [
  | inl e ↦ rw e record {
    added = λ _. sym (times_one fl f p e);
    kept = λ c. cc;
    proper = v;
    longer = omega arith;
  }
  | inr e ↦ rw e (
      or_same-Adds fl f p (add_loop (gaifl_full fl) fl f (pos p)) v
        (add_loop-Times (gaifl_full fl) 1 fl f p v (ground arith) (ground arith) g)
        (add_loop-Longer (gaifl_full fl) 1 fl f p v (ground arith) g))
]
