-- ===== src/Factor/Smallest.antt =====
-- The search of gaIFLGetSmallestFactorv in src/util/integerfactoring.c.
use libgpuarray.Base.{
  ℕ, suc, ◌+◌, ◌-◌, ◌*◌, ◌^◌, ◌≤◌, ◌<◌, true, false, List, [], ◌∷◌, leb, if◌then◌else◌, ◌≡◌, ◌⊎◌,
  inl, inr, refl, ap, arith, Bool-cases, get_or, length,
}
use native.Mathlib.Nat.{mul_comm, le-mul_of_pos_right}
use libgpuarray.Factor.{Entry, gaifl_get_smallest_factor}
use libgpuarray.Factor.Product.{product, product-pos, IsFactorList}
use libgpuarray.Factor.Take.{product-taken}
use libgpuarray.Factor.Schedule.{taken, Pick, gaifl_get_smallest_factorv, smallest_loop}
use libgpuarray.Factor.Lists.{vproduct, total, AllProper, vproduct-pos, head_power}

abbrev pub AllEmpty : List (List Entry) → Type 0
AllEmpty [] = Unit
AllEmpty ([] ∷ fls) = AllEmpty fls
AllEmpty ((e ∷ es) ∷ fls) = ⊥

-- `f` is the first factor of the list at the place `a`.
pub record HeadAt (fls : List (List Entry)) (a f : ℕ) : Type 0 where
  pub e : Entry
  pub es : List Entry
  pub at : get_or fls a [] ≡ e ∷ es
  pub same : f ≡ e.f
  pub inside : a < length fls

HeadAt-after :
    (fl : List Entry) (fls : List (List Entry)) (a f : ℕ)
    → HeadAt fls a f
    → HeadAt (fl ∷ fls) (suc a) f
HeadAt-after fl fls a f h = record {
  e = h.e;
  es = h.es;
  at = h.at;
  same = h.same;
  inside = omega (arith, h.inside);
}

abbrev Located : List (List Entry) → ℕ → Pick → Type 0
Located fls i r = (a : ℕ) × HeadAt fls a r.f × (r.idx ≡ i + a) × (r.has_factors ≡ true)

Located-after :
    (fl : List Entry) (fls : List (List Entry)) (i : ℕ) (r : Pick)
    → Located fls (i + 1) r
    → Located (fl ∷ fls) i r
Located-after fl fls i r (a, h, e, t) = (suc a, HeadAt-after fl fls a r.f h, omega arith, t)

abbrev pick : ℕ → ℕ → Pick
pick f k = record { f = f; idx = k; has_factors = true }

picked-Located :
    (e : Entry) (es : List Entry) (fls : List (List Entry)) (i : ℕ) (r : Pick)
    → Located fls (i + 1) r ⊎ (r ≡ pick e.f i)
    → Located ((e ∷ es) ∷ fls) i r
picked-Located e es fls i r (inl l) = Located-after (e ∷ es) fls i r l
picked-Located e es fls i r (inr q) = (
  0,
  record { e = e; es = es; at = refl; same = ap (λ b. b.f) q; inside = omega arith },
  omega (arith, ap (λ b. b.idx) q),
  ap (λ b. b.has_factors) q,
)

smallest_loop-cons :
    (e : Entry) (es : List Entry) (fls : List (List Entry)) (i : ℕ) (b : Pick)
    → smallest_loop ((e ∷ es) ∷ fls) i b
      ≡ smallest_loop fls (i + 1) (if leb e.f b.f then pick e.f i else pick b.f b.idx)
unfolding smallest_loop gaifl_get_smallest_factor
smallest_loop-cons e es fls i b = refl

smallest_loop-Located :
    (fls : List (List Entry)) (i f k : ℕ)
    → Located fls i (smallest_loop fls i (pick f k)) ⊎ (smallest_loop fls i (pick f k) ≡ pick f k)
unfolding smallest_loop gaifl_get_smallest_factor
smallest_loop-Located [] i f k = inr refl
smallest_loop-Located ([] ∷ fls) i f k = elim (smallest_loop-Located fls (i + 1) f k) [
  | inl l ↦ inl (Located-after [] fls i (smallest_loop fls (i + 1) (pick f k)) l)
  | inr e ↦ inr e
]
smallest_loop-Located ((e ∷ es) ∷ fls) i f k = elim (Bool-cases (leb e.f f)) [
  | inl a ↦
      rw (smallest_loop-cons e es fls i (pick f k), a)
        (inl (
          picked-Located e es fls i (smallest_loop fls (i + 1) (pick e.f i))
            (smallest_loop-Located fls (i + 1) e.f i)))
  | inr a ↦
      rw (smallest_loop-cons e es fls i (pick f k), a)
        (elim (smallest_loop-Located fls (i + 1) f k) [
          | inl l ↦ inl (Located-after (e ∷ es) fls i (smallest_loop fls (i + 1) (pick f k)) l)
          | inr q ↦ inr q
        ])
]

factor-le-product : (e : Entry) (es : List Entry) → IsFactorList (e ∷ es) → e.f ≤ product (e ∷ es)
factor-le-product e es v =
    let t = product-taken (e ∷ es) e.f v (omega (arith, v.1, head_power e es)) in
    let p : 0 < product (taken (e ∷ es) e.f) = product-pos 1 (taken (e ∷ es) e.f) t.1 in
    rw (← t.0, mul_comm (product (taken (e ∷ es) e.f)) e.f) (le-mul_of_pos_right e.f p)

abbrev none_yet : Pick
none_yet = record { f = 2 ^ 64 - 1; idx = 0; has_factors = false }

rest :
    (fl : List Entry) (fls : List (List Entry))
    → AllProper (fl ∷ fls)
    → vproduct (fl ∷ fls) < 2 ^ 64
    → vproduct fls < 2 ^ 64
unfolding vproduct
rest fl fls v h =
    let more : vproduct fls ≤ vproduct fls * product fl =
      le-mul_of_pos_right (vproduct fls) (product-pos 1 fl v.0) in
    omega (arith, mul_comm (product fl) (vproduct fls))

leb_of_le : (a b : ℕ) → a ≤ b → leb a b ≡ true
leb_of_le a b h = ground arith

smallest_loop-first :
    (fls : List (List Entry)) (i : ℕ)
    → AllProper fls
    → vproduct fls < 2 ^ 64
    → Located fls i (smallest_loop fls i none_yet) ⊎ AllEmpty fls
unfolding smallest_loop gaifl_get_smallest_factor vproduct
smallest_loop-first [] i v h = inr tt
smallest_loop-first ([] ∷ fls) i v h =
    elim (smallest_loop-first fls (i + 1) v.1 (rest [] fls v h)) [
      | inl l ↦ inl (Located-after [] fls i (smallest_loop fls (i + 1) none_yet) l)
      | inr e ↦ inr e
    ]
smallest_loop-first ((e ∷ es) ∷ fls) i v h =
    let small : e.f ≤ product (e ∷ es) = factor-le-product e es v.0 in
    let more : product (e ∷ es) ≤ product (e ∷ es) * vproduct fls =
      le-mul_of_pos_right (product (e ∷ es)) (vproduct-pos fls v.1) in
    let a : leb e.f (2 ^ 64 - 1) ≡ true =
      leb_of_le e.f (2 ^ 64 - 1) (omega (arith, small, more, h)) in
    rw (smallest_loop-cons e es fls i none_yet, a)
      (inl (
        picked-Located e es fls i (smallest_loop fls (i + 1) (pick e.f i))
          (smallest_loop-Located fls (i + 1) e.f i)))

Located-HeadAt :
    (fls : List (List Entry)) (r : Pick)
    → Located fls 0 r
    → HeadAt fls r.idx (if r.has_factors then r.f else 1)
Located-HeadAt fls r (a, h, i, t) = let same : r.idx ≡ a = omega arith in rw (t, same) h

pub smallestv-HeadAt :
    (fls : List (List Entry))
    → AllProper fls
    → vproduct fls < 2 ^ 64
    → HeadAt fls (gaifl_get_smallest_factorv fls).1 (gaifl_get_smallest_factorv fls).0
      ⊎ AllEmpty fls
unfolding gaifl_get_smallest_factorv
smallestv-HeadAt fls v h = elim (smallest_loop-first fls 0 v h) [
  | inl l ↦ inl (Located-HeadAt fls (smallest_loop fls 0 none_yet) l)
  | inr e ↦ inr e
]

pub AllEmpty-vproduct : (fls : List (List Entry)) → AllEmpty fls → vproduct fls ≡ 1
unfolding vproduct product
AllEmpty-vproduct [] h = refl
AllEmpty-vproduct ([] ∷ fls) h = rw (AllEmpty-vproduct fls h) refl
AllEmpty-vproduct ((e ∷ es) ∷ fls) h = absurd h

pub total-AllEmpty : (fls : List (List Entry)) → total fls ≡ 0 → AllEmpty fls
unfolding total
total-AllEmpty [] h = tt
total-AllEmpty ([] ∷ fls) h = total-AllEmpty fls (omega arith)
total-AllEmpty ((e ∷ es) ∷ fls) h = absurd (omega arith)
