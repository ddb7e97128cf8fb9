-- ===== src/Factor/Lists.antt =====
-- The numbers of an array of factor lists of src/util/integerfactoring.c, and of the others beside one.
use libgpuarray.Base.{
  ℕ, zero, suc, ◌+◌, ◌*◌, ◌%◌, ◌^◌, ◌<◌, true, List, [], ◌∷◌, ◌==◌, ◌≡◌, refl, sym, ap, ◌∙◌, arith,
  ==_iff, get_or, set, length,
}
use native.Mathlib.Nat.{mul_comm, mul_assoc, mul-one, one-le-mul}
use libgpuarray.Factor.{Entry, gaifl_get_product, gaifl_get_factor_power}
use libgpuarray.Base.Modulo.{mod-mul_left}
use libgpuarray.Factor.Product.{product, product-pos, IsFactorList, gaifl_get_product-mod}
use libgpuarray.Factor.Schedule.{productv_loop}

-- The product of the numbers of all lists, and the number of their entries.
unfoldable pub vproduct : List (List Entry) → ℕ
vproduct [] = 1
vproduct (fl ∷ fls) = product fl * vproduct fls

unfoldable pub total : List (List Entry) → ℕ
total [] = 0
total (fl ∷ fls) = length fl + total fls

abbrev pub AllProper : List (List Entry) → Type 0
AllProper [] = Unit
AllProper (fl ∷ fls) = IsFactorList fl × AllProper fls

pub vproduct-pos : (fls : List (List Entry)) → AllProper fls → 0 < vproduct fls
unfolding vproduct
vproduct-pos [] v = omega arith
vproduct-pos (fl ∷ fls) v = one-le-mul (product-pos 1 fl v.0) (vproduct-pos fls v.1)

pub productv_loop-mod :
    (fls : List (List Entry)) (p : ℕ) → productv_loop fls (p % 2 ^ 64) ≡ p * vproduct fls % 2 ^ 64
unfolding productv_loop vproduct
productv_loop-mod [] p = rw (mul-one p) refl
productv_loop-mod (fl ∷ fls) p =
    let e : (p % 2 ^ 64) * gaifl_get_product fl % 2 ^ 64 ≡ p * product fl % 2 ^ 64 =
      rw (gaifl_get_product-mod fl) (
        mod-mul_left p (product fl % 2 ^ 64) (2 ^ 64)
        ∙ ap (λ t. t % 2 ^ 64) (mul_comm p (product fl % 2 ^ 64))
        ∙ mod-mul_left (product fl) p (2 ^ 64)
        ∙ ap (λ t. t % 2 ^ 64) (mul_comm (product fl) p)) in
    rw (e, ← mul_assoc p (product fl) (vproduct fls)) (productv_loop-mod fls (p * product fl))

-- The list at a place, and what the other lists contribute.
pub record Hole (fls : List (List Entry)) (a : ℕ) : Type 0 where
  pub q : ℕ
  pub whole : vproduct fls ≡ q * product (get_or fls a [])
  pub change : (fl : List Entry) → vproduct (set fls a fl) ≡ q * product fl
  pub entries :
      (fl : List Entry) → total (set fls a fl) + length (get_or fls a []) ≡ total fls + length fl
  pub proper : IsFactorList (get_or fls a [])
  pub kept : (fl : List Entry) → IsFactorList fl → AllProper (set fls a fl)

pub Hole-at : (fls : List (List Entry)) (a : ℕ) → a < length fls → AllProper fls → Hole fls a
unfolding vproduct total
Hole-at [] a h v = absurd (omega arith)
Hole-at (fl ∷ fls) zero h v = record {
  q = vproduct fls;
  whole = mul_comm (product fl) (vproduct fls);
  change = λ x. mul_comm (product x) (vproduct fls);
  entries = λ x. omega arith;
  proper = v.0;
  kept = λ x k. (k, v.1);
}
Hole-at (fl ∷ fls) (suc a) h v =
    let r = Hole-at fls a (omega arith) v.1 in
    record {
      q = product fl * r.q;
      whole = rw (r.whole) (sym (mul_assoc (product fl) r.q (product (get_or fls a []))));
      change = λ x. rw (r.change x) (sym (mul_assoc (product fl) r.q (product x)));
      entries = λ x. omega (arith, r.entries x);
      proper = r.proper;
      kept = λ x k. (v.0, r.kept x k);
    }

pub head_power : (e : Entry) (es : List Entry) → gaifl_get_factor_power (e ∷ es) e.f ≡ e.p
unfolding gaifl_get_factor_power
head_power e es = let same : (e.f == e.f) ≡ true = (==_iff e.f e.f).1 refl in rw same refl
