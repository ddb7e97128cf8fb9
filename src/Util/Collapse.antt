-- ===== src/Util/Collapse.antt =====
-- `gpuarray_elemwise_collapse` changes no offset.
use libgpuarray.Base.{
  ℕ, zero, suc, ◌-◌, ◌*◌, ◌%◌, ◌^◌, ◌≤◌, ◌<◌, ◌≡◌, refl, ap, ◌∙◌, Bool, true, ◌&&◌, Option, none,
  some, List, [], ◌∷◌, map, arith, inl, inr, Bool-cases, ltb, ◌==◌, length, length-set, get_or, set,
  ℤ, pos, ◌==ℤ◌, ◌*ℤ◌,
}
use libgpuarray.Util.{
  Shape, shiftdown, on_strides, remove_ones, steps_on, all_step_on, merge, merge_loop,
  elemwise_collapse,
}
use libgpuarray.Util.Offsets.{
  volume, place, AllPositive, AllPositive-shiftdown, AllPositive-merged, volume-shiftdown,
  volume-merged, place-shiftdown, place-merged, merged, length-shiftdown,
}

-- The offsets of element `n` in all arrays.
abbrev pub at_strides : List ℕ → ℕ → Option (List ℤ) → Option ℤ
at_strides ds n none = none
at_strides ds n (some s) = some (place ds s n)

abbrev pub offsets : Shape → ℕ → List (Option ℤ)
offsets c n = map (at_strides c.dims n) c.strs

abbrev Fits : List ℕ → List (Option (List ℤ)) → Type 0
Fits ds [] = Unit
Fits ds (none ∷ ss) = Fits ds ss
Fits ds (some s ∷ ss) = (length s ≡ length ds) × Fits ds ss

-- At least one dimension, none of them empty, a number of elements that `size_t` holds, and a
-- stride for each dimension in each array.
pub record IsValid (c : Shape) : Type 0 where
  pub some_dim : 0 < length c.dims
  pub positive : AllPositive c.dims
  pub bounded : volume c.dims < 2 ^ 64
  pub fits : Fits c.dims c.strs

-- `c'` is a valid shape with the elements of `c` at the same offsets.
pub record Keeps (c c' : Shape) : Type 0 where
  pub valid : IsValid c'
  pub same_volume : volume c'.dims ≡ volume c.dims
  pub same_offsets : (n : ℕ) → offsets c' n ≡ offsets c n

Keeps-refl : {c : Shape} → IsValid c → Keeps c c
Keeps-refl v = record { valid = v; same_volume = refl; same_offsets = λ n. refl }

Keeps-trans : {c d e : Shape} → Keeps c d → Keeps d e → Keeps c e
Keeps-trans r s = record {
  valid = s.valid;
  same_volume = s.same_volume ∙ r.same_volume;
  same_offsets = λ n. s.same_offsets n ∙ r.same_offsets n;
}

-- A change of all strides changes no offset if it changes none of one array.
module _ (ds ds' : List ℕ) (f : List ℤ → List ℤ) (less : suc (length ds') ≡ length ds)
    (shorter : (s : List ℤ) → length s ≡ length ds → length (f s) ≡ length ds') where
  Fits-map : (ss : List (Option (List ℤ))) → Fits ds ss → Fits ds' (map (on_strides f) ss)
  Fits-map [] h = tt
  Fits-map (none ∷ ss) h = Fits-map ss h
  Fits-map (some s ∷ ss) h = (shorter s h.0, Fits-map ss h.1)

  offsets-map :
      (n : ℕ) (ss : List (Option (List ℤ)))
      → ((s : List ℤ) → length s ≡ length ds → place ds' (f s) n ≡ place ds s n)
      → Fits ds ss
      → map (at_strides ds' n) (map (on_strides f) ss) ≡ map (at_strides ds n) ss
  offsets-map n [] g h = refl
  offsets-map n (none ∷ ss) g h = ap (λ r. none ∷ r) (offsets-map n ss g h)
  offsets-map n (some s ∷ ss) g h = λ j. some (g s h.0 j) ∷ offsets-map n ss g h.1 j

equal : (a b : ℤ) → (a ==ℤ b) ≡ true → a ≡ b
equal a b h = ground arith

both : (a b : Bool) → (a && b) ≡ true → (a ≡ true) × (b ≡ true)
both a b h = ground arith

-- Taking out a dimension of size 1.
abbrev one_removed : ℕ → Shape → Shape
one_removed i c = record {
  dims = shiftdown c.dims i;
  strs = map (on_strides (λ s. shiftdown s i)) c.strs;
}

one_removed-Keeps :
    (i : ℕ) (c : Shape)
    → IsValid c
    → i < length c.dims
    → 1 < length c.dims
    → get_or c.dims i 0 ≡ 1
    → Keeps c (one_removed i c)
one_removed-Keeps i c v h k e =
    let l = length-shiftdown c.dims i h in
    let less : suc (length (shiftdown c.dims i)) ≡ length c.dims = omega arith in
    let shorter : (s : List ℤ)
        → length s ≡ length c.dims
        → length (shiftdown s i) ≡ length (shiftdown c.dims i) =
      λ s m. omega (arith, length-shiftdown s i (omega arith)) in
    record {
      valid = record {
        some_dim = omega arith;
        positive = AllPositive-shiftdown c.dims i v.positive;
        bounded = rw (volume-shiftdown c.dims i e) v.bounded;
        fits = Fits-map c.dims (shiftdown c.dims i) (λ s. shiftdown s i) less shorter c.strs v.fits;
      };
      same_volume = volume-shiftdown c.dims i e;
      same_offsets = λ n.
          offsets-map c.dims (shiftdown c.dims i) (λ s. shiftdown s i) less shorter n c.strs
            (λ s m. place-shiftdown c.dims s i n e m) v.fits;
    }

remove_ones-Keeps : (i : ℕ) (c : Shape) → IsValid c → i ≤ length c.dims → Keeps c (remove_ones i c)
unfolding remove_ones
remove_ones-Keeps zero c v h = Keeps-refl v
remove_ones-Keeps (suc i) c v h =
    elim (Bool-cases (ltb 1 (length c.dims) && (get_or c.dims i 0 == 1))) [
      | inr keep ↦ rw keep (remove_ones-Keeps i c v (omega arith))
      | inl drop ↦
          let (k, e) = both (ltb 1 (length c.dims)) (get_or c.dims i 0 == 1) drop in
          let r = one_removed-Keeps i c v (omega arith) (ground arith) (ground arith) in
          let l = length-shiftdown c.dims i (omega arith) in
          rw drop (Keeps-trans r (remove_ones-Keeps i (one_removed i c) r.valid (omega arith)))
    ]

abbrev merged_strides : ℕ → List ℤ → List ℤ
merged_strides i s = shiftdown (set s i (get_or s (suc i) (pos 0))) (suc i)

pre : (i : ℕ) → suc i - 1 ≡ i
pre i = omega arith

merge_offsets :
    (ds : List ℕ) (i n : ℕ) (ss : List (Option (List ℤ)))
    → suc i < length ds
    → AllPositive ds
    → volume ds < 2 ^ 64
    → Fits ds ss
    → all_step_on ds (suc i) ss ≡ true
    → map (at_strides (merged ds i) n) (map (on_strides (merged_strides i)) ss)
      ≡ map (at_strides ds n) ss
unfolding all_step_on steps_on
merge_offsets ds i n [] h p f fits st = refl
merge_offsets ds i n (none ∷ ss) h p f fits st =
    ap (λ r. none ∷ r) (merge_offsets ds i n ss h p f fits st)
merge_offsets ds i n (some s ∷ ss) h p f fits st =
    let (here, rest) = both _ (all_step_on ds (suc i) ss) (rw (pre i) at st) in
    let e =
      equal (get_or s i (pos 0)) (pos (get_or ds (suc i) 0) *ℤ get_or s (suc i) (pos 0)) here in
    λ j. some (place-merged ds s i n h fits.0 p f e j) ∷ merge_offsets ds i n ss h p f fits.1 rest j

abbrev merged_shape : ℕ → Shape → Shape
merged_shape i c = record {
  dims = merged c.dims i;
  strs = map (on_strides (merged_strides i)) c.strs;
}

merge_eq : (i : ℕ) (c : Shape) → merge (suc i) c ≡ merged_shape i c
unfolding merge
merge_eq i c = rw (pre i)

merged-Keeps :
    (i : ℕ) (c : Shape)
    → IsValid c
    → suc i < length c.dims
    → all_step_on c.dims (suc i) c.strs ≡ true
    → Keeps c (merged_shape i c)
merged-Keeps i c v h st =
    let m = get_or c.dims i 0 * get_or c.dims (suc i) 0 % 2 ^ 64 in
    let l = length-shiftdown (set c.dims i m) (suc i) (omega (arith, length-set c.dims i m)) in
    let less : suc (length (merged c.dims i)) ≡ length c.dims =
      omega (arith, length-set c.dims i m) in
    let shorter : (s : List ℤ)
        → length s ≡ length c.dims
        → length (merged_strides i s) ≡ length (merged c.dims i) =
      λ s e.
        let t = get_or s (suc i) (pos 0) in
        omega (
          arith,
          length-set s i t,
          length-shiftdown (set s i t) (suc i) (omega (arith, length-set s i t)),
        ) in
    record {
      valid = record {
        some_dim = omega arith;
        positive = AllPositive-merged c.dims i h v.positive v.bounded;
        bounded = rw (volume-merged c.dims i h v.positive v.bounded) v.bounded;
        fits = Fits-map c.dims (merged c.dims i) (merged_strides i) less shorter c.strs v.fits;
      };
      same_volume = volume-merged c.dims i h v.positive v.bounded;
      same_offsets = λ n. merge_offsets c.dims i n c.strs h v.positive v.bounded v.fits st;
    }

merge_loop-Keeps : (i : ℕ) (c : Shape) → IsValid c → i < length c.dims → Keeps c (merge_loop i c)
unfolding merge_loop
merge_loop-Keeps zero c v h = Keeps-refl v
merge_loop-Keeps (suc i) c v h = elim (Bool-cases (all_step_on c.dims (suc i) c.strs)) [
  | inr apart ↦ rw apart (merge_loop-Keeps i c v (omega arith))
  | inl steps ↦
      let r = merged-Keeps i c v h steps in
      let m = get_or c.dims i 0 * get_or c.dims (suc i) 0 % 2 ^ 64 in
      let l = length-shiftdown (set c.dims i m) (suc i) (omega (arith, length-set c.dims i m)) in
      rw (steps, merge_eq i c)
        (Keeps-trans r
          (merge_loop-Keeps i (merged_shape i c) r.valid (omega (arith, length-set c.dims i m))))
]

-- `gpuarray_elemwise_collapse` keeps the number of elements, and every element of every array at
-- its offset, in row-major order; the shape stays valid.
pub elemwise_collapse-Keeps : (c : Shape) → IsValid c → Keeps c (elemwise_collapse c)
unfolding elemwise_collapse
elemwise_collapse-Keeps c v =
    let r = remove_ones (length c.dims) c in
    let k = remove_ones-Keeps (length c.dims) c v (omega arith) in
    Keeps-trans k (merge_loop-Keeps (length r.dims - 1) r k.valid (omega (arith, k.valid.some_dim)))
