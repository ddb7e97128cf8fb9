-- ===== src/Array/Contiguous.antt =====
-- What GpuArray_is_c_contiguous, GpuArray_is_f_contiguous and GpuArray_is_aligned of
-- src/gpuarray_array.c test: the strides of a dense layout, and addresses on the alignment.
use libgpuarray.Base.{
  ℕ, zero, suc, ◌+◌, ◌*◌, ◌%◌, ◌^◌, ◌<◌, Bool, true, false, not, ◌&&◌, List, [], ◌∷◌, ◌==◌, ==_iff,
  if◌then◌else◌, length, get_or, take, drop, ℤ, pos, negsuc, ◌==ℤ◌, to_size, to_ssize, pos_part,
  neg_part, ◌≡◌, ◌↔◌, ◌⊎◌, inl, inr, refl, sym, ap, ◌∙◌, arith, Bool-cases,
}
use mathlib.Core.Path.{subst}
use native.Mathlib.Nat.{mul_assoc, mul-one, mul_comm, mod-eq_of_lt}
use libgpuarray.Base.Modulo.{mod-mul_left}
use libgpuarray.Util.Offsets.{volume}
use libgpuarray.Array.{dense, reverse, aligned_strides}

-- Every dimension but those of size 1 has the stride that `w` gives for its place.
abbrev pub HasStrides : (ℕ → ℕ) → List ℕ → List ℤ → Type 0
HasStrides w ds ts =
    (i : ℕ) → i < length ds → (get_or ds i 1 ≡ 1) ⊎ (get_or ts i (pos 0) ≡ to_ssize (w i))

-- In C order the stride is the size of an element times the number of elements in the dimensions after
-- it, in Fortran order in those before it, as `size_t` numbers.
abbrev pub IsCOrder : ℕ → List ℕ → List ℤ → Type 0
IsCOrder size ds = HasStrides (λ i. size * volume (drop (suc i) ds) % 2 ^ 64) ds

abbrev pub IsFOrder : ℕ → List ℕ → List ℤ → Type 0
IsFOrder size ds = HasStrides (λ i. size * volume (take i ds) % 2 ^ 64) ds

-- The offset and every stride, as a `size_t` number, are multiples of the alignment.
abbrev pub IsOnAlignment : ℕ → ℕ → List ℤ → Type 0
IsOnAlignment align offset ts =
    (offset % align ≡ 0) × ((i : ℕ) → i < length ts → to_size (get_or ts i (pos 0)) % align ≡ 0)

==ℤ_refl : (a : ℤ) → a ==ℤ a ≡ true
==ℤ_refl a = (==_iff (pos_part a + neg_part a) (pos_part a + neg_part a)).1 refl

==ℤ→≡ : (a b : ℤ) → a ==ℤ b ≡ true → a ≡ b
==ℤ→≡ (pos a) (pos b) h = ap pos (ground (arith, h))
==ℤ→≡ (pos a) (negsuc b) h = absurd (ground (arith, h))
==ℤ→≡ (negsuc a) (pos b) h = absurd (ground (arith, h))
==ℤ→≡ (negsuc a) (negsuc b) h = ap negsuc (ground (arith, h))

-- One step of the test.
HasStride : ℕ → ℕ → ℤ → Type 0
HasStride size d t = (d ≡ 1) ⊎ (t ≡ to_ssize size)

no_stride :
    (size d : ℕ) (t : ℤ) → (t ==ℤ to_ssize size) ≡ false → (d == 1) ≡ false → ¬ HasStride size d t
unfolding HasStride
no_stride size d t a b (inl e) = let k : (d == 1) ≡ true = (==_iff d 1).1 e in absurd (cc)
no_stride size d t a b (inr e) =
    let k : (t ==ℤ to_ssize size) ≡ true = rw e (==ℤ_refl (to_ssize size)) in absurd (cc)

checked_iff :
    (size d : ℕ) (t : ℤ) (rest : Bool)
    → ((if not (t ==ℤ to_ssize size) && not (d == 1) then false else rest) ≡ true)
      ↔ (HasStride size d t × (rest ≡ true))
unfolding HasStride
checked_iff size d t rest = elim (Bool-cases (t ==ℤ to_ssize size)) [
  | inl a ↦ rw a (λ h. (inr (==ℤ→≡ t (to_ssize size) a), h), λ h. h.1)
  | inr a ↦ elim (Bool-cases (d == 1)) [
    | inl b ↦ rw (a, b) (λ h. (inl ((==_iff d 1).0 b), h), λ h. h.1)
    | inr b ↦ rw (a, b) (λ h. absurd (ground (arith, h)), λ h. absurd (no_stride size d t a b h.0))
  ]
]

-- The strides of a dense layout, from the outermost dimension and from the innermost.
RowsC : ℕ → List ℕ → List ℤ → Type 0
RowsC size (d ∷ ds) (t ∷ ts) = HasStride (size * volume ds % 2 ^ 64) d t × RowsC size ds ts
RowsC size [] ts = Unit
RowsC size (d ∷ ds) [] = Unit

RowsF : ℕ → List ℕ → List ℤ → Type 0
RowsF size (d ∷ ds) (t ∷ ts) = HasStride (size % 2 ^ 64) d t × RowsF (size * d) ds ts
RowsF size [] ts = Unit
RowsF size (d ∷ ds) [] = Unit

dense-RowsF :
    (size : ℕ) (ds : List ℕ) (ts : List ℤ) → (dense (size % 2 ^ 64) ds ts ≡ true) ↔ RowsF size ds ts
unfolding dense RowsF
dense-RowsF size (d ∷ ds) (t ∷ ts) =
    let c = checked_iff (size % 2 ^ 64) d t (dense (size * d % 2 ^ 64) ds ts) in
    let r = dense-RowsF (size * d) ds ts in
    rw (mod-mul_left size d (2 ^ 64)) (λ h. ((c.0 h).0, r.0 (c.0 h).1), λ h. c.1 (h.0, r.1 h.1))
dense-RowsF size [] ts = (λ h. tt, λ h. refl)
dense-RowsF size (d ∷ ds) [] = (λ h. tt, λ h. refl)

strides_join :
    (w : ℕ → ℕ) (d : ℕ) (ds : List ℕ) (t : ℤ) (ts : List ℤ)
    → (d ≡ 1) ⊎ (t ≡ to_ssize (w 0))
    → HasStrides (λ i. w (suc i)) ds ts
    → HasStrides w (d ∷ ds) (t ∷ ts)
strides_join w d ds t ts h r zero l = h
strides_join w d ds t ts h r (suc i) l = r i (omega (arith, l))

HasStrides-same :
    (w w' : ℕ → ℕ) (ds : List ℕ) (ts : List ℤ)
    → ((i : ℕ) → w i ≡ w' i)
    → HasStrides w ds ts
    → HasStrides w' ds ts
HasStrides-same w w' ds ts e h i l =
    subst (λ x. (get_or ds i 1 ≡ 1) ⊎ (get_or ts i (pos 0) ≡ to_ssize x)) (e i) (h i l)

RowsF-IsFOrder :
    (size : ℕ) (ds : List ℕ) (ts : List ℤ)
    → length ds ≡ length ts
    → RowsF size ds ts ↔ IsFOrder size ds ts
unfolding RowsF HasStride volume
RowsF-IsFOrder size [] ts n = (λ h i l. absurd (omega (arith, l)), λ h. tt)
RowsF-IsFOrder size (d ∷ ds) [] n = absurd (omega (arith, n))
RowsF-IsFOrder size (d ∷ ds) (t ∷ ts) n =
    let r = RowsF-IsFOrder (size * d) ds ts (omega (arith, n)) in
    let w : ℕ → ℕ = λ i. size * volume (take i (d ∷ ds)) % 2 ^ 64 in
    let w' : ℕ → ℕ = λ i. size * d * volume (take i ds) % 2 ^ 64 in
    let e : (i : ℕ) → w' i ≡ w (suc i) =
      λ i. ap (λ x. x % 2 ^ 64) (mul_assoc size d (volume (take i ds))) in
    let z : size * 1 ≡ size = mul-one size in
    (
      λ h.
          strides_join w d ds t ts (rw z h.0)
            (HasStrides-same w' (λ i. w (suc i)) ds ts e (r.0 h.1)),
      λ h. (
        subst (λ x. (d ≡ 1) ⊎ (t ≡ to_ssize (x % 2 ^ 64))) z (h 0 (omega arith)),
        r.1 (
            HasStrides-same (λ i. w (suc i)) w' ds ts (λ i. sym (e i))
              (λ i l. h (suc i) (omega (arith, l)))),
      ),
    )

RowsC-IsCOrder :
    (size : ℕ) (ds : List ℕ) (ts : List ℤ)
    → length ds ≡ length ts
    → RowsC size ds ts ↔ IsCOrder size ds ts
unfolding RowsC HasStride
RowsC-IsCOrder size [] ts n = (λ h i l. absurd (omega (arith, l)), λ h. tt)
RowsC-IsCOrder size (d ∷ ds) [] n = absurd (omega (arith, n))
RowsC-IsCOrder size (d ∷ ds) (t ∷ ts) n =
    let r = RowsC-IsCOrder size ds ts (omega (arith, n)) in
    (
      λ h.
          strides_join (λ i. size * volume (drop (suc i) (d ∷ ds)) % 2 ^ 64) d ds t ts h.0
            (r.0 h.1),
      λ h. (h 0 (omega arith), r.1 (λ i l. h (suc i) (omega (arith, l)))),
    )

-- The walk from the last dimension to the first.
dense-reverse :
    (size : ℕ) (ds : List ℕ) (ts : List ℤ) (xs : List ℕ) (ys : List ℤ)
    → length ds ≡ length ts
    → (dense (size % 2 ^ 64) (reverse ds xs) (reverse ts ys) ≡ true)
      ↔ (RowsC size ds ts × (dense (size * volume ds % 2 ^ 64) xs ys ≡ true))
unfolding RowsC volume dense
dense-reverse size [] [] xs ys n = rw (mul-one size) (λ h. (tt, h), λ h. h.1)
dense-reverse size [] (t ∷ ts) xs ys n = absurd (omega (arith, n))
dense-reverse size (d ∷ ds) [] xs ys n = absurd (omega (arith, n))
dense-reverse size (d ∷ ds) (t ∷ ts) xs ys n =
    let r = dense-reverse size ds ts (d ∷ xs) (t ∷ ys) (omega (arith, n)) in
    let m = size * volume ds % 2 ^ 64 in
    let c = checked_iff m d t (dense (m * d % 2 ^ 64) xs ys) in
    let e : m * d % 2 ^ 64 ≡ size * (d * volume ds) % 2 ^ 64 =
      mod-mul_left (size * volume ds) d (2 ^ 64)
      ∙ ap (λ x. x % 2 ^ 64)
          (mul_assoc size (volume ds) d ∙ ap (λ x. size * x) (mul_comm (volume ds) d)) in
    (
      λ h. let k = c.0 (r.0 h).1 in ((k.0, (r.0 h).0), subst (λ x. dense x xs ys ≡ true) e k.1),
      λ h. r.1 (h.0.1, c.1 (h.0.0, subst (λ x. dense x xs ys ≡ true) (sym e) h.1)),
    )

-- The test of GpuArray_is_c_contiguous.
pub dense-IsCOrder :
    (size : ℕ) (ds : List ℕ) (ts : List ℤ)
    → size < 2 ^ 64
    → length ds ≡ length ts
    → (dense size (reverse ds []) (reverse ts []) ≡ true) ↔ IsCOrder size ds ts
unfolding dense
dense-IsCOrder size ds ts h n =
    let e : size % 2 ^ 64 ≡ size = mod-eq_of_lt h in
    let r = dense-reverse size ds ts [] [] n in
    let c = RowsC-IsCOrder size ds ts n in
    (
      λ k. c.0 (r.0 (subst (λ x. dense x (reverse ds []) (reverse ts []) ≡ true) (sym e) k)).0,
      λ k.
          subst (λ x. dense x (reverse ds []) (reverse ts []) ≡ true) e (r.1 (c.1 k, dense_nil ds)),
    )
  where
    dense_nil : (ds : List ℕ) → dense (size * volume ds % 2 ^ 64) [] [] ≡ true
    dense_nil ds = refl

-- The test of GpuArray_is_f_contiguous.
pub dense-IsFOrder :
    (size : ℕ) (ds : List ℕ) (ts : List ℤ)
    → size < 2 ^ 64
    → length ds ≡ length ts
    → (dense size ds ts ≡ true) ↔ IsFOrder size ds ts
dense-IsFOrder size ds ts h n =
    let r = dense-RowsF size ds ts in
    let c = RowsF-IsFOrder size ds ts n in
    let e : size % 2 ^ 64 ≡ size = mod-eq_of_lt h in
    (
      λ k. c.0 (r.0 (subst (λ x. dense x ds ts ≡ true) (sym e) k)),
      λ k. subst (λ x. dense x ds ts ≡ true) e (r.1 (c.1 k)),
    )

aligned_join :
    (align : ℕ) (t : ℤ) (ts : List ℤ)
    → to_size t % align ≡ 0
    → ((i : ℕ) → i < length ts → to_size (get_or ts i (pos 0)) % align ≡ 0)
    → (i : ℕ) → i < suc (length ts)
    → to_size (get_or (t ∷ ts) i (pos 0)) % align ≡ 0
aligned_join align t ts e r zero l = e
aligned_join align t ts e r (suc i) l = r i (omega (arith, l))

-- The test of GpuArray_is_aligned on the strides.
pub aligned_strides_iff :
    (align : ℕ) (ts : List ℤ)
    → (aligned_strides align ts ≡ true)
      ↔ ((i : ℕ) → i < length ts → to_size (get_or ts i (pos 0)) % align ≡ 0)
unfolding aligned_strides
aligned_strides_iff align [] = (λ h i l. absurd (omega (arith, l)), λ h. refl)
aligned_strides_iff align (t ∷ ts) =
    let r = aligned_strides_iff align ts in
    elim (Bool-cases (to_size t % align == 0)) [
      | inl e ↦ rw e (
        λ h. aligned_join align t ts ((==_iff (to_size t % align) 0).0 e) (r.0 h),
        λ h. r.1 (λ i l. h (suc i) (omega (arith, l))),
      )
      | inr e ↦ rw e (
        λ h. absurd (ground (arith, h)),
        λ h.
            let k : (to_size t % align == 0) ≡ true =
              (==_iff (to_size t % align) 0).1 (h 0 (omega arith)) in
            absurd (cc),
      )
    ]
