-- ===== src/Array/View/Empty.antt =====
-- `GpuArray_empty` of src/gpuarray_array.c: its overflow check is exact, and what it makes is dense.
use libgpuarray.Base.{
  ℕ, zero, suc, ◌-◌, ◌*◌, ◌/◌, ◌%◌, ◌^◌, ◌≤◌, ◌<◌, ◌≡◌, refl, sym, true, false, ◌||◌, none, some,
  List, [], ◌∷◌, ltb, leb, if◌then◌else◌, ◌>>=◌, arith, inl, inr, ◌⊎◌, ◌↔◌,
}
use native.Mathlib.Nat.{div-lt_iff_lt-mul, mul-le-mul}
use mathlib.Core.Option.{none-ne-some, some-injective}
use libgpuarray.Array.{dense}
use libgpuarray.Array.View.{mul_no_overflow, mul_checked, total_size, dense_strides}

over : (size d : ℕ) → (((2 ^ 64 - 1) / suc d < size) ↔ (2 ^ 64 - 1 < size * suc d))
over size d = div-lt_iff_lt-mul {k = suc d} {x = 2 ^ 64 - 1} {y = size} (omega arith)

product_bound : (a b : ℕ) → a < 2 ^ 32 → b < 2 ^ 32 → a * b < 2 ^ 64
product_bound a b h k =
    let l : a * b ≤ (2 ^ 32 - 1) * (2 ^ 32 - 1) =
      mul-le-mul {n₂ = 2 ^ 32 - 1} {m₂ = 2 ^ 32 - 1} (omega arith) (omega arith) in
    omega arith

order : (a b : ℕ) → (a < b) ⊎ (b ≤ a)
order a b = omega arith

-- The check for overflow is exact: the product is refused just if it is over SIZE_MAX.
pub mul_checked_lem :
    (size d : ℕ) → mul_checked size d ≡ (if ltb (size * d) (2 ^ 64) then some (size * d) else none)
unfolding mul_checked
mul_checked_lem size zero = ground arith
mul_checked_lem size (suc d) = elim (order (size * suc d) (2 ^ 64)) [
  | inl fits ↦
      let t : ltb ((2 ^ 64 - 1) / suc d) size ≡ false = elim (order ((2 ^ 64 - 1) / suc d) size) [
        | inl l ↦ absurd (omega (arith, (over size d).0 l))
        | inr g ↦ ground arith
      ] in
      rw t (ground arith)
  | inr big ↦
      let t : ltb ((2 ^ 64 - 1) / suc d) size ≡ true =
        let l : (2 ^ 64 - 1) / suc d < size = (over size d).1 (omega arith) in ground arith in
      let u : (leb mul_no_overflow (suc d) || leb mul_no_overflow size) ≡ true =
        elim (order (suc d) mul_no_overflow) [
          | inr g ↦ ground arith
          | inl l ↦ elim (order size mul_no_overflow) [
            | inr g ↦ ground arith
            | inl m ↦ absurd (omega (arith, product_bound size (suc d) (omega arith) (omega arith)))
          ]
        ] in
      rw (t, u) (ground arith)
]

-- The exact number of bytes.
pub bytes : ℕ → List ℕ → ℕ
bytes size [] = size
bytes size (d ∷ ds) = bytes (size * d) ds

-- The size that `GpuArray_empty` allocates is the exact number of bytes, without any wrap.
pub total_size-bytes : (size n : ℕ) (ds : List ℕ) → total_size size ds ≡ some n → n ≡ bytes size ds
unfolding total_size bytes
total_size-bytes size n [] e = sym (some-injective _ _ e)
total_size-bytes size n (d ∷ ds) e = elim (order (size * d) (2 ^ 64)) [
  | inl fits ↦
      let t : ltb (size * d) (2 ^ 64) ≡ true = ground arith in
      total_size-bytes (size * d) n ds (rw (mul_checked_lem size d, t, ◌>>=◌) at e)
  | inr big ↦
      let t : ltb (size * d) (2 ^ 64) ≡ false = ground arith in
      absurd (none-ne-some n (rw (mul_checked_lem size d, t, ◌>>=◌) at e))
]

dense-dense_strides : (size : ℕ) (ds : List ℕ) → dense size ds (dense_strides size ds) ≡ true
unfolding dense dense_strides
dense-dense_strides size [] = refl
dense-dense_strides size (d ∷ ds) = ground (arith, dense-dense_strides (size * d % 2 ^ 64) ds)
