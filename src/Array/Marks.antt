-- ===== src/Array/Marks.antt =====
-- `GpuArray_fix_flags` of src/gpuarray_array.c sets the flags to what the array is.
use libgpuarray.Base.{
  ℕ, ◌%◌, ◌^◌, ◌<◌, Bool, true, false, ◌&&◌, some, List, ◌==◌, ==_iff, ◌>>=◌, length, ◌≡◌, ◌↔◌,
  refl, arith, inl, inr, Option-cases,
}
use mathlib.Core.Option.{none-ne-some, some-injective}
use mathlib.Core.Path.{subst}
use libgpuarray.Types.{GpuarrayType, gpuarray_get_type, gpuarray_get_elsize}
use libgpuarray.Array.{
  GpuArray, is_c_contiguous, is_f_contiguous, is_aligned, fix_flags, dense, aligned_strides,
  reverse, [],
}
use libgpuarray.Array.Contiguous.{
  IsCOrder, IsFOrder, IsOnAlignment, dense-IsCOrder, dense-IsFOrder, aligned_strides_iff,
}

-- `b` is `a` with flags that say, for elements of type `t`, whether the strides are those of C or
-- Fortran order and the addresses are on the alignment. The writeable flag and all else stay.
pub record IsMarked (t : GpuarrayType) (a b : GpuArray) : Type 0 where
  pub kept : b ≡ record a { flags = b.flags }
  pub c : (b.flags.c_contiguous ≡ true) ↔ IsCOrder t.size a.dimensions a.strides
  pub f : (b.flags.f_contiguous ≡ true) ↔ IsFOrder t.size a.dimensions a.strides
  pub w : (b.flags.aligned ≡ true) ↔ IsOnAlignment t.align a.offset a.strides
  pub writeable : b.flags.writeable ≡ a.flags.writeable

both_iff : (x y : Bool) → (x && y ≡ true) ↔ ((x ≡ true) × (y ≡ true))
both_iff true y = (λ h. (refl, h), λ h. h.1)
both_iff false y = (λ h. absurd (cc), λ h. h.0)

aligned_iff :
    (align : ℕ) (a : GpuArray)
    → (a.offset % align == 0 && aligned_strides align a.strides ≡ true)
      ↔ IsOnAlignment align a.offset a.strides
aligned_iff align a =
    let both = both_iff (a.offset % align == 0) (aligned_strides align a.strides) in
    let here = ==_iff (a.offset % align) 0 in
    let rest = aligned_strides_iff align a.strides in
    (λ h. (here.0 (both.0 h).0, rest.0 (both.0 h).1), λ h. both.1 (here.1 h.0, rest.1 h.1))

module _ (types : List GpuarrayType) where
  fixed : GpuArray → GpuarrayType → GpuArray
  fixed a t = record a {
    flags = record {
      c_contiguous = dense t.size (reverse a.dimensions []) (reverse a.strides []);
      f_contiguous = dense t.size a.dimensions a.strides;
      aligned = a.offset % t.align == 0 && aligned_strides t.align a.strides;
      writeable = a.flags.writeable;
    };
  }

  fix_flags_eq :
      (a : GpuArray) (t : GpuarrayType)
      → gpuarray_get_type types a.typecode ≡ some t
      → 0 < t.align
      → fix_flags types a ≡ some (fixed a t)
  unfolding fix_flags is_c_contiguous is_f_contiguous is_aligned gpuarray_get_elsize fixed
  fix_flags_eq a t e pos = let z : (t.align == 0) ≡ false = ground arith in rw (e, ◌>>=◌, z)

  -- For an array of a known type with a size below 2 ^ 64 and an alignment, whose dimensions have a
  -- stride each, `fix_flags` returns. The C flag is then set just if each dimension but those of size 1 has the stride of C
  -- order, the size of an element times the sizes of the dimensions after it modulo 2 ^ 64; the F flag just if it has
  -- that of Fortran order, with the dimensions before it; the alignment flag just if the offset and the
  -- strides, as `size_t` numbers, are multiples of the alignment. The writeable flag and all else stay.
  pub fix_flags-IsMarked :
      (a : GpuArray) (t : GpuarrayType)
      → gpuarray_get_type types a.typecode ≡ some t
      → t.size < 2 ^ 64
      → 0 < t.align
      → length a.dimensions ≡ length a.strides
      → (b : GpuArray) × (fix_flags types a ≡ some b) × IsMarked t a b
  unfolding fixed
  fix_flags-IsMarked a t e small pos n = (
    fixed a t,
    fix_flags_eq a t e pos,
    record {
      kept = refl;
      c = dense-IsCOrder t.size a.dimensions a.strides small n;
      f = dense-IsFOrder t.size a.dimensions a.strides small n;
      w = aligned_iff t.align a;
      writeable = refl;
    },
  )

  -- All but the flags stays.
  pub fix_flags-kept :
      (a b : GpuArray) → fix_flags types a ≡ some b → b ≡ record a { flags = b.flags }
  unfolding fix_flags
  fix_flags-kept a b e = elim (Option-cases (is_c_contiguous types a)) [
    | inl n ↦ absurd (none-ne-some b (rw n at e))
    | inr (c, hc) ↦ elim (Option-cases (is_f_contiguous types a)) [
      | inl n ↦ absurd (none-ne-some b (rw (hc, n) at e))
      | inr (f, hf) ↦ elim (Option-cases (is_aligned types a)) [
        | inl n ↦ absurd (none-ne-some b (rw (hc, hf, n) at e))
        | inr (w, hw) ↦
            subst (λ x. x ≡ record a { flags = x.flags })
              (some-injective _ _ (rw (hc, hf, hw, ◌>>=◌) at e)) refl
      ]
    ]
  ]
