-- ===== src/Array/Slice/Bounds.antt =====
-- `GpuArray_index_inplace` stays within its array.
use libgpuarray.Base.{
  ℕ, ◌≡◌, refl, ap, ◌∙◌, sym, true, false, Option, some, List, [], ◌∷◌, arith, inl, inr,
  Option-cases, length, ℤ, pos, ◌==ℤ◌, ◌*ℤ◌, Below, ◌>>=◌,
}
use mathlib.Core.Option.{none-ne-some, some-injective}
use mathlib.Core.Path.{subst}
use libgpuarray.Types.{GpuarrayType}
use libgpuarray.Array.{GaError, no_error, value_error, GpuArray, fix_flags}
use libgpuarray.Array.Marks.{fix_flags-kept}
use libgpuarray.Array.Slice.{Slice, is_invalid, slice_count, index_loop, index_inplace, moved}
use libgpuarray.Array.Slice.Count.{IsProper, slice_within, point_within}
use libgpuarray.Array.Slice.Elements.{
  element, expand, Indexed, index_loop-Round, index_loop-element, expand_skip, expand_next,
}

-- An index of an array with the dimensions: one number in range for each.
abbrev pub Within : List ℕ → List ℤ → Type 0
Within [] [] = Unit
Within [] (i ∷ is) = ⊥
Within (d ∷ ds) [] = ⊥
Within (d ∷ ds) (i ∷ is) = Below i d × Within ds is

abbrev pub AllProper : List ℕ → List Slice → Type 0
AllProper [] ss = Unit
AllProper (d ∷ ds) [] = Unit
AllProper (d ∷ ds) (s ∷ ss) = IsProper d s × AllProper ds ss

pub length-Within : (ds : List ℕ) (is : List ℤ) → Within ds is → length is ≡ length ds
length-Within [] [] w = refl
length-Within [] (i ∷ is) w = elim w [ ]
length-Within (d ∷ ds) [] w = elim w [ ]
length-Within (d ∷ ds) (i ∷ is) w = omega (arith, length-Within ds is w.1)

Within-next :
    (d : ℕ) (ds : List ℕ) (s : Slice) (ss : List Slice) (q : Indexed) (is : List ℤ) (t : ℤ)
    → (s.step ==ℤ pos 0) ≡ false
    → is_invalid d s ≡ false
    → IsProper d s
    → ((is : List ℤ) → Within q.0 is → Within ds (expand ss is))
    → Within (slice_count s ∷ q.0) is
    → Within (d ∷ ds) (expand (s ∷ ss) is)
Within-next d ds s ss q [] t z good p h w = elim w [ ]
Within-next d ds s ss q (i ∷ is) t z good p h w =
    rw (expand_next s ss i is z) (slice_within d s i z good p w.0, h is w.1)

index_loop-Within :
    (ds : List ℕ) (ts : List ℤ) (ss : List Slice) (offset : ℕ) (r : Indexed) (is : List ℤ)
    → index_loop ds ts ss offset ≡ some r
    → length ss ≡ length ds
    → AllProper ds ss
    → Within r.0 is
    → Within ds (expand ss is)
unfolding index_loop expand
index_loop-Within [] ts [] offset r is e n p w = tt
index_loop-Within [] ts (s ∷ ss) offset r is e n p w = absurd (omega arith)
index_loop-Within (d ∷ ds) [] ss offset r is e n p w = absurd (none-ne-some _ e)
index_loop-Within (d ∷ ds) (t ∷ ts) [] offset r is e n p w = absurd (none-ne-some _ e)
index_loop-Within (d ∷ ds) (t ∷ ts) (s ∷ ss) offset r is e n p w =
    let (good, round) = index_loop-Round d ds t ts s ss offset r e in
    elim round [
      | inl (z, run) ↦ subst (Within (d ∷ ds)) (sym (expand_skip s ss is z)) (
        point_within d s z good,
        index_loop-Within ds ts ss (moved offset (s.start *ℤ t)) r is run (omega arith) p.1 w,
      )
      | inr (z, q, run, same) ↦
          Within-next d ds s ss q is t z good p.0
            (λ js v.
              index_loop-Within ds ts ss (moved offset (s.start *ℤ t)) q js run (omega arith) p.1 v)
            (subst (λ (x : Indexed). Within x.0 is) same w)
    ]

codes_differ :
    {A : Type 0} {a b : A}
    → ◌≡◌ {A = Option (GaError × A)} (some (value_error, a)) (some (no_error, b))
    → ⊥
codes_differ p = let q : value_error ≡ no_error = ap (λ t. t.0) (some-injective _ _ p) in cc

succeeded : GpuArray → Option (GaError × GpuArray)
succeeded b = some (no_error, b)

selected :
    (types : List GpuarrayType) (slices : List Slice) (a a' : GpuArray) (r : Indexed) (is : List ℤ)
    → (do
      b ← fix_flags types (record a { dimensions = r.0; strides = r.1; offset = r.2 })
      succeeded b)
      ≡ succeeded a'
    → index_loop a.dimensions a.strides slices a.offset ≡ some r
    → length slices ≡ length a.dimensions
    → AllProper a.dimensions slices
    → Within a'.dimensions is
    → Within a.dimensions (expand slices is)
      × (element a'.offset is a'.strides ≡ element a.offset (expand slices is) a.strides)
      × (a'.data_ ≡ a.data_)
unfolding succeeded
selected types slices a a' r is e hit n p w =
    let c = record a { dimensions = r.0; strides = r.1; offset = r.2 } in
    elim (Option-cases (fix_flags types c)) [
      | inl miss ↦ absurd (none-ne-some _ (rw miss at e))
      | inr (b, run) ↦
          let same : a' ≡ record c { flags = b.flags } =
            ap (λ t. t.1) (some-injective _ _ (sym (rw run at e))) ∙ fix_flags-kept types c b run in
          let dims : a'.dimensions ≡ r.0 = ap (λ (x : GpuArray). x.dimensions) same in
          let w' = subst (λ ds. Within ds is) dims w in
          (
            index_loop-Within a.dimensions a.strides slices a.offset r is hit n p w',
            ap (λ (x : GpuArray). element x.offset is x.strides) same
                ∙ index_loop-element a.dimensions a.strides slices a.offset r is hit n
                    (length-Within r.0 is w'),
            ap (λ (x : GpuArray). x.data_) same,
          )
    ]

-- `GpuArray_index_inplace` selects: where it succeeds, each index of the result names, through the
-- slices, an index of the source, and the element there is the same byte of the same buffer. Each
-- slice starts within its dimension on the side that it leaves.
pub index_inplace-selects :
    (types : List GpuarrayType) (slices : List Slice) (a a' : GpuArray) (is : List ℤ)
    → index_inplace types true (some slices) a ≡ some (no_error, a')
    → length slices ≡ length a.dimensions
    → AllProper a.dimensions slices
    → Within a'.dimensions is
    → Within a.dimensions (expand slices is)
      × (element a'.offset is a'.strides ≡ element a.offset (expand slices is) a.strides)
      × (a'.data_ ≡ a.data_)
unfolding index_inplace
index_inplace-selects types slices a a' is e n p w =
    elim (Option-cases (index_loop a.dimensions a.strides slices a.offset)) [
      | inl miss ↦ absurd (codes_differ (rw (miss, index_inplace) at e))
      | inr (r, hit) ↦
          selected types slices a a' r is (unfold succeeded in rw (hit, index_inplace) at e) hit n p
            w
    ]
