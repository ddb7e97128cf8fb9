-- ===== src/Array/Slice.antt =====
-- `GpuArray_index_inplace`, `GpuArray_index` and `GpuArray_split` of src/gpuarray_array.c.
pub mod Elements
pub mod Count
pub mod Bounds
mod Tests
use libgpuarray.Base.{
  ℕ, zero, suc, ◌+◌, ◌-◌, ◌%◌, ◌^◌, Bool, true, false, ◌&&◌, ◌||◌, Option, none, some, List, [],
  ◌∷◌, map, ltb, leb, ◌==◌, if◌then◌else◌, length, set, ◌>>=◌, ℤ, pos, negsuc, ◌==ℤ◌, ◌+ℤ◌, ◌-ℤ◌,
  ◌*ℤ◌, quot, ltb_ℤ, to_size, get_elem?,
}
use libgpuarray.Types.{GpuarrayType}
use libgpuarray.Array.{GaError, failed, GpuArray, Device, fix_flags, not, reverse}
use libgpuarray.Array.View.{cleared, view, clear}

-- The entries of `starts`, `stops` and `steps` for one dimension.
pub record Slice : Type 0 where
  pub start : ℤ
  pub stop : ℤ
  pub step : ℤ

-- Whether a bound lies before -1 or past the dimension.
unfoldable pub out_of_range : ℕ → ℤ → Bool
out_of_range d i = ltb_ℤ i (negsuc 0) || (ltb_ℤ (pos 0) i && ltb_ℤ (pos d) i)

-- The checks on one dimension, which return GA_VALUE_ERROR.
unfoldable pub is_invalid : ℕ → Slice → Bool
is_invalid d s =
    if out_of_range d s.start
    then true
    else if s.step ==ℤ pos 0
    then s.start ==ℤ negsuc 0 || not (ltb_ℤ s.start (pos d))
    else out_of_range d s.stop || ltb_ℤ (quot (s.stop -ℤ s.start) s.step) (pos 0)

-- The new size of a dimension.
unfoldable pub slice_count : Slice → ℕ
slice_count s = to_size (
    quot (s.stop -ℤ s.start +ℤ s.step -ℤ (if ltb_ℤ s.step (pos 0) then negsuc 0 else pos 1)) s.step)

-- `new_offset += start * stride`
abbrev pub moved : ℕ → ℤ → ℕ
moved offset z = (offset + to_size z) % 2 ^ 64

-- The loop over the dimensions: the new dimensions, strides and offset, `none` on an error.
unfoldable pub index_loop : List ℕ → List ℤ → List Slice → ℕ → Option (List ℕ × List ℤ × ℕ)
index_loop (d ∷ ds) (t ∷ ts) (s ∷ ss) offset =
    let rest = index_loop ds ts ss (moved offset (s.start *ℤ t)) in
    if is_invalid d s
    then none
    else if s.step ==ℤ pos 0
    then rest
    else rest >>= (λ (ds', ts', offset'). some (slice_count s ∷ ds', (s.step *ℤ t) ∷ ts', offset'))
index_loop [] ts ss offset = some ([], [], offset)
index_loop (d ∷ ds) [] ss offset = none
index_loop (d ∷ ds) (t ∷ ts) [] offset = none

module _ (types : List GpuarrayType) where
  -- `none` for the slices is NULL, and `ok` tells whether both calls of `calloc` returned memory.
  -- An error leaves the array as it was.
  unfoldable pub index_inplace : Bool → Option (List Slice) → GpuArray → Option (GaError × GpuArray)
  index_inplace ok none a = some (GaError.value_error, a)
  index_inplace false (some slices) a = some (GaError.sys_error, a)
  index_inplace true (some slices) a = elim (index_loop a.dimensions a.strides slices a.offset) [
    | none ↦ some (GaError.value_error, a)
    | some (ds, ts, offset) ↦ do
      a' ← fix_flags types (record a { dimensions = ds; strides = ts; offset = offset })
      some (GaError.no_error, a')
  ]

  module _ {W : Type 0} (dev : Device W) where
    unfoldable pub index :
        Bool → Bool → Option (List Slice) → GpuArray → W → Option ((GaError × GpuArray) × W)
    index ok ok_index slices a w =
        let ((code, r), w') = view dev ok a w in
        if failed code then some ((code, r), w') else (do
          (code', r') ← index_inplace ok_index slices r
          some (
              if failed code'
              then (let (r'', w'') = clear dev r' w' in ((code', r''), w''))
              else ((code', r'), w')))

    -- The slices of `GpuArray_split` that keep all of every dimension.
    unfoldable pub whole : List ℕ → List Slice
    whole dims = map (λ d. record { start = pos 0; stop = pos d; step = pos 1 }) dims

    -- The loop of `GpuArray_split` from the cut at `from` on: the arrays made so far are in `done`,
    -- the last one first. With memory for the views.
    split_loop :
        List ℕ
        → ℕ
        → List ℕ
        → ℕ
        → ℕ
        → GpuArray
        → List GpuArray
        → W
        → Option ((GaError × List GpuArray) × W)
    split_loop dims axis [] from last a done w = do
      ((code, r), w') ←
          index true true
            (some
              (set (whole dims) axis (record { start = pos from; stop = pos last; step = pos 1 })))
            a w
      some (if failed code then ((code, done), w') else ((code, r ∷ done), w'))
    split_loop dims axis (p ∷ ps) from last a done w = do
      ((code, r), w') ←
          index true true
            (some (set (whole dims) axis (record { start = pos from; stop = pos p; step = pos 1 })))
            a w
      (if failed code
          then some ((code, done), w')
          else split_loop dims axis ps p last a (r ∷ done) w')

    clear_all : List GpuArray → W → W
    clear_all [] w = w
    clear_all (r ∷ rs) w = clear_all rs (clear dev r w).1

    -- The cuts `p` of `GpuArray_split` along `axis`, which has to be one of the dimensions: the
    -- writes at `axis` go out of bounds elsewhere.
    unfoldable pub split : Bool → GpuArray → List ℕ → ℕ → W → Option ((GaError × List GpuArray) × W)
    unfolding split_loop clear_all
    split ok a p axis w =
        if ok
        then (do
          last ← get_elem? a.dimensions axis
          ((code, rs), w') ← split_loop a.dimensions axis p 0 last a [] w
          some (if failed code then ((code, []), clear_all rs w') else ((code, reverse rs []), w')))
        else some ((GaError.sys_error, []), w)
