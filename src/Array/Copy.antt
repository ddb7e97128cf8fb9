-- ===== src/Array/Copy.antt =====
-- Moves of array data in src/gpuarray_array.c: the checks, and the calls on the device.
use libgpuarray.Base.{
  ℕ, zero, suc, ◌+◌, ◌-◌, ◌%◌, ◌^◌, Bool, true, false, not, ◌&&◌, ◌||◌, Option, none, some, List,
  [], ◌∷◌, ◌++◌, ltb, leb, ◌==◌, if◌then◌else◌, length, get_elem?, replicate, drop, ◌>>=◌, ℤ, pos,
  ◌==ℤ◌, ◌*ℤ◌, to_size,
}
use libgpuarray.Types.{GpuarrayType, gpuarray_get_elsize}
use libgpuarray.Array.{
  GaError, failed, no_error, memory_error, value_error, unaligned_error, unsupported_error, GaOrder,
  any_order, GpuArray, Device, fix_flags, is_one_segment,
}
use libgpuarray.Array.View.{view, clear, empty}
use libgpuarray.Array.Layout.{product, reshape_inplace}

-- Whether two arrays have the same dimensions.
unfoldable pub same_dims : List ℕ → List ℕ → Bool
same_dims [] [] = true
same_dims [] (e ∷ es) = false
same_dims (d ∷ ds) [] = false
same_dims (d ∷ ds) (e ∷ es) = let r = same_dims ds es in if d == e then r else false

-- `!` of two truth values that differ
abbrev pub differ : Bool → Bool → Bool
differ true b = not b
differ false b = b

module _ (types : List GpuarrayType) {W : Type 0} (dev : Device W) where
  unfoldable pub move : GpuArray → GpuArray → W → Option (GaError × W)
  move dst src w =
      if not dst.flags.writeable
      then some (value_error, w)
      else if not src.flags.aligned
      then some (unaligned_error, w)
      else if not dst.flags.aligned
      then some (unaligned_error, w)
      else if not (same_dims src.dimensions dst.dimensions)
      then some (value_error, w)
      else if not (is_one_segment dst)
          || not (is_one_segment src)
          || differ dst.flags.f_contiguous src.flags.f_contiguous
          || not (dst.typecode ==ℤ src.typecode)
      then some (dev.extcopy dst src w)
      else (do
        elsize ← gpuarray_get_elsize types dst.typecode
        some (dev.move dst.data_ dst.offset src.data_ src.offset (product elsize dst.dimensions) w))

  unfoldable pub write : GpuArray → List ℕ → W → GaError × W
  write dst src w =
      if not dst.flags.writeable
      then (value_error, w)
      else if not (is_one_segment dst)
      then (unsupported_error, w)
      else dev.write dst.data_ dst.offset src w

  unfoldable pub read : ℕ → GpuArray → W → (GaError × List ℕ) × W
  read dst_sz src w =
      if not (is_one_segment src)
      then ((unsupported_error, []), w)
      else dev.read src.data_ src.offset dst_sz w

  unfoldable pub memset : GpuArray → ℕ → W → GaError × W
  memset a data_ w =
      if not (is_one_segment a) then (unsupported_error, w) else dev.memset a.data_ a.offset data_ w

  unfoldable pub copy : Bool → GpuArray → GaOrder → GpuArray → W → Option ((GaError × GpuArray) × W)
  copy ok a order res w = do
    ((code, r), w') ← empty dev types ok a.typecode a.dimensions order res w
    (if failed code then some ((code, r), w') else (do
      (code', w'') ← move r a w'
      some (
          if failed code'
          then (let (r', w₃) = clear dev r w'' in ((code', r'), w₃))
          else ((code', r), w''))))

  unfoldable pub transfer : GpuArray → GpuArray → W → Option (GaError × W)
  transfer res a w =
      if not (is_one_segment res)
      then some (unsupported_error, w)
      else if not (is_one_segment a)
      then some (unsupported_error, w)
      else if not (res.typecode ==ℤ a.typecode)
      then some (unsupported_error, w)
      else (do
        elsize ← gpuarray_get_elsize types a.typecode
        some (dev.transfer res.data_ res.offset a.data_ a.offset (product elsize a.dimensions) w))

  -- `GpuArray_reshape`: a view if it can be, else a copy unless `nocopy`.
  unfoldable pub reshape :
      Bool
      → Bool
      → Bool
      → List ℕ
      → GaOrder
      → Bool
      → GpuArray
      → GpuArray
      → W
      → Option ((GaError × GpuArray) × W)
  reshape ok ok_strides ok_copy new ord nocopy res a w =
      let ((code, r), w') = view dev ok a w in
      if failed code then some ((code, r), w') else (do
        (code', r') ← reshape_inplace types ok_strides new ord r
        (if is_copy_error code' && not nocopy
            then (do
              ((code₂, r₂), w₂) ← copy ok_copy a ord res (clear dev r' w').1
              (if failed code₂ then some ((code₂, r₂), w₂) else (do
                (code₃, r₃) ← reshape_inplace types ok_strides new ord r₂
                some (finish code₃ r₃ w₂))))
            else some (finish code' r' w')))
    where
      finish : GaError → GpuArray → W → (GaError × GpuArray) × W
      finish code r w =
          if failed code then (let (r', w') = clear dev r w in ((code, r'), w')) else ((code, r), w)

      is_copy_error : GaError → Bool
      is_copy_error GaError.copy_error = true
      is_copy_error _ = false

  -- The strides that repeat `v` along the dimensions of `a`: the walk over the last dimensions of
  -- `a`. The outer `none` is a shape error, and the flag tells whether no dimension was repeated.
  unfoldable pub broadcast : List ℕ → List ℤ → List ℕ → Option (List ℤ × Bool)
  broadcast [] strs ds = some ([], true)
  broadcast (v ∷ vs) [] ds = none
  broadcast (v ∷ vs) (t ∷ ts) [] = none
  broadcast (v ∷ vs) (t ∷ ts) (d ∷ ds) =
      let rest = broadcast vs ts ds in
      if v == d
      then rest >>= (λ (r, simple). some (t ∷ r, simple))
      else if v == 1
      then rest >>= (λ (r, simple). some (pos 0 ∷ r, false))
      else none

  unfoldable pub setarray : Bool → GpuArray → GpuArray → W → Option (GaError × W)
  setarray ok a v w =
      let off = length a.dimensions - length v.dimensions in
      if ltb (length a.dimensions) (length v.dimensions)
      then some (value_error, w)
      else if not a.flags.writeable
      then some (value_error, w)
      else if not v.flags.aligned || not a.flags.aligned
      then some (unaligned_error, w)
      else elim (broadcast v.dimensions v.strides (drop off a.dimensions)) [
        | none ↦ some (value_error, w)
        | some (strs, simple) ↦
            if simple
              && is_one_segment a
              && is_one_segment v
              && not (differ a.flags.f_contiguous v.flags.f_contiguous)
              && (a.typecode ==ℤ v.typecode)
              && (length a.dimensions == length v.dimensions)
            then (do
              elsize ← gpuarray_get_elsize types a.typecode
              some (dev.move a.data_ a.offset v.data_ v.offset (product elsize a.dimensions) w))
            else if not ok
            then some (memory_error, w)
            else (do
              tv ←
                  fixed (length a.dimensions) (record v {
                    dimensions = a.dimensions;
                    strides = replicate off (pos 0) ++ strs;
                  })
              some (dev.extcopy a tv w))
      ]
    where
      fixed : ℕ → GpuArray → Option GpuArray
      fixed zero tv = some tv
      fixed (suc nd) tv = fix_flags types tv

  -- The dimensions of the concatenation: those of the first array, grown along `axis` by the others.
  unfoldable pub grow_dims : ℕ → List ℕ → List ℕ → Option (List ℕ)
  grow_dims axis [] es = some []
  grow_dims axis (d ∷ ds) [] = none
  grow_dims zero (d ∷ ds) (e ∷ es) = if same_dims ds es then some ((d + e) % 2 ^ 64 ∷ ds) else none
  grow_dims (suc axis) (d ∷ ds) (e ∷ es) =
      let rest = grow_dims axis ds es in if d == e then rest >>= (λ r. some (d ∷ r)) else none

  unfoldable pub check_loop : ℕ → ℕ → List ℕ → List GpuArray → GaError × List ℕ
  check_loop axis nd dims [] = (no_error, dims)
  check_loop axis nd dims (a ∷ xs) =
      if not a.flags.aligned
      then (unaligned_error, dims)
      else if not (length a.dimensions == nd)
      then (value_error, dims)
      else elim (grow_dims axis dims a.dimensions) [
        | none ↦ (value_error, dims)
        | some dims' ↦ check_loop axis nd dims' xs
      ]

  -- The loop of copies: `r` is the window of the result that the next array goes to.
  unfoldable pub copy_loop : ℕ → GpuArray → List GpuArray → W → Option (GaError × W)
  copy_loop axis r [] w = some (no_error, w)
  copy_loop axis r (a ∷ xs) w = do
    r' ← fix_flags types (record r { dimensions = a.dimensions })
    t ← get_elem? r.strides axis
    d ← get_elem? a.dimensions axis
    let (code, w') = dev.extcopy r' a w
    (if failed code
        then some (code, w')
        else copy_loop axis (record r' { offset = (r.offset + to_size (t *ℤ pos d)) % 2 ^ 64 }) xs
            w')

  -- `GpuArray_concatenate` of `a` and the arrays `xs` after it.
  unfoldable pub concatenate :
      Bool
      → Bool
      → GpuArray
      → List GpuArray
      → ℕ
      → ℤ
      → GpuArray
      → W
      → Option ((GaError × GpuArray) × W)
  concatenate ok ok_empty a xs axis restype r w =
      if leb (length a.dimensions) axis
      then some ((value_error, r), w)
      else if not ok
      then some ((memory_error, r), w)
      else if not a.flags.aligned
      then some ((unaligned_error, r), w)
      else (let (code, dims) = check_loop axis (length a.dimensions) a.dimensions xs in
          if failed code then some ((code, r), w) else (do
            ((code', r'), w') ← empty dev types ok_empty restype dims any_order r w
            (if failed code' then some ((code', r'), w') else (do
              (code₂, w₂) ← copy_loop axis r' (a ∷ xs) w'
              some (
                  if failed code₂
                  then (let (r₃, w₃) = clear dev r' w₂ in ((code₂, r₃), w₃))
                  else ((no_error, r'), w₂))))))
