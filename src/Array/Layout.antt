-- ===== src/Array/Layout.antt =====
-- `GpuArray_transpose` and `GpuArray_reshape` of src/gpuarray_array.c, in place and as new views.
use libgpuarray.Base.{
  ℕ, zero, suc, ◌+◌, ◌-◌, ◌*◌, ◌%◌, ◌^◌, Bool, true, false, not, ◌&&◌, Option, none, some, List, [],
  ◌∷◌, ◌++◌, ltb, ◌==◌, if◌then◌else◌, length, get_elem?, set, replicate, ◌>>=◌, ℤ, pos, ◌==ℤ◌,
  ◌*ℤ◌,
}
use libgpuarray.Types.{GpuarrayType, gpuarray_get_elsize}
use libgpuarray.Array.{
  GaError, failed, no_error, memory_error, value_error, invalid_error, sys_error, copy_error,
  xlarge_error, GaOrder, any_order, c_order, f_order, GpuArray, Device, fix_flags, reverse,
}
use libgpuarray.Array.View.{view, clear, total_size, strides_of}

-- Whether `j` is among the axes before it.
unfoldable pub repeated : ℕ → List ℕ → Bool
repeated j [] = false
repeated j (k ∷ seen) = let r = repeated j seen in if j == k then true else r

-- The loop of `GpuArray_transpose_inplace` over the axes. `none` is the read of an axis that the
-- array does not have; the inner `none` is an axis that was there before.
unfoldable pub axes_loop : List ℕ → List ℤ → List ℕ → List ℕ → Option (Option (List ℕ × List ℤ))
axes_loop dims strs seen [] = some (some ([], []))
axes_loop dims strs seen (j ∷ axes) =
    let rest = axes_loop dims strs (seen ++ j ∷ []) axes in
    if repeated j seen then some none else (do
      d ← get_elem? dims j
      t ← get_elem? strs j
      r ← rest
      some (r >>= (λ (ds, ts). some (d ∷ ds, t ∷ ts))))

module _ (types : List GpuarrayType) where
  -- `none` for the axes is NULL, which reverses them; otherwise there is one for each dimension.
  unfoldable pub transpose_inplace : Bool → Option (List ℕ) → GpuArray → Option (GaError × GpuArray)
  transpose_inplace false axes a = some (memory_error, a)
  transpose_inplace true none a = do
    a' ←
        fix_flags types
          (record a { dimensions = reverse a.dimensions []; strides = reverse a.strides [] })
    some (no_error, a')
  transpose_inplace true (some axes) a = do
    r ← axes_loop a.dimensions a.strides [] axes
    elim r [
      | none ↦ some (value_error, a)
      | some (ds, ts) ↦ do
        a' ← fix_flags types (record a { dimensions = ds; strides = ts })
        some (no_error, a')
    ]

  module _ {W : Type 0} (dev : Device W) where
    unfoldable pub transpose :
        Bool → Bool → Option (List ℕ) → GpuArray → W → Option ((GaError × GpuArray) × W)
    transpose ok ok_axes axes a w =
        let ((code, r), w') = view dev ok a w in
        if failed code then some ((code, r), w') else (do
          (code', r') ← transpose_inplace ok_axes axes r
          some (
              if failed code'
              then (let (r'', w'') = clear dev r' w' in ((code', r''), w''))
              else ((code', r'), w')))

-- The product of the dimensions of an array, as `size_t`.
unfoldable pub product : ℕ → List ℕ → ℕ
product size [] = size
product size (d ∷ ds) = product (size * d % 2 ^ 64) ds

-- The inner loop of `GpuArray_reshape_inplace`: the ends `nj` and `oj` of the next groups of
-- dimensions with one product. `none` is a read past the dimensions.
unfoldable pub match_loop : ℕ → List ℕ → List ℕ → ℕ → ℕ → ℕ → ℕ → Option (ℕ × ℕ)
match_loop zero new old np op nj oj = none
match_loop (suc fuel) new old np op nj oj =
    if np == op
    then some (nj, oj)
    else if ltb np op
    then get_elem? new nj >>= (λ d. match_loop fuel new old (np * d % 2 ^ 64) op (nj + 1) oj)
    else get_elem? old oj >>= (λ d. match_loop fuel new old np (op * d % 2 ^ 64) nj (oj + 1))

-- Whether the old dimensions from `k` on, `n` steps, are laid out as one.
unfoldable pub mergeable : Bool → List ℕ → List ℤ → ℕ → ℕ → Option Bool
mergeable fortran old strs k zero = some true
mergeable fortran old strs k (suc n) = do
  d ← get_elem? old k
  d' ← get_elem? old (k + 1)
  t ← get_elem? strs k
  t' ← get_elem? strs (k + 1)
  rest ← mergeable fortran old strs (k + 1) n
  some (if fortran then t' ==ℤ pos d *ℤ t && rest else t ==ℤ pos d' *ℤ t' && rest)

-- The strides of a group: in Fortran order from its first dimension up, `n` more of them.
unfoldable pub fill_up : List ℕ → ℕ → ℕ → List ℤ → Option (List ℤ)
fill_up new k zero strs = some strs
fill_up new k (suc n) strs = do
  t ← get_elem? strs k
  d ← get_elem? new k
  fill_up new (k + 1) n (set strs (k + 1) (t *ℤ pos d))

-- In C order from its last dimension down.
unfoldable pub fill_down : List ℕ → ℕ → ℕ → List ℤ → Option (List ℤ)
fill_down new k zero strs = some strs
fill_down new k (suc n) strs = do
  t ← get_elem? strs k
  d ← get_elem? new k
  fill_down new (k - 1) n (set strs (k - 1) (t *ℤ pos d))

-- The outer loop from the dimensions `ni` and `oi` on: the strides and `nj`, where the inner
-- `none` is `need_copy`.
unfoldable pub group_loop :
    ℕ → Bool → List ℕ → List ℕ → List ℤ → ℕ → ℕ → List ℤ → Option (Option (List ℤ × ℕ))
group_loop zero fortran new old strs ni oi out = some (some (out, ni + 1))
group_loop (suc fuel) fortran new old strs ni oi out =
    if ltb ni (length new) && ltb oi (length old)
    then (do
      np ← get_elem? new ni
      op ← get_elem? old oi
      (nj, oj) ← match_loop (length new + length old + 1) new old np op (ni + 1) (oi + 1)
      ok ← mergeable fortran old strs oi (oj - 1 - oi)
      first ← get_elem? strs oi
      last ← get_elem? strs (oj - 1)
      out' ←
          (if fortran
            then fill_up new ni (nj - 1 - ni) (set out ni first)
            else fill_down new (nj - 1) (nj - 1 - ni) (set out (nj - 1) last))
      (if ok then group_loop fuel fortran new old strs nj oj out' else some none))
    else some (some (out, ni + 1))

-- The strides of the trailing dimensions of size 1, from `i` on.
unfoldable pub trailing : Bool → ℕ → List ℕ → ℕ → ℕ → List ℤ → Option (List ℤ)
trailing fortran elsize new i zero strs = some strs
trailing fortran elsize new zero (suc n) strs =
    if fortran then none else trailing fortran elsize new 1 n (set strs 0 (pos elsize))
trailing fortran elsize new (suc i) (suc n) strs =
    if fortran
    then (do
      t ← get_elem? strs i
      d ← get_elem? new i
      trailing fortran elsize new (suc (suc i)) n (set strs (suc i) (t *ℤ pos d)))
    else trailing fortran elsize new (suc (suc i)) n (set strs (suc i) (pos elsize))

-- GA_ANY_ORDER is the order of a Fortran array of more than one dimension.
unfoldable pub order_of : GaOrder → GpuArray → GaOrder
order_of ord a = elim ord [
  | GaOrder.any_order ↦
      if a.flags.f_contiguous && ltb 1 (length a.dimensions) then f_order else any_order
  | GaOrder.c_order ↦ c_order
  | GaOrder.f_order ↦ f_order
]

-- Whether the array already has the layout asked for.
unfoldable pub same_layout : GaOrder → GpuArray → Bool
same_layout GaOrder.any_order a = false
same_layout GaOrder.c_order a = a.flags.c_contiguous
same_layout GaOrder.f_order a = a.flags.f_contiguous

abbrev pub is_fortran : GaOrder → Bool
is_fortran GaOrder.f_order = true
is_fortran GaOrder.c_order = false
is_fortran GaOrder.any_order = false

module _ (types : List GpuarrayType) where
  -- The strides of the new dimensions, `none` inside where a copy is needed.
  unfoldable pub new_strides : GaOrder → ℕ → List ℕ → ℕ → GpuArray → Option (Option (List ℤ))
  new_strides ord elsize new newsize a =
      if same_layout ord a then some (some (strides_of ord elsize new)) else (do
        r ←
            (if newsize == 0
              then some (some (replicate (length new) (pos 0), 0))
              else group_loop (length new) (is_fortran ord) new a.dimensions a.strides 0 0
                  (replicate (length new) (pos 0)))
        elim r [
          | none ↦ some none
          | some (strs, ni) ↦ do
            strs' ← trailing (is_fortran ord) elsize new ni (length new - ni) strs
            some (some strs')
        ])

  -- `ok` tells whether the calls of `calloc` returned memory. An error leaves the array as it was.
  unfoldable pub reshape_inplace : Bool → List ℕ → GaOrder → GpuArray → Option (GaError × GpuArray)
  reshape_inplace ok new ord a = do
    elsize ← gpuarray_get_elsize types a.typecode
    elim (total_size 1 new) [
      | none ↦ some (xlarge_error, a)
      | some newsize ↦
          if not (newsize == product 1 a.dimensions)
          then some (invalid_error, a)
          else if not ok
          then some (sys_error, a)
          else (do
            r ← new_strides (order_of ord a) elsize new newsize a
            elim r [
              | none ↦ some (copy_error, a)
              | some strs ↦ do
                a' ← fix_flags types (record a { dimensions = new; strides = strs })
                some (no_error, a')
            ])
    ]
