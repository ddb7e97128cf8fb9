-- ===== src/Array/View.antt =====
-- Creation, views and destruction of arrays in src/gpuarray_array.c.
pub mod Empty
use libgpuarray.Base.{
  ℕ, zero, suc, ◌+◌, ◌-◌, ◌*◌, ◌/◌, ◌%◌, ◌^◌, Bool, true, false, not, ◌&&◌, ◌||◌, Option, none,
  some, List, [], ◌∷◌, ltb, leb, ◌==◌, if◌then◌else◌, length, ◌>>=◌, ℤ, pos, negsuc, ◌==ℤ◌, to_size,
  to_ssize,
}
use libgpuarray.Types.{GpuarrayType, gpuarray_get_type, gpuarray_get_elsize, ga_size, ga_ssize}
use libgpuarray.Array.{GaError, failed, Flags, GaOrder, GpuArray, Device, reverse, fix_flags}

-- MUL_NO_OVERFLOW
abbrev pub mul_no_overflow : ℕ
mul_no_overflow = 2 ^ 32

-- The multiplication that checks for overflow: `none` is GA_XLARGE_ERROR.
unfoldable pub mul_checked : ℕ → ℕ → Option ℕ
mul_checked size d =
    if (leb mul_no_overflow d || leb mul_no_overflow size) && ltb 0 d && ltb ((2 ^ 64 - 1) / d) size
    then none
    else some (size * d % 2 ^ 64)

-- The loop over the dimensions in `GpuArray_empty` and `GpuArray_reshape_inplace`.
unfoldable pub total_size : ℕ → List ℕ → Option ℕ
total_size size [] = some size
total_size size (d ∷ ds) = mul_checked size d >>= (λ s. total_size s ds)

-- The strides of a dense layout, from the dimension whose stride is the least.
unfoldable pub dense_strides : ℕ → List ℕ → List ℤ
dense_strides size [] = []
dense_strides size (d ∷ ds) = to_ssize size ∷ dense_strides (size * d % 2 ^ 64) ds

-- GpuArray_clear leaves all fields 0.
abbrev pub cleared : GpuArray
cleared = record {
  data_ = 0;
  dimensions = [];
  strides = [];
  offset = 0;
  flags = record { c_contiguous = false; f_contiguous = false; aligned = false; writeable = false };
  typecode = pos 0;
}

-- The strides and flags that the `switch` of `GpuArray_empty` sets.
unfoldable pub strides_of : GaOrder → ℕ → List ℕ → List ℤ
strides_of GaOrder.any_order size dims = reverse (dense_strides size (reverse dims [])) []
strides_of GaOrder.c_order size dims = reverse (dense_strides size (reverse dims [])) []
strides_of GaOrder.f_order size dims = dense_strides size dims

abbrev pub is_f : GaOrder → Bool
is_f GaOrder.f_order = true
is_f GaOrder.c_order = false
is_f GaOrder.any_order = false

abbrev pub empty_array : ℕ → ℤ → ℕ → List ℕ → GaOrder → GpuArray
empty_array buffer typecode size dims ord = record {
  data_ = buffer;
  dimensions = dims;
  strides = strides_of ord size dims;
  offset = 0;
  flags = record {
    c_contiguous = not (is_f ord) || leb (length dims) 1;
    f_contiguous = is_f ord || leb (length dims) 1;
    aligned = true;
    writeable = true;
  };
  typecode = typecode;
}

module _ {W : Type 0} (dev : Device W) where
  unfoldable pub clear : GpuArray → W → GpuArray × W
  clear a w = (cleared, if a.data_ == 0 then w else dev.release a.data_ w)

  unfoldable pub share : GpuArray → GpuArray → W → Bool
  share a b w = if not (a.data_ == b.data_) then false else dev.share a.data_ b.data_ w

  module _ (types : List GpuarrayType) where
    -- `ok` tells whether both calls of `calloc` returned memory. Without DEBUG.
    unfoldable pub empty :
        Bool → ℤ → List ℕ → GaOrder → GpuArray → W → Option ((GaError × GpuArray) × W)
    empty ok typecode dims ord a w = do
      elsize ← gpuarray_get_elsize types typecode
      (if typecode ==ℤ ga_size || typecode ==ℤ ga_ssize
          then some ((GaError.value_error, a), w)
          else elim (total_size elsize dims) [
            | none ↦ some ((GaError.xlarge_error, a), w)
            | some size ↦
                let r = dev.alloc size w in
                elim r.0.1 [
                  | none ↦ some ((r.0.0, record a { data_ = 0 }), r.1)
                  | some b ↦
                      if ok
                      then some ((GaError.no_error, empty_array b typecode elsize dims ord), r.1)
                      else some ((GaError.sys_error, cleared), dev.release b r.1)
                ]
          ])

    unfoldable pub zeros :
        Bool → ℤ → List ℕ → GaOrder → GpuArray → W → Option ((GaError × GpuArray) × W)
    zeros ok typecode dims ord a w = do
      ((code, a'), w') ← empty ok typecode dims ord a w
      (if failed code
          then some ((code, a'), w')
          else (let r = dev.memset a'.data_ a'.offset 0 w' in
              if failed r.0
              then some ((r.0, cleared), dev.release a'.data_ r.1)
              else some ((r.0, a'), r.1)))

    -- The caller gives as many strides as dimensions.
    unfoldable pub fromdata :
        Bool → ℕ → ℕ → ℤ → List ℕ → List ℤ → Bool → GpuArray → W → Option ((GaError × GpuArray) × W)
    fromdata ok buffer offset typecode dims strides writeable a w =
        if typecode ==ℤ ga_size || typecode ==ℤ ga_ssize
        then some ((GaError.value_error, a), w)
        else if ok
        then (do
          a' ← fix_flags types (record {
            data_ = buffer;
            dimensions = dims;
            strides = strides;
            offset = offset;
            flags = record {
              c_contiguous = false;
              f_contiguous = false;
              aligned = false;
              writeable = writeable;
            };
            typecode = typecode;
          })
          some ((GaError.no_error, a'), dev.retain buffer w))
        else some ((GaError.memory_error, cleared), dev.release buffer (dev.retain buffer w))

  unfoldable pub view : Bool → GpuArray → W → (GaError × GpuArray) × W
  view ok a w =
      if ok
      then ((GaError.no_error, a), dev.retain a.data_ w)
      else ((GaError.memory_error, cleared), dev.release a.data_ (dev.retain a.data_ w))
