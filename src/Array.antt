-- ===== src/Array.antt =====
-- src/gpuarray_array.c and src/gpuarray/array.h: arrays as strided windows on device buffers.
-- `none` is a fault: a read out of bounds or a division by zero. A product of two `ssize_t` is
-- exact, since its overflow is undefined; `size_t` wraps around.
pub mod Contiguous
pub mod Marks
pub mod View
pub mod Slice
pub mod Layout
pub mod Copy
use libgpuarray.Base.{
  ℕ, ◌+◌, ◌-◌, ◌*◌, ◌/◌, ◌%◌, ◌^◌, Bool, true, false, not, ◌&&◌, ◌||◌, Option, none, some, List, [],
  ◌∷◌, ltb, leb, ◌==◌, if◌then◌else◌, length, ◌>>=◌, ℤ, pos, negsuc, ◌==ℤ◌, to_size, to_ssize,
}
pub use libgpuarray.Error.{
  GaError, failed, no_error, memory_error, value_error, invalid_error, unsupported_error, sys_error,
  unaligned_error, copy_error, xlarge_error, misc_error, impl_error,
}
use libgpuarray.Types.{GpuarrayType, gpuarray_get_type, gpuarray_get_elsize, ga_size, ga_ssize}

-- The bits GA_C_CONTIGUOUS, GA_F_CONTIGUOUS, GA_ALIGNED and GA_WRITEABLE of `flags`.
pub record Flags : Type 0 where
  pub c_contiguous : Bool
  pub f_contiguous : Bool
  pub aligned : Bool
  pub writeable : Bool

pub data GaOrder : Type 0 where
  any_order c_order f_order : GaOrder

-- `data` names a buffer, 0 is NULL; `nd` is the number of the dimensions, and of the strides.
pub record GpuArray : Type 0 where
  pub data_ : ℕ
  pub dimensions : List ℕ
  pub strides : List ℤ
  pub offset : ℕ
  pub flags : Flags
  pub typecode : ℤ

-- Whether every dimension but those of size 1 has the stride that a dense layout wants. The lists
-- start with the dimension whose stride is the least, which wants `size`.
unfoldable pub dense : ℕ → List ℕ → List ℤ → Bool
dense size (d ∷ ds) (t ∷ ts) =
    let rest = dense (size * d % 2 ^ 64) ds ts in
    if not (t ==ℤ to_ssize size) && not (d == 1) then false else rest
dense size [] ts = true
dense size (d ∷ ds) [] = true

abbrev pub reverse {ℓ} : {A : Type ℓ} → List A → List A → List A
reverse [] acc = acc
reverse (x ∷ l) acc = reverse l (x ∷ acc)

-- Whether all strides are multiples of the alignment.
unfoldable pub aligned_strides : ℕ → List ℤ → Bool
aligned_strides align [] = true
aligned_strides align (t ∷ ts) =
    let rest = aligned_strides align ts in if to_size t % align == 0 then rest else false

module _ (types : List GpuarrayType) where
  unfoldable pub is_c_contiguous : GpuArray → Option Bool
  is_c_contiguous a = do
    size ← gpuarray_get_elsize types a.typecode
    some (dense size (reverse a.dimensions []) (reverse a.strides []))

  unfoldable pub is_f_contiguous : GpuArray → Option Bool
  is_f_contiguous a = do
    size ← gpuarray_get_elsize types a.typecode
    some (dense size a.dimensions a.strides)

  -- `%` by an alignment of 0 faults.
  unfoldable pub is_aligned : GpuArray → Option Bool
  is_aligned a = do
    t ← gpuarray_get_type types a.typecode
    (if t.align == 0
        then none
        else some (a.offset % t.align == 0 && aligned_strides t.align a.strides))

  unfoldable pub fix_flags : GpuArray → Option GpuArray
  fix_flags a = do
    c ← is_c_contiguous a
    f ← is_f_contiguous a
    w ← is_aligned a
    some (record a {
      flags = record {
        c_contiguous = c;
        f_contiguous = f;
        aligned = w;
        writeable = a.flags.writeable;
      };
    })

-- GpuArray_ISONESEGMENT
abbrev pub is_one_segment : GpuArray → Bool
is_one_segment a = a.flags.c_contiguous || a.flags.f_contiguous

-- What src/gpuarray_buffer.c offers of device memory, over a state of its own. An error of
-- `alloc` is the one found in the context.
pub record Device (W : Type 0) : Type 0 where
  pub alloc : ℕ → W → (GaError × Option ℕ) × W
  pub retain : ℕ → W → W
  pub release : ℕ → W → W
  pub move : ℕ → ℕ → ℕ → ℕ → ℕ → W → GaError × W
  pub write : ℕ → ℕ → List ℕ → W → GaError × W
  pub read : ℕ → ℕ → ℕ → W → (GaError × List ℕ) × W
  pub memset : ℕ → ℕ → ℕ → W → GaError × W
  pub transfer : ℕ → ℕ → ℕ → ℕ → ℕ → W → GaError × W
  pub share : ℕ → ℕ → W → Bool
  -- `ga_extcopy`, which runs an elementwise kernel
  pub extcopy : GpuArray → GpuArray → W → GaError × W
