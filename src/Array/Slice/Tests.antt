-- ===== src/Array/Slice/Tests.antt =====
-- A slice of a 4 by 3 array of floats, and the laws of src/gpuarray_array.c at it.
use libgpuarray.Base.{
  ◌≡◌, refl, true, false, if◌then◌else◌, ltb, some, none, List, [], ◌∷◌, arith, pos, negsuc, ◌+ℤ◌,
  ◌-ℤ◌, ◌*◌, ◌^◌, ◌*ℤ◌, quot,
}
use libgpuarray.Array.{
  no_error, GpuArray, fix_flags, aligned_strides, is_c_contiguous, dense, is_aligned,
  is_f_contiguous,
}
use libgpuarray.Array.Marks.{IsMarked, fix_flags-IsMarked}
use libgpuarray.Array.View.{mul_checked, total_size}
use libgpuarray.Array.View.Empty.{bytes, mul_checked_lem, total_size-bytes}
use libgpuarray.Array.Slice.{
  Slice, index_inplace, slice_count, out_of_range, index_loop, is_invalid,
}
use libgpuarray.Array.Slice.Elements.{element, expand}
use libgpuarray.Array.Slice.Bounds.{Within, AllProper, index_inplace-selects}
use libgpuarray.Types.{GpuarrayType, scalar_types, gpuarray_get_elsize, gpuarray_get_type}

abbrev table : GpuArray
table = record {
  data_ = 1;
  dimensions = 4 ∷ 3 ∷ [];
  strides = pos 12 ∷ pos 4 ∷ [];
  offset = 0;
  flags = record { c_contiguous = true; f_contiguous = false; aligned = true; writeable = true };
  typecode = pos 11;
}

-- Rows 1 and 3, and the columns backwards.
abbrev slices : List Slice
slices =
    record { start = pos 1; stop = pos 4; step = pos 2 }
    ∷ record { start = pos 2; stop = negsuc 0; step = negsuc 0 }
    ∷ []

abbrev selection : GpuArray
selection = record table {
  dimensions = 2 ∷ 3 ∷ [];
  strides = pos 24 ∷ negsuc 3 ∷ [];
  offset = 20;
  flags = record { c_contiguous = false; f_contiguous = false; aligned = true; writeable = true };
}

selects : index_inplace [] true (some slices) table ≡ some (no_error, selection)
unfolding index_inplace index_loop is_invalid out_of_range quot ◌-ℤ◌ fix_flags is_c_contiguous
    gpuarray_get_elsize gpuarray_get_type scalar_types is_f_contiguous is_aligned slice_count ◌*ℤ◌
    dense ◌+ℤ◌ aligned_strides
selects = refl

-- Rows from the one before the first are not refused, and start before the buffer.
starts_before :
    index_inplace [] true
      (some (
        record { start = negsuc 0; stop = pos 4; step = pos 1 }
        ∷ record { start = pos 0; stop = pos 3; step = pos 1 }
        ∷ []))
      table
    ≡ some (no_error, record table { dimensions = 5 ∷ 3 ∷ []; offset = 18446744073709551604 })
unfolding index_inplace index_loop is_invalid out_of_range quot ◌-ℤ◌ fix_flags is_c_contiguous
    gpuarray_get_elsize gpuarray_get_type scalar_types is_f_contiguous is_aligned slice_count ◌*ℤ◌
    dense ◌+ℤ◌ aligned_strides
starts_before = refl

slices-AllProper : AllProper table.dimensions slices
slices-AllProper =
    (record { up = λ e. refl; down = λ e. refl }, (record { up = λ e. refl; down = λ e. refl }, tt))

index_inplace-selects_example :
    Within table.dimensions (expand slices (pos 1 ∷ pos 2 ∷ []))
    × (element selection.offset (pos 1 ∷ pos 2 ∷ []) selection.strides
        ≡ element table.offset (expand slices (pos 1 ∷ pos 2 ∷ [])) table.strides)
    × (selection.data_ ≡ table.data_)
index_inplace-selects_example =
    index_inplace-selects [] slices table selection (pos 1 ∷ pos 2 ∷ []) selects refl
      slices-AllProper ((refl, omega arith), ((refl, omega arith), tt))

abbrev float_type : GpuarrayType
float_type = record { size = 4; align = 4; typecode = pos 11 }

float_known : gpuarray_get_type [] (pos 11) ≡ some float_type
unfolding gpuarray_get_type scalar_types
float_known = refl

fix_flags-IsMarked_example :
    (b : GpuArray) × (fix_flags [] table ≡ some b) × IsMarked float_type table b
fix_flags-IsMarked_example =
    fix_flags-IsMarked [] table float_type float_known (omega arith) (omega arith) refl

sizes : total_size 4 (4 ∷ 3 ∷ []) ≡ some 48
unfolding total_size mul_checked
sizes = refl

total_size-bytes_example : 48 ≡ bytes 4 (4 ∷ 3 ∷ [])
total_size-bytes_example = total_size-bytes 4 48 (4 ∷ 3 ∷ []) sizes

mul_checked_lem_example :
    mul_checked 8589934592 4294967296
    ≡ (if ltb (8589934592 * 4294967296) (2 ^ 64) then some (8589934592 * 4294967296) else none)
mul_checked_lem_example = mul_checked_lem 8589934592 4294967296
