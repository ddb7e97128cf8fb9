-- ===== src/Types/Tests.antt =====
-- Lookups in the tables of src/gpuarray_types.c, and the registry with one type in it.
use libgpuarray.Base.{◌-ℤ◌, ℕ, ◌+◌, ◌<◌, ◌≡◌, refl, true, some, List, [], ◌∷◌, length, pos}
use libgpuarray.Types.{
  GpuarrayType, info, vector_types, gpuarray_get_type, gpuarray_get_elsize, gpuarray_register_type,
  scalar_types,
}
use libgpuarray.Types.Laws.{gpuarray_register_type_lem}

elsize_double : gpuarray_get_elsize [] (pos 12) ≡ some 8
unfolding gpuarray_get_elsize gpuarray_get_type scalar_types
elsize_double = refl

-- Vector types have the alignment 0.
align_float4 : gpuarray_get_type [] (pos 297) ≡ some (info 16 0 (pos 297))
unfolding gpuarray_get_type vector_types ◌-ℤ◌
align_float4 = refl

abbrev one : List GpuarrayType
one = info 12 4 (pos 512) ∷ []

gpuarray_register_type_lem_example :
    (gpuarray_get_type
        (gpuarray_register_type true one (info 6 2 (pos 0))).1
        (gpuarray_register_type true one (info 6 2 (pos 0))).0
      ≡ some (info 6 2 (gpuarray_register_type true one (info 6 2 (pos 0))).0))
    × ((n : ℕ)
        → n < length one
        → gpuarray_get_type (gpuarray_register_type true one (info 6 2 (pos 0))).1 (pos (512 + n))
          ≡ gpuarray_get_type one (pos (512 + n)))
gpuarray_register_type_lem_example = gpuarray_register_type_lem one (info 6 2 (pos 0))
