-- ===== src/Types.antt =====
-- src/gpuarray_types.c, src/gpuarray/types.h and the type queries of src/gpuarray_util.c.
mod Laws
mod Tests
use libgpuarray.Base.{
  ℕ, ◌+◌, ◌-◌, Bool, true, false, ◌||◌, Option, none, some, List, [], ◌∷◌, ◌++◌, ltb, leb, ◌==◌,
  if◌then◌else◌, length, get_elem?, ℤ, pos, negsuc, ltb_ℤ, ◌==ℤ◌, ◌-ℤ◌, ◌>>=◌,
}

-- `struct _gpuarray_type`, without the name that kernels use. Alignments are those of x86-64.
pub record GpuarrayType : Type 0 where
  pub size : ℕ
  pub align : ℕ
  pub typecode : ℤ

abbrev pub info : ℕ → ℕ → ℤ → GpuarrayType
info size align typecode = record { size = size; align = align; typecode = typecode }

abbrev pub ga_half : ℤ
ga_half = pos 23

abbrev pub ga_double : ℤ
ga_double = pos 12

abbrev pub ga_cfloat : ℤ
ga_cfloat = pos 14

abbrev pub ga_cdouble : ℤ
ga_cdouble = pos 15

abbrev pub ga_size : ℤ
ga_size = pos 24

abbrev pub ga_ssize : ℤ
ga_ssize = pos 25

unfoldable pub scalar_types : List GpuarrayType
scalar_types =
    info 1 1 (pos 0)
    ∷ info 1 1 (pos 1)
    ∷ info 1 1 (pos 2)
    ∷ info 2 2 (pos 3)
    ∷ info 2 2 (pos 4)
    ∷ info 4 4 (pos 5)
    ∷ info 4 4 (pos 6)
    ∷ info 8 8 (pos 7)
    ∷ info 8 8 (pos 8)
    ∷ info 16 8 (pos 9)
    ∷ info 16 8 (pos 10)
    ∷ info 4 4 (pos 11)
    ∷ info 8 8 (pos 12)
    ∷ info 16 8 (pos 13)
    ∷ info 8 4 (pos 14)
    ∷ info 16 8 (pos 15)
    ∷ info 32 8 (pos 16)
    ∷ info 0 0 (negsuc 0)
    ∷ info 0 0 (negsuc 0)
    ∷ info 0 0 (negsuc 0)
    ∷ info 0 0 (negsuc 0)
    ∷ info 0 0 (negsuc 0)
    ∷ info 0 0 (negsuc 0)
    ∷ info 2 2 (pos 23)
    ∷ info 8 8 (pos 24)
    ∷ info 8 8 (pos 25)
    ∷ []

unfoldable pub vector_types : List GpuarrayType
vector_types =
    info 2 0 (pos 256)
    ∷ info 2 0 (pos 257)
    ∷ info 3 0 (pos 258)
    ∷ info 3 0 (pos 259)
    ∷ info 4 0 (pos 260)
    ∷ info 4 0 (pos 261)
    ∷ info 8 0 (pos 262)
    ∷ info 8 0 (pos 263)
    ∷ info 16 0 (pos 264)
    ∷ info 16 0 (pos 265)
    ∷ info 4 0 (pos 266)
    ∷ info 4 0 (pos 267)
    ∷ info 6 0 (pos 268)
    ∷ info 6 0 (pos 269)
    ∷ info 8 0 (pos 270)
    ∷ info 8 0 (pos 271)
    ∷ info 16 0 (pos 272)
    ∷ info 16 0 (pos 273)
    ∷ info 32 0 (pos 274)
    ∷ info 32 0 (pos 275)
    ∷ info 8 0 (pos 276)
    ∷ info 8 0 (pos 277)
    ∷ info 12 0 (pos 278)
    ∷ info 12 0 (pos 279)
    ∷ info 16 0 (pos 280)
    ∷ info 16 0 (pos 281)
    ∷ info 32 0 (pos 282)
    ∷ info 32 0 (pos 283)
    ∷ info 64 0 (pos 284)
    ∷ info 64 0 (pos 285)
    ∷ info 16 0 (pos 286)
    ∷ info 16 0 (pos 287)
    ∷ info 24 0 (pos 288)
    ∷ info 24 0 (pos 289)
    ∷ info 32 0 (pos 290)
    ∷ info 32 0 (pos 291)
    ∷ info 64 0 (pos 292)
    ∷ info 64 0 (pos 293)
    ∷ info 128 0 (pos 294)
    ∷ info 128 0 (pos 295)
    ∷ info 8 0 (pos 296)
    ∷ info 16 0 (pos 297)
    ∷ info 32 0 (pos 298)
    ∷ info 64 0 (pos 299)
    ∷ info 16 0 (pos 300)
    ∷ info 32 0 (pos 301)
    ∷ info 64 0 (pos 302)
    ∷ info 128 0 (pos 303)
    ∷ info 4 0 (pos 304)
    ∷ info 8 0 (pos 305)
    ∷ info 16 0 (pos 306)
    ∷ info 32 0 (pos 307)
    ∷ []

abbrev pub no_type : GpuarrayType
no_type = info 0 0 (negsuc 0)

abbrev pub buffer_type : GpuarrayType
buffer_type = info 8 8 (negsuc 0)

-- A read of a table at a signed index: `none` is a read out of bounds.
abbrev pub at_index : {A : Type 0} → List A → ℤ → Option A
at_index l (pos i) = get_elem? l i
at_index l (negsuc i) = none

-- `custom_types` and its length `n_types`, as the list of the types that were registered.
-- `none` is a read out of bounds.
unfoldable pub gpuarray_get_type : List GpuarrayType → ℤ → Option GpuarrayType
gpuarray_get_type custom_types typecode =
    if ltb_ℤ typecode (pos 256)
    then (if typecode ==ℤ negsuc 0
        then some buffer_type
        else if ltb_ℤ typecode (pos 26)
        then at_index scalar_types typecode
        else some no_type)
    else if ltb_ℤ typecode (pos 512)
    then (if ltb_ℤ typecode (pos 308)
        then at_index vector_types (typecode -ℤ pos 256)
        else some no_type)
    else if ltb_ℤ (typecode -ℤ pos 512) (pos (length custom_types))
    then at_index custom_types (typecode -ℤ pos 512)
    else some no_type

-- `ok` tells whether `realloc` returned memory. The results are the code, -1 on an error, and the
-- table after it.
unfoldable pub gpuarray_register_type :
    Bool → List GpuarrayType → GpuarrayType → ℤ × List GpuarrayType
gpuarray_register_type false custom_types t = (negsuc 0, custom_types)
gpuarray_register_type true custom_types t =
    let code = pos (512 + length custom_types) in
    (code, custom_types ++ record t { typecode = code } ∷ [])

unfoldable pub gpuarray_get_elsize : List GpuarrayType → ℤ → Option ℕ
gpuarray_get_elsize custom_types typecode =
    gpuarray_get_type custom_types typecode >>= (λ t. some t.size)

-- The bits GA_USE_SMALL, GA_USE_DOUBLE, GA_USE_COMPLEX and GA_USE_HALF of a flag word.
pub record UseFlags : Type 0 where
  pub small : Bool
  pub double : Bool
  pub complex : Bool
  pub half : Bool

abbrev pub no_flags : UseFlags
no_flags = record { small = false; double = false; complex = false; half = false }

-- `|=` on flag words
abbrev pub union : UseFlags → UseFlags → UseFlags
union f g = record {
  small = f.small || g.small;
  double = f.double || g.double;
  complex = f.complex || g.complex;
  half = f.half || g.half;
}

unfoldable pub get_type_flags : List GpuarrayType → ℤ → Option UseFlags
get_type_flags custom_types typecode = do
  size ← gpuarray_get_elsize custom_types typecode
  some (record {
    small = ltb size 4;
    double = typecode ==ℤ ga_double || typecode ==ℤ ga_cdouble;
    complex = typecode ==ℤ ga_cfloat || typecode ==ℤ ga_cdouble;
    half = typecode ==ℤ ga_half;
  })

-- The loop of `gpuarray_type_flags`, over the type codes before -1, and that of
-- `gpuarray_type_flagsa`.
flags_loop : List GpuarrayType → UseFlags → List ℤ → Option UseFlags
flags_loop custom_types flags [] = some flags
flags_loop custom_types flags (t ∷ rest) =
    get_type_flags custom_types t >>= (λ f. flags_loop custom_types (union flags f) rest)

-- The arguments up to the first -1.
until_end : List ℤ → List ℤ
until_end [] = []
until_end (t ∷ rest) = let r = until_end rest in if t ==ℤ negsuc 0 then [] else t ∷ r

unfoldable pub gpuarray_type_flags : List GpuarrayType → List ℤ → Option UseFlags
unfolding flags_loop until_end
gpuarray_type_flags custom_types codes = flags_loop custom_types no_flags (until_end codes)

unfoldable pub gpuarray_type_flagsa : List GpuarrayType → List ℤ → Option UseFlags
unfolding flags_loop
gpuarray_type_flagsa custom_types codes = flags_loop custom_types no_flags codes
