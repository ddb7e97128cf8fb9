-- ===== src/Types/Laws.antt =====
-- The registry of types in src/gpuarray_util.c.
use libgpuarray.Base.{
  ℕ, zero, suc, ◌+◌, ◌<◌, ◌≡◌, ◌∙◌, sym, true, false, some, none, List, [], ◌∷◌, ◌++◌, arith,
  length, get_elem?, length-append, pos, ltb_ℤ, ◌-ℤ◌, if◌then◌else◌, ltb,
}
use libgpuarray.Types.{GpuarrayType, gpuarray_get_type, gpuarray_register_type}

get_elem?-append :
    {A : Type 0} (l : List A) (x : A) (i : ℕ)
    → get_elem? (l ++ x ∷ []) i
      ≡ (if ltb i (length l) then get_elem? l i else if ltb (length l) i then none else some x)
get_elem?-append [] x zero = ground arith
get_elem?-append [] x (suc i) = ground arith
get_elem?-append (y ∷ l) x zero = ground arith
get_elem?-append (y ∷ l) x (suc i) = get_elem?-append l x i ∙ ground arith

minus : (n : ℕ) → pos (512 + n) -ℤ pos 512 ≡ pos n
unfolding ◌-ℤ◌
minus n = ground arith

-- Looking up a code from 512 on reads the table of the registered types.
get_custom :
    (types : List GpuarrayType) (n : ℕ)
    → n < length types
    → gpuarray_get_type types (pos (512 + n)) ≡ get_elem? types n
unfolding gpuarray_get_type
get_custom types n h =
    let a : ltb_ℤ (pos (512 + n)) (pos 256) ≡ false = ground arith in
    let b : ltb_ℤ (pos (512 + n)) (pos 512) ≡ false = ground arith in
    let c : ltb_ℤ (pos n) (pos (length types)) ≡ true = ground arith in rw (a, b, minus n, c)

-- A type that is registered, with memory for the table, is found under the code returned, and
-- every code handed out before still finds its type.
pub gpuarray_register_type_lem :
    (types : List GpuarrayType) (t : GpuarrayType)
    → let r = gpuarray_register_type true types t in
      (gpuarray_get_type r.1 r.0 ≡ some (record t { typecode = r.0 }))
      × ((n : ℕ)
          → n < length types
          → gpuarray_get_type r.1 (pos (512 + n)) ≡ gpuarray_get_type types (pos (512 + n)))
unfolding gpuarray_register_type
gpuarray_register_type_lem types t =
    let u = record t { typecode = pos (512 + length types) } in
    let l = length-append types (u ∷ []) in
    (
      get_custom (types ++ u ∷ []) (length types) (omega arith)
          ∙ get_elem?-append types u (length types)
          ∙ ground arith,
      λ n h.
          get_custom (types ++ u ∷ []) n (omega arith)
          ∙ get_elem?-append types u n
          ∙ (let a : ltb n (length types) ≡ true = ground arith in rw a)
          ∙ sym (get_custom types n h),
    )
