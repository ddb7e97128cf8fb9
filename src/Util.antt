-- ===== src/Util.antt =====
-- `gpuarray_elemwise_collapse` and `gpuarray_elem_perdim` of src/gpuarray_util.c. An array of
-- dimensions or strides is the list of its first `nd` entries, so that `shiftdown`, which moves the
-- later entries down before `nd` goes down, takes one entry out.
pub mod Offsets
pub mod Collapse
mod Tests
use libgpuarray.Base.{
  ℕ, zero, suc, ◌+◌, ◌-◌, ◌*◌, ◌/◌, ◌%◌, ◌^◌, Bool, true, false, ◌&&◌, Option, none, some, List, [],
  ◌∷◌, map, ltb, ◌==◌, if◌then◌else◌, length, get_or, set, ℤ, pos, ◌==ℤ◌, ◌*ℤ◌, ◌+ℤ◌,
}

unfoldable pub shiftdown {ℓ} : {A : Type ℓ} → List A → ℕ → List A
shiftdown [] i = []
shiftdown (x ∷ xs) zero = xs
shiftdown (x ∷ xs) (suc i) = x ∷ shiftdown xs i

-- The dimensions, and the strides of each array: `none` is NULL.
pub record Shape : Type 0 where
  pub dims : List ℕ
  pub strs : List (Option (List ℤ))

abbrev pub on_strides : (List ℤ → List ℤ) → Option (List ℤ) → Option (List ℤ)
on_strides f none = none
on_strides f (some s) = some (f s)

-- The first loop, from `i` down: it takes out the dimensions of size 1 while others are left.
unfoldable pub remove_ones : ℕ → Shape → Shape
remove_ones zero c = c
remove_ones (suc i) c = remove_ones i (
    if ltb 1 (length c.dims) && (get_or c.dims i 0 == 1)
    then record { dims = shiftdown c.dims i; strs = map (on_strides (λ s. shiftdown s i)) c.strs }
    else c)

-- Whether an array steps over dimension `i` as one step of dimension `i - 1` does.
unfoldable pub steps_on : List ℕ → ℕ → Option (List ℤ) → Bool
steps_on dims i none = true
steps_on dims i (some s) = get_or s (i - 1) (pos 0) ==ℤ pos (get_or dims i 0) *ℤ get_or s i (pos 0)

unfoldable pub all_step_on : List ℕ → ℕ → List (Option (List ℤ)) → Bool
all_step_on dims i [] = true
all_step_on dims i (s ∷ ss) = steps_on dims i s && all_step_on dims i ss

-- Merges dimension `i` into the one before it.
unfoldable pub merge : ℕ → Shape → Shape
merge i c = record {
  dims = shiftdown (set c.dims (i - 1) (get_or c.dims (i - 1) 0 * get_or c.dims i 0 % 2 ^ 64)) i;
  strs = map (on_strides (λ s. shiftdown (set s (i - 1) (get_or s i (pos 0))) i)) c.strs;
}

-- The second loop, from `i` down to 1.
unfoldable pub merge_loop : ℕ → Shape → Shape
merge_loop zero c = c
merge_loop (suc i) c =
    merge_loop i (if all_step_on c.dims (suc i) c.strs then merge (suc i) c else c)

-- On at least one dimension: with none the second loop starts at UINT_MAX.
unfoldable pub elemwise_collapse : Shape → Shape
elemwise_collapse c = let r = remove_ones (length c.dims) c in merge_loop (length r.dims - 1) r

-- The offset that the code of `gpuarray_elem_perdim` computes for element `i`: from the last
-- dimension to the second each takes a remainder, and the first takes what is left. The lists
-- start with the last dimension.
unfoldable pub perdim : List ℕ → List ℤ → ℕ → ℤ
perdim (d ∷ []) (s ∷ ss) i = pos i *ℤ s
perdim (d ∷ e ∷ ds) (s ∷ ss) i = pos (i % d) *ℤ s +ℤ perdim (e ∷ ds) ss (i / d)
perdim [] ss i = pos 0
perdim (d ∷ ds) [] i = pos 0
