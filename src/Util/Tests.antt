-- ===== src/Util/Tests.antt =====
-- A shape of three dimensions that collapses to one.
use libgpuarray.Base.{◌≡◌, refl, some, none, [], ◌∷◌, pos, arith, ◌+ℤ◌, ◌*ℤ◌}
use libgpuarray.Util.{
  Shape, elemwise_collapse, perdim, merge_loop, remove_ones, shiftdown, all_step_on, steps_on,
  merge,
}
use libgpuarray.Util.Offsets.{volume}
use libgpuarray.Util.Collapse.{IsValid, Keeps, elemwise_collapse-Keeps}

abbrev rows : Shape
rows = record {
  dims = 2 ∷ 1 ∷ 3 ∷ [];
  strs = some (pos 12 ∷ pos 12 ∷ pos 4 ∷ []) ∷ none ∷ some (pos 24 ∷ pos 0 ∷ pos 8 ∷ []) ∷ [];
}

collapses :
    elemwise_collapse rows
    ≡ record { dims = 6 ∷ []; strs = some (pos 4 ∷ []) ∷ none ∷ some (pos 8 ∷ []) ∷ [] }
unfolding elemwise_collapse merge_loop remove_ones shiftdown all_step_on steps_on merge ◌*ℤ◌
collapses = refl

-- Element 5 of the rows of 3.
perdim_five : perdim (3 ∷ 2 ∷ []) (pos 4 ∷ pos 12 ∷ []) 5 ≡ pos 20
unfolding perdim ◌+ℤ◌ ◌*ℤ◌
perdim_five = refl

rows-IsValid : IsValid rows
unfolding volume
rows-IsValid = record {
  some_dim = omega arith;
  positive = (omega arith, (omega arith, (omega arith, tt)));
  bounded = omega arith;
  fits = (refl, (refl, tt));
}

elemwise_collapse-Keeps_example : Keeps rows (elemwise_collapse rows)
elemwise_collapse-Keeps_example = elemwise_collapse-Keeps rows rows-IsValid
