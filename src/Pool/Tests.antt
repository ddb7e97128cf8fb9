-- ===== src/Pool/Tests.antt =====
-- Runs of the allocator of src/gpuarray_buffer_cuda.c, and its theorems at inputs.
use libgpuarray.Base.{true, false, some, [], ◌∷◌, ◌≡◌, refl, ◌-◌}
use libgpuarray.Error.{GaError}
use libgpuarray.Base.{arith, ◌++◌, ◌^◌}
use libgpuarray.Pool.Bytes.{held, covers}
use libgpuarray.Pool.Fit.{IsBest, find_best-IsBest}
use libgpuarray.Pool.Counts.{IsOpen}
use libgpuarray.Pool.Cycle.{cuda_free-cuda_alloc}
use libgpuarray.Pool.Steps.{
  System, IsSound, Step, alloc, DriverGives, with_live, here, next, free, retain,
}
use libgpuarray.Pool.History.{Reach-IsSound}
use libgpuarray.Pool.{
  Spot, grown, asize, roundup, find_best, best_loop, Context, Answers, AllocFlags, Buffer,
  cuda_alloc, cuda_free, enter_loop, best_loop, cuda_retain,
}

abbrev ready : Answers
ready = record {
  mem_alloc = some 0x700000;
  new_res = true;
  new_split = true;
  written = GaError.no_error;
}

abbrev plain : AllocFlags
plain = record {
  read_only = false;
  write_only = false;
  init = false;
  host = false;
  has_data = false;
}

abbrev fresh : Context
fresh = record {
  freeblocks = [];
  cache_size = 0;
  max_cache_size = 0x1000000;
  refcnt = 1;
  driver = [];
}

first_alloc :
    (cuda_alloc fresh ready plain 100).0.freeblocks
    ≡ record { ptr = 0x700080; sz = 0x400000 - 128; head = false } ∷ []
unfolding cuda_alloc best_loop enter_loop
first_alloc = refl

fresh-IsOpen : IsOpen fresh
fresh-IsOpen = record {
  limited = λ e. omega arith;
  used = omega arith;
  narrow = omega arith;
  ranges = tt;
  tidy = tt;
}

abbrev at_start : System
at_start = record { ctx = fresh; live = [] }

at_start-IsSound : IsSound at_start
unfolding held
at_start-IsSound = record {
  opened = fresh-IsOpen;
  counted = refl;
  owned = tt;
  once = λ x. omega arith;
  anchors_free = tt;
  anchors_live = tt;
}

abbrev after_one : System
after_one = record {
  ctx = (cuda_alloc fresh ready plain 100).0;
  live = with_live (cuda_alloc fresh ready plain 100).1 [];
}

grown_first : grown fresh (asize fresh 100) ≡ 0x400000
unfolding roundup
grown_first = refl

driver_gives : DriverGives at_start ready.mem_alloc (grown fresh (asize fresh 100))
unfolding held covers
driver_gives = rw grown_first (omega arith, λ x. ground arith)

first-Step : Step at_start after_one
first-Step = alloc ready plain 100 (omega arith) (omega arith) driver_gives refl

-- A reference to the buffer is taken and given up.
abbrev first : Buffer
first = record {
  block = record { ptr = 0x700000; sz = 128; head = true };
  count = 1;
  external = false;
  ipc = false;
}

one-live : after_one.live ≡ first ∷ []
unfolding cuda_alloc best_loop enter_loop
one-live = refl

abbrev after_retain : System
after_retain = record after_one { live = [] ++ cuda_retain first ∷ [] }

abbrev after_free : System
after_free = record {
  ctx = (cuda_free (cuda_retain first) after_retain.ctx).1;
  live = [] ++ with_live (cuda_free (cuda_retain first) after_retain.ctx).0 [];
}

retain-Step : Step after_one after_retain
retain-Step = retain [] first [] one-live (omega arith) refl

free-Step : Step after_retain after_free
free-Step = free [] (cuda_retain first) [] refl refl

Reach-IsSound_example : IsSound after_free
Reach-IsSound_example =
    Reach-IsSound (next (next (next here first-Step) retain-Step) free-Step) at_start-IsSound

-- A context with two free blocks.
abbrev two_free : Context
two_free = record {
  freeblocks =
      record { ptr = 0x1000; sz = 0x400; head = true }
      ∷ record { ptr = 0x2000; sz = 0x100; head = true }
      ∷ [];
  cache_size = 0x2000;
  max_cache_size = 0x1000000;
  refcnt = 2;
  driver = [];
}

two_free-IsOpen : IsOpen two_free
two_free-IsOpen = record {
  limited = λ e. omega arith;
  used = omega arith;
  narrow = omega arith;
  ranges = omega arith;
  tidy = omega arith;
}

abbrev second : Spot
second = record {
  before = record { ptr = 0x1000; sz = 0x400; head = true } ∷ [];
  curr = record { ptr = 0x2000; sz = 0x100; head = true };
  after = [];
}

abbrev small : Buffer
small = record {
  block = record { ptr = 0x2000; sz = 128; head = true };
  count = 1;
  external = false;
  ipc = false;
}

finds_second : find_best (asize two_free 100) two_free.freeblocks ≡ some second
unfolding find_best best_loop roundup
finds_second = refl

allocs_small : (cuda_alloc two_free ready plain 100).1 ≡ some small
unfolding cuda_alloc best_loop
allocs_small = refl

cuda_free-cuda_alloc_example :
    (cuda_free small (cuda_alloc two_free ready plain 100).0).1 ≡ two_free
cuda_free-cuda_alloc_example =
    cuda_free-cuda_alloc two_free ready plain 100 second small two_free-IsOpen finds_second
      allocs_small

find_best-IsBest_example :
    IsBest 128 two_free.freeblocks two_free.freeblocks (find_best 128 two_free.freeblocks)
find_best-IsBest_example = find_best-IsBest 128 two_free.freeblocks

-- A size that rounds up over the end of `size_t` asks for no byte.
rounds_to_none : roundup (2 ^ 64 - 1) 64 ≡ 0
unfolding roundup
rounds_to_none = refl
