-- ===== src/Pool.antt =====
-- The device memory allocator of src/gpuarray_buffer_cuda.c: a list of free blocks in order of their
-- addresses. A position in that list, `curr` with `prev` in the code, is a `Spot`. What the driver
-- and malloc answer is an argument. Events and streams, which order the work on a block, are left
-- out.
pub mod Bytes
pub mod Fit
pub mod Counts
pub mod Alloc
pub mod Tidy
pub mod Order
pub mod Return
pub mod Anchors
pub mod Cycle
pub mod Steps
pub mod History
mod Tests
use libgpuarray.Base.{
  ℕ, ◌+◌, ◌-◌, ◌*◌, ◌/◌, ◌%◌, ◌^◌, Bool, true, false, not, ◌&&◌, ◌||◌, Option, none, some, List, [],
  ◌∷◌, ◌++◌, ltb, leb, ◌==◌, if◌then◌else◌,
}
use libgpuarray.Error.{GaError, failed}

-- `size_t` and `CUdeviceptr`
abbrev pub add_size : ℕ → ℕ → ℕ
add_size a b = (a + b) % 2 ^ 64

abbrev pub sub_size : ℕ → ℕ → ℕ
sub_size a b = (a + 2 ^ 64 - b) % 2 ^ 64

abbrev pub block_size : ℕ
block_size = 4 * 1024 * 1024

abbrev pub frag_size : ℕ
frag_size = 64

-- `struct _gpudata` on the free list. `head` is the bit CUDA_HEAD_ALLOC of its flags.
pub record Block : Type 0 where
  pub ptr : ℕ
  pub sz : ℕ
  pub head : Bool

-- A block of the list, with those before and after it.
pub record Spot : Type 0 where
  pub before : List Block
  pub curr : Block
  pub after : List Block

-- The part of `struct _cuda_context` that the allocator uses. `driver` lists the pointers that went
-- to cuMemFree.
pub record Context : Type 0 where
  pub freeblocks : List Block
  pub cache_size : ℕ
  pub max_cache_size : ℕ
  pub refcnt : ℕ
  pub driver : List ℕ

abbrev better : ℕ → Block → Option Spot → Bool
better size temp none = leb size temp.sz
better size temp (some best) = leb size temp.sz && ltb temp.sz best.curr.sz

-- The loop, with the blocks that it has passed.
pub best_loop : ℕ → List Block → Option Spot → List Block → Option Spot
best_loop size passed best [] = best
best_loop size passed best (temp ∷ next) =
    best_loop size (passed ++ temp ∷ [])
      (if better size temp best
        then some (record { before = passed; curr = temp; after = next })
        else best)
      next

unfoldable pub find_best : ℕ → List Block → Option Spot
find_best size freeblocks = best_loop size [] none freeblocks

pub largest_loop : ℕ → List Block → ℕ
largest_loop sz [] = sz
largest_loop sz (temp ∷ next) = largest_loop (if ltb sz temp.sz then temp.sz else sz) next

-- `sz` is the free memory that the driver tells.
unfoldable pub largest_size : ℕ → List Block → ℕ
unfolding largest_loop
largest_size sz freeblocks = largest_loop (sz / 4) freeblocks

-- Where `allocate` enters a block in the list.
pub enter_loop : Block → List Block → List Block → Spot
enter_loop res passed [] = record { before = passed; curr = res; after = [] }
enter_loop res passed (next ∷ rest) =
    if ltb next.ptr res.ptr
    then enter_loop res (passed ++ next ∷ []) rest
    else record { before = passed; curr = res; after = next ∷ rest }

abbrev pub list_of : Spot → List Block
list_of s = s.before ++ s.curr ∷ s.after

-- What the outside answers to a call of `cuda_alloc`: the pointer of cuMemAlloc, whether malloc has
-- memory for the block and for a split block, and the result of `cuda_write`.
pub record Answers : Type 0 where
  pub mem_alloc : Option ℕ
  pub new_res : Bool
  pub new_split : Bool
  pub written : GaError

-- `size` as `allocate` asks for it.
abbrev pub grown : Context → ℕ → ℕ
grown ctx size = if not (ctx.max_cache_size == 0) && ltb size block_size then block_size else size

-- The cache is limited and `size` more bytes do not fit.
abbrev pub is_over : Context → ℕ → Bool
is_over ctx size =
    not (ctx.max_cache_size == 0) && ltb ctx.max_cache_size (add_size ctx.cache_size size)

abbrev enter : Context → ℕ → ℕ → Context × GaError × Option Spot
enter ctx ptr size =
    let spot = enter_loop (record { ptr = ptr; sz = size; head = true }) [] ctx.freeblocks in
    (
      record ctx { freeblocks = list_of spot; cache_size = add_size ctx.cache_size size },
      GaError.no_error,
      some spot,
    )

abbrev mem_free : Context → ℕ → Context
mem_free ctx ptr = record ctx { driver = ptr ∷ ctx.driver }

abbrev mem_alloc : Context → Answers → ℕ → Option ℕ → Context × GaError × Option Spot
mem_alloc ctx a size none = (ctx, GaError.impl_error, none)
mem_alloc ctx a size (some ptr) =
    if a.new_res then enter ctx ptr size else (mem_free ctx ptr, GaError.sys_error, none)

unfoldable pub allocate : Context → Answers → ℕ → Context × GaError × Option Spot
allocate ctx a size =
    if is_over ctx (grown ctx size)
    then (ctx, GaError.value_error, none)
    else mem_alloc ctx a (grown ctx size) a.mem_alloc

-- The block that leaves the list and the list that is left, or an error.
unfoldable pub extract : Spot → Bool → ℕ → Option (Block × List Block)
extract s new_split size =
    let curr = s.curr in
    if ltb (sub_size curr.sz size) frag_size
    then some (curr, s.before ++ s.after)
    else if new_split
    then some (
      record curr { sz = size },
      s.before
          ++ record { ptr = add_size curr.ptr size; sz = sub_size curr.sz size; head = false }
            ∷ s.after,
    )
    else none

unfoldable pub roundup : ℕ → ℕ → ℕ
roundup s m = add_size s (m - 1) / m * m % 2 ^ 64

-- `flags` and `data` of `cuda_alloc`
pub record AllocFlags : Type 0 where
  pub read_only : Bool
  pub write_only : Bool
  pub init : Bool
  pub host : Bool
  pub has_data : Bool

-- `struct _gpudata` in the hands of a client. `count` is `refcnt`, an `unsigned int`, `external` the
-- bit DONTFREE and `ipc` the bit CUDA_IPC_MEMORY of its flags.
pub record Buffer : Type 0 where
  pub block : Block
  pub count : ℕ
  pub external : Bool
  pub ipc : Bool

-- Whether `b` starts where `a` ends and is not the first block of an allocation.
abbrev touches : Block → Block → Bool
touches a b = not b.head && (add_size a.ptr a.sz == b.ptr)

abbrev merged : Block → Block → Block
merged a b = record a { sz = add_size a.sz b.sz }

-- `d` enters before `next`, and takes it in.
pub join_next : Block → List Block → List Block
join_next d [] = d ∷ []
join_next d (next ∷ rest) = if touches d next then merged d next ∷ rest else d ∷ next ∷ rest

-- `d` enters after `prev`, which takes it in.
pub join_prev : Block → Block → List Block → List Block
unfolding join_next
join_prev prev d rest =
    if touches prev d then join_next (merged prev d) rest else prev ∷ join_next d rest

-- The loop that looks for the position of `d`, from `prev` on.
pub seek : Block → Block → List Block → List Block
unfolding join_prev
seek prev d [] = join_prev prev d []
seek prev d (next ∷ rest) =
    if ltb next.ptr d.ptr then prev ∷ seek next d rest else join_prev prev d (next ∷ rest)

pub put_back : Block → List Block → List Block
unfolding seek
put_back d [] = join_next d []
put_back d (next ∷ rest) =
    if ltb next.ptr d.ptr then seek next d rest else join_next d (next ∷ rest)

-- The end of a context frees the blocks of the list.
pub free_all : List Block → List ℕ → List ℕ
free_all [] driver = driver
free_all (curr ∷ next) driver = free_all next (curr.ptr ∷ driver)

-- `refcnt++` and `refcnt--` of an `unsigned int`, which wraps around.
abbrev pub increment : ℕ → ℕ
increment n = (n + 1) % 2 ^ 32

abbrev pub decrement : ℕ → ℕ
decrement n = (n + 2 ^ 32 - 1) % 2 ^ 32

unfoldable pub cuda_free_ctx : Context → Context
unfolding free_all
cuda_free_ctx ctx =
    if decrement ctx.refcnt == 0
    then record ctx { freeblocks = []; refcnt = 0; driver = free_all ctx.freeblocks ctx.driver }
    else record ctx { refcnt = decrement ctx.refcnt }

-- What the last reference to a buffer does with its memory.
unfoldable pub give_back : Buffer → Context → Context
unfolding put_back
give_back d ctx =
    if d.external || d.ipc
    then ctx
    else if ctx.max_cache_size == 0
    then mem_free ctx d.block.ptr
    else record ctx { freeblocks = put_back d.block ctx.freeblocks }

-- The buffer is gone with its last reference.
unfoldable pub cuda_free : Buffer → Context → Option Buffer × Context
unfolding give_back cuda_free_ctx
cuda_free d ctx =
    if decrement d.count == 0
    then (none, cuda_free_ctx (give_back d ctx))
    else (some (record d { count = decrement d.count }), ctx)

unfoldable pub cuda_retain : Buffer → Buffer
cuda_retain d = record d { count = increment d.count }

-- The last part of `cuda_alloc`, with the block out of the list.
abbrev handed : Context → Answers → AllocFlags → Block × List Block → Context × Option Buffer
handed ctx a flags (block, rest) =
    let ctx' = record ctx { freeblocks = rest; refcnt = increment ctx.refcnt } in
    let res : Buffer = record { block = block; count = 1; external = false; ipc = false } in
    if flags.init && failed a.written then ((cuda_free res ctx').1, none) else (ctx', some res)

abbrev cut : Context → Answers → AllocFlags → Option (Block × List Block) → Context × Option Buffer
cut ctx a flags none = (ctx, none)
cut ctx a flags (some out) = handed ctx a flags out

abbrev pub wanted : ℕ → ℕ
wanted size = if size == 0 then 1 else size

abbrev pub asize : Context → ℕ → ℕ
asize ctx size = if ctx.max_cache_size == 0 then wanted size else roundup (wanted size) frag_size

abbrev best : Context → ℕ → Option Spot
best ctx size = if ctx.max_cache_size == 0 then none else find_best (asize ctx size) ctx.freeblocks

abbrev taken : Answers → AllocFlags → ℕ → Context × GaError × Option Spot → Context × Option Buffer
taken a flags size (ctx, err, none) = (ctx, none)
taken a flags size (ctx, err, some spot) = cut ctx a flags (extract spot a.new_split size)

abbrev found : Context → Answers → AllocFlags → ℕ → Option Spot → Context × Option Buffer
found ctx a flags size none = taken a flags size (allocate ctx a size)
found ctx a flags size (some spot) = cut ctx a flags (extract spot a.new_split size)

abbrev pub refused : AllocFlags → Bool
refused flags =
    (flags.init && not flags.has_data) || (flags.read_only && flags.write_only) || flags.host

-- `none` is NULL.
unfoldable pub cuda_alloc : Context → Answers → AllocFlags → ℕ → Context × Option Buffer
unfolding allocate extract find_best roundup cuda_free
cuda_alloc ctx a flags size =
    if refused flags then (ctx, none) else found ctx a flags (asize ctx size) (best ctx size)

-- `same` tells whether the buffers are of one context.
unfoldable pub cuda_share : Bool → Block → Block → Bool
cuda_share same a b =
    same
    && not (a.sz == 0)
    && not (b.sz == 0)
    && ((leb a.ptr b.ptr && ltb b.ptr (add_size a.ptr a.sz))
        || (leb b.ptr a.ptr && ltb a.ptr (add_size b.ptr b.sz)))
