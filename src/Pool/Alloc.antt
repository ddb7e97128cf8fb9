-- ===== src/Pool/Alloc.antt =====
-- `cuda_alloc` and `cuda_free` of src/gpuarray_buffer_cuda.c in a context with a limited cache.
use libgpuarray.Base.{
  ℕ, ◌-◌, ◌^◌, ◌≤◌, ◌<◌, Option, none, some, [], ◌∷◌, ◌++◌, ◌==◌, if◌then◌else◌, ◌≡◌, refl, arith,
  Bool-cases, inl, inr, ap,
}
use libgpuarray.Pool.{
  add_size, frag_size, Block, Spot, list_of, Context, Answers, AllocFlags, grown, is_over, allocate,
  mem_alloc, enter, cut, best, taken, found, asize, wanted, refused, enter_loop, extract, roundup,
  cuda_alloc,
}
use libgpuarray.Pool.Bytes.{held, InRange}
use libgpuarray.Pool.Order.{AllClear, enter_loop-IsTidy}
use libgpuarray.Pool.Anchors.{enter_loop-AllAnchored}
use libgpuarray.Pool.Fit.{
  roundup_lem, find_best-IsBest, IsBest, enter_loop-held, enter_loop-InRange, enter_loop-curr,
}
use libgpuarray.Pool.Counts.{IsOpen, region, Fits, given, missing, gained, Keeps, cut-Keeps}

cut_any :
    (ctx : Context) (o : IsOpen ctx) (a : Answers) (flags : AllocFlags) (s : Spot) (size : ℕ)
    → list_of s ≡ ctx.freeblocks
    → 0 < size
    → size ≤ s.curr.sz
    → Keeps ctx.refcnt size ctx.freeblocks (cut ctx a flags (extract s a.new_split size))
cut_any = cut-Keeps

pub grown-le : (ctx : Context) (size : ℕ) → size ≤ grown ctx size
grown-le ctx size = ground arith

module _ (ctx : Context) (o : IsOpen ctx) (a : Answers) (flags : AllocFlags) where
  -- The driver gives a block, which enters the list and leaves it again in whole or in part.
  enter-Keeps :
      (ptr n size : ℕ)
      → InRange (region ptr n)
      → AllClear (region ptr n) ctx.freeblocks
      → 0 < size
      → size ≤ n
      → Keeps ctx.refcnt size (region ptr n ∷ ctx.freeblocks) (taken a flags size (enter ctx ptr n))
  unfolding held
  enter-Keeps ptr n size h c p k =
      let spot : Spot = enter_loop (region ptr n) [] ctx.freeblocks in
      let open' : Context = record ctx {
        freeblocks = list_of spot;
        cache_size = add_size ctx.cache_size n;
      } in
      let o' : IsOpen open' = record {
        limited = o.limited;
        used = o.used;
        narrow = o.narrow;
        ranges = enter_loop-InRange (region ptr n) [] ctx.freeblocks h tt o.ranges;
        tidy = enter_loop-IsTidy (region ptr n) [] ctx.freeblocks refl (omega arith) tt c o.tidy;
      } in
      let e : spot.curr ≡ region ptr n = enter_loop-curr (region ptr n) [] ctx.freeblocks in
      let r =
        cut_any open' o' a flags spot size refl p (omega (arith, ap (λ (b : Block). b.sz) e)) in
      record {
        bytes = λ x. omega (arith, r.bytes x, enter_loop-held x (region ptr n) [] ctx.freeblocks);
        opened = r.opened;
        sized = r.sized;
        counted = r.counted;
        anchors = λ m l w.
            r.anchors m
              (λ x. omega (arith, l x, enter_loop-held x (region ptr n) [] ctx.freeblocks))
              (enter_loop-AllAnchored m (region ptr n) [] ctx.freeblocks refl tt w.1);
      }

  from_driver :
      (size : ℕ) (ptr : Option ℕ)
      → 0 < size
      → Fits ctx.freeblocks ptr (grown ctx size)
      → Keeps ctx.refcnt size
          (given a ptr (grown ctx size) ++ ctx.freeblocks)
          (taken a flags size (mem_alloc ctx a (grown ctx size) ptr))
  from_driver size none p h = record {
    bytes = λ x. omega arith;
    opened = λ fits. o;
    sized = tt;
    counted = omega (arith, o.narrow);
    anchors = λ m k w. (w, tt);
  }
  from_driver size (some ptr) p h = elim (Bool-cases a.new_res) [
    | inl e ↦ rw e (enter-Keeps ptr (grown ctx size) size h.0 h.1 p (grown-le ctx size))
    | inr e ↦ rw e record {
      bytes = λ x. omega arith;
      opened = λ fits. record {
        limited = o.limited;
        used = o.used;
        narrow = o.narrow;
        ranges = o.ranges;
        tidy = o.tidy;
      };
      sized = tt;
      counted = omega (arith, o.narrow);
      anchors = λ m k w. (w, tt);
    }
  ]

  allocate-Keeps :
      (size : ℕ)
      → 0 < size
      → Fits ctx.freeblocks a.mem_alloc (grown ctx size)
      → Keeps ctx.refcnt size
          ((if is_over ctx (grown ctx size) then [] else given a a.mem_alloc (grown ctx size))
            ++ ctx.freeblocks)
          (taken a flags size (allocate ctx a size))
  unfolding allocate
  allocate-Keeps size p h = elim (Bool-cases (is_over ctx (grown ctx size))) [
    | inl e ↦ rw e record {
      bytes = λ x. omega arith;
      opened = λ fits. o;
      sized = tt;
      counted = omega (arith, o.narrow);
      anchors = λ m k w. (w, tt);
    }
    | inr e ↦ rw e (from_driver size a.mem_alloc p h)
  ]

pub best-IsBest :
    (ctx : Context) (size : ℕ)
    → IsOpen ctx
    → IsBest (asize ctx size) ctx.freeblocks ctx.freeblocks (best ctx size)
best-IsBest ctx size o = elim (Bool-cases (ctx.max_cache_size == 0)) [
  | inl e ↦ absurd (o.limited (ground arith))
  | inr e ↦ rw e (find_best-IsBest (roundup (wanted size) frag_size) ctx.freeblocks)
]

searched :
    (ctx : Context) (o : IsOpen ctx) (a : Answers) (flags : AllocFlags) (n : ℕ) (b : Option Spot)
    → IsBest n ctx.freeblocks ctx.freeblocks b
    → 0 < n
    → Fits ctx.freeblocks a.mem_alloc (grown ctx n)
    → Keeps ctx.refcnt n
        ((if is_over ctx (grown ctx n) then [] else missing b (given a a.mem_alloc (grown ctx n)))
          ++ ctx.freeblocks)
        (found ctx a flags n b)
searched ctx o a flags n none i p h = allocate-Keeps ctx o a flags n p h
searched ctx o a flags n (some s) i p h = elim (Bool-cases (is_over ctx (grown ctx n))) [
  | inl e ↦ rw e (cut_any ctx o a flags s n i.0 p i.1)
  | inr e ↦ rw e (cut_any ctx o a flags s n i.0 p i.1)
]

-- What is asked of the free list is positive and not smaller than the size.
pub asize-pos : (ctx : Context) (size : ℕ) → size ≤ 2 ^ 64 - frag_size → 0 < asize ctx size
asize-pos ctx size k = ground (arith, roundup_lem (wanted size))

pub asize-le : (ctx : Context) (size : ℕ) → size ≤ 2 ^ 64 - frag_size → size ≤ asize ctx size
asize-le ctx size k = ground (arith, roundup_lem (wanted size))

pub cuda_alloc-Keeps :
    (ctx : Context) (a : Answers) (flags : AllocFlags) (size : ℕ)
    → IsOpen ctx
    → size ≤ 2 ^ 64 - frag_size
    → Fits ctx.freeblocks a.mem_alloc (grown ctx (asize ctx size))
    → Keeps ctx.refcnt
        (asize ctx size)
        (gained ctx a flags size ++ ctx.freeblocks)
        (cuda_alloc ctx a flags size)
unfolding cuda_alloc gained
cuda_alloc-Keeps ctx a flags size o k h = elim (Bool-cases (refused flags)) [
  | inl e ↦ rw e record {
    bytes = λ x. omega arith;
    opened = λ fits. o;
    sized = tt;
    counted = omega (arith, o.narrow);
    anchors = λ m k w. (w, tt);
  }
  | inr e ↦ rw e (
      searched ctx o a flags (asize ctx size) (best ctx size) (best-IsBest ctx size o)
        (asize-pos ctx size k) h)
]
