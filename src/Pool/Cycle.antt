-- ===== src/Pool/Cycle.antt =====
-- Allocation followed by free in src/gpuarray_buffer_cuda.c.
use libgpuarray.Base.{
  ℕ, ◌≤◌, Option, none, some, List, ◌==◌, ◌≡◌, refl, arith, Bool-cases, Option-cases, inl, inr, sym,
  ◌∙◌,
}
use libgpuarray.Pool.{
  Block, Spot, list_of, Context, Answers, AllocFlags, Buffer, asize, refused, best, found, cut,
  handed, find_best, extract, put_back, cuda_free, cuda_free_ctx, give_back, cuda_alloc,
}
use libgpuarray.Pool.Fit.{IsBest}
use libgpuarray.Pool.Counts.{IsOpen}
use libgpuarray.Pool.Alloc.{best-IsBest}
use libgpuarray.Pool.Return.{put_back-extract}

-- The block and the list that a successful allocation from the free list comes from.
module _ (ctx : Context) (a : Answers) (flags : AllocFlags) (d : Buffer) where
  handed-free :
      (b : Block) (rest fs : List Block)
      → IsOpen ctx
      → ctx.freeblocks ≡ fs
      → put_back b rest ≡ fs
      → (handed ctx a flags (b, rest)).1 ≡ some d
      → (cuda_free d (handed ctx a flags (b, rest)).0).1 ≡ ctx
  unfolding cuda_free cuda_free_ctx give_back
  handed-free b rest fs o e p k = ground (arith, o.limited, o.used, o.narrow)

  cut-free :
      (s : Spot) (size : ℕ)
      → IsOpen ctx
      → list_of s ≡ ctx.freeblocks
      → size ≤ s.curr.sz
      → (cut ctx a flags (extract s a.new_split size)).1 ≡ some d
      → (cuda_free d (cut ctx a flags (extract s a.new_split size)).0).1 ≡ ctx
  cut-free s size o e h k = elim (Option-cases (extract s a.new_split size)) [
    | inl f ↦ absurd (cc)
    | inr ((b, rest), f) ↦ rw f (
        handed-free b rest (list_of s) o (sym e)
          (put_back-extract s a.new_split size b rest (rw e (o.tidy)) (rw e (o.ranges)) h f)
          (rw f at k))
  ]

  found-free :
      (n : ℕ) (b : Option Spot) (s : Spot)
      → IsOpen ctx
      → IsBest n ctx.freeblocks ctx.freeblocks b
      → b ≡ some s
      → (found ctx a flags n b).1 ≡ some d
      → (cuda_free d (found ctx a flags n b).0).1 ≡ ctx
  found-free n none s o i e k = absurd (cc)
  found-free n (some s') s o i e k = cut-free s' n o i.0 i.1 k

best-eq :
    (ctx : Context) (size : ℕ)
    → IsOpen ctx
    → best ctx size ≡ find_best (asize ctx size) ctx.freeblocks
best-eq ctx size o = elim (Bool-cases (ctx.max_cache_size == 0)) [
  | inl e ↦ absurd (o.limited (ground arith))
  | inr e ↦ rw e refl
]

-- In a context in order, freeing a buffer right after it was cut from the free list restores the
-- context.
pub cuda_free-cuda_alloc :
    (ctx : Context) (a : Answers) (flags : AllocFlags) (size : ℕ) (s : Spot) (d : Buffer)
    → IsOpen ctx
    → find_best (asize ctx size) ctx.freeblocks ≡ some s
    → (cuda_alloc ctx a flags size).1 ≡ some d
    → (cuda_free d (cuda_alloc ctx a flags size).0).1 ≡ ctx
unfolding cuda_alloc
cuda_free-cuda_alloc ctx a flags size s d o e k = elim (Bool-cases (refused flags)) [
  | inl r ↦ let z : ◌≡◌ {A = Option Buffer} none (some d) = rw r at k in cc
  | inr r ↦ rw r (
      found-free ctx a flags d (asize ctx size) (best ctx size) s o (best-IsBest ctx size o)
        (best-eq ctx size o ∙ e) (rw r at k))
]
