-- ===== src/Pool/Steps.antt =====
-- The histories of a context of the allocator in gpuarray_buffer_cuda.c, and its buffers.
use libgpuarray.Base.{
  ℕ, suc, ◌+◌, ◌-◌, ◌^◌, ◌≤◌, ◌<◌, false, Option, none, some, List, [], ◌∷◌, ◌++◌, length, ◌≡◌,
  refl, arith, ap,
}
use libgpuarray.Pool.{
  frag_size, Block, Context, Answers, AllocFlags, Buffer, grown, asize, cuda_free, cuda_retain,
  cuda_alloc,
}
use libgpuarray.Pool.Bytes.{covers, held, InRange}
use libgpuarray.Pool.Tidy.{IsTidy, AllApart}
use libgpuarray.Pool.Anchors.{AllAnchored, covers-apart}
use libgpuarray.Pool.Counts.{IsOpen, region}

-- A context and the buffers that its clients hold.
pub record System : Type 0 where
  pub ctx : Context
  pub live : List Buffer

abbrev pub blocks : List Buffer → List Block
blocks [] = []
blocks (d ∷ ds) = d.block ∷ blocks ds

-- How often the byte at an address is free or in a buffer.
abbrev pub total : System → ℕ → ℕ
total s x = held x s.ctx.freeblocks + held x (blocks s.live)

-- `r` is what becomes of a buffer, or what an allocation returns.
abbrev pub with_live : Option Buffer → List Buffer → List Buffer
with_live none ds = ds
with_live (some d) ds = d ∷ ds

-- What cuMemAlloc may answer: memory below the end of addresses of which no byte is in use.
abbrev pub DriverGives : System → Option ℕ → ℕ → Type 0
DriverGives s none n = Unit
DriverGives s (some ptr) n =
    InRange (region ptr n) × ((x : ℕ) → covers x (region ptr n) + total s x ≤ 1)

-- An allocation of a size that the rounding does not wrap, a reference taken to a buffer, and a
-- reference given up. The counts of references, to the context and to the buffer, do not wrap.
pub data Step (s : System) (t : System) : Type 0 where
  alloc :
      (a : Answers) (flags : AllocFlags) (size : ℕ)
      → size ≤ 2 ^ 64 - frag_size
      → length s.live + 2 < 2 ^ 32
      → DriverGives s a.mem_alloc (grown s.ctx (asize s.ctx size))
      → t ≡ record {
        ctx = (cuda_alloc s.ctx a flags size).0;
        live = with_live (cuda_alloc s.ctx a flags size).1 s.live;
      }
      → Step s t
  retain :
      (ds : List Buffer) (d : Buffer) (es : List Buffer)
      → s.live ≡ ds ++ d ∷ es
      → d.count + 1 < 2 ^ 32
      → t ≡ record s { live = ds ++ cuda_retain d ∷ es }
      → Step s t
  free :
      (ds : List Buffer) (d : Buffer) (es : List Buffer)
      → s.live ≡ ds ++ d ∷ es
      → t ≡ record { ctx = (cuda_free d s.ctx).1; live = ds ++ with_live (cuda_free d s.ctx).0 es }
      → Step s t

pub data Reach (s : System) : System → Type 0 where
  here : Reach s s
  next : {t u : System} → Reach s t → Step t u → Reach s u

-- A buffer in use.
abbrev pub IsOwned : Buffer → Type 0
IsOwned d =
    InRange d.block
    × (0 < d.block.sz)
    × (d.external ≡ false)
    × (d.ipc ≡ false)
    × (0 < d.count)
    × (d.count < 2 ^ 32)

abbrev pub AllOwned : List Buffer → Type 0
AllOwned [] = Unit
AllOwned (d ∷ ds) = IsOwned d × AllOwned ds

-- No byte is in two blocks, free or in use, and each buffer has a reference to the context.
pub record IsSound (s : System) : Type 0 where
  pub opened : IsOpen s.ctx
  pub counted : s.ctx.refcnt ≡ suc (length s.live)
  pub owned : AllOwned s.live
  pub once : (x : ℕ) → total s x ≤ 1
  pub anchors_free : AllAnchored (total s) s.ctx.freeblocks
  pub anchors_live : AllAnchored (total s) (blocks s.live)

pub blocks-append : (ds es : List Buffer) → blocks (ds ++ es) ≡ blocks ds ++ blocks es
blocks-append [] es = refl
blocks-append (d ∷ ds) es = ap (λ bs. d.block ∷ bs) (blocks-append ds es)

pub AllOwned-append : (ds es : List Buffer) → AllOwned ds → AllOwned es → AllOwned (ds ++ es)
AllOwned-append [] es h g = g
AllOwned-append (d ∷ ds) es h g = (h.0, AllOwned-append ds es h.1 g)

pub AllOwned-before : (ds es : List Buffer) → AllOwned (ds ++ es) → AllOwned ds
AllOwned-before [] es h = tt
AllOwned-before (d ∷ ds) es h = (h.0, AllOwned-before ds es h.1)

pub AllOwned-after : (ds es : List Buffer) → AllOwned (ds ++ es) → AllOwned es
AllOwned-after [] es h = h
AllOwned-after (d ∷ ds) es h = AllOwned-after ds es h.1

-- A block that holds no byte of a list in order is apart from its blocks.
pub covers-AllApart :
    (d : Block) (fs : List Block)
    → 0 < d.sz
    → IsTidy fs
    → ((x : ℕ) → covers x d + held x fs ≤ 1)
    → AllApart d fs
unfolding held
covers-AllApart d [] p t h = tt
covers-AllApart d (c ∷ cs) p t h = (
  covers-apart d c p t.0 (λ x. omega (arith, h x)),
  covers-AllApart d cs p t.2 (λ x. omega (arith, h x)),
)
