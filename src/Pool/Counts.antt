-- ===== src/Pool/Counts.antt =====
-- The buffers that cuda_alloc of gpuarray_buffer_cuda.c gives out, and their references.
use libgpuarray.Base.{
  false, ℕ, ◌+◌, ◌^◌, ◌%◌, ◌-◌, ◌≤◌, ◌<◌, true, ◌&&◌, ◌||◌, Option, none, some, List, [], ◌∷◌, ◌==◌,
  if◌then◌else◌, ◌≡◌, ◌≢◌, refl, arith, Bool-cases, Option-cases, inl, inr, ◌∙◌, ap,
}
use libgpuarray.Error.{failed}
use libgpuarray.Pool.{
  frag_size, Block, Spot, list_of, Context, Answers, AllocFlags, Buffer, grown, is_over, handed,
  cut, best, asize, refused, extract, cuda_free, cuda_free_ctx, increment, decrement, give_back,
  put_back,
}
use libgpuarray.Pool.Bytes.{covers, held, InRange, AllInRange, put_back-held, put_back-InRange}
use libgpuarray.Pool.Tidy.{IsTidy}
use libgpuarray.Pool.Order.{AllClear, extract-IsTidy}
use libgpuarray.Pool.Return.{put_back-extract}
use libgpuarray.Pool.Anchors.{anchored, AllAnchored, put_back-AllAnchored, extract-AllAnchored}
use libgpuarray.Pool.Fit.{extract-held, extract-InRange, extract-IsCut, curr-InRange}

-- The cache is limited, the context is in use, by a number of references that an `unsigned int` holds,
-- and its blocks are in order and end below the end of addresses.
pub record IsOpen (ctx : Context) : Type 0 where
  pub limited : ctx.max_cache_size ≢ 0
  pub used : 0 < ctx.refcnt
  pub narrow : ctx.refcnt < 2 ^ 32
  pub ranges : AllInRange ctx.freeblocks
  pub tidy : IsTidy ctx.freeblocks

-- The memory that the driver gives for a pointer.
abbrev pub region : ℕ → ℕ → Block
region ptr size = record { ptr = ptr; sz = size; head = true }

-- What the driver may give: memory below the end of addresses, clear of a list of blocks.
abbrev pub Fits : List Block → Option ℕ → ℕ → Type 0
Fits fs none size = Unit
Fits fs (some ptr) size = InRange (region ptr size) × AllClear (region ptr size) fs

abbrev pub given : Answers → Option ℕ → ℕ → List Block
given a none size = []
given a (some ptr) size = if a.new_res then region ptr size ∷ [] else []

abbrev pub missing : Option Spot → List Block → List Block
missing none bs = bs
missing (some s) bs = []

-- The memory that a call of `cuda_alloc` gets from the driver: none if it is refused, if a free block
-- fits, or if the cache would be over its size.
unfoldable pub gained : Context → Answers → AllocFlags → ℕ → List Block
gained ctx a flags size =
    let n = grown ctx (asize ctx size) in
    if refused flags || is_over ctx n then [] else missing (best ctx size) (given a a.mem_alloc n)

abbrev pub held_by : ℕ → Option Buffer → ℕ
held_by x none = 0
held_by x (some d) = covers x d.block

-- A buffer has the size asked for, or less than FRAG_SIZE more, and one reference.
abbrev pub HasSize : ℕ → Option Buffer → Type 0
HasSize n none = Unit
HasSize n (some d) =
    (n ≤ d.block.sz)
    × (d.block.sz < n + frag_size)
    × (d.count ≡ 1)
    × InRange d.block
    × (d.external ≡ false)
    × (d.ipc ≡ false)

abbrev pub AnchoredBy : (ℕ → ℕ) → Option Buffer → Type 0
AnchoredBy m none = Unit
AnchoredBy m (some d) = anchored m d.block ≡ true

abbrev pub counted_by : ℕ → Option Buffer → ℕ
counted_by refs none = refs
counted_by refs (some d) = refs + 1

-- What comes of an allocation of `n` bytes: the bytes of `bs` are free or in the buffer. The context is
-- open if its references did not wrap around.
pub record Keeps (refs n : ℕ) (bs : List Block) (r : Context × Option Buffer) : Type 0 where
  pub bytes : (x : ℕ) → held x r.0.freeblocks + held_by x r.1 ≡ held x bs
  pub opened : counted_by refs r.1 < 2 ^ 32 → IsOpen r.0
  pub sized : HasSize n r.1
  pub counted : r.0.refcnt ≡ counted_by refs r.1 % 2 ^ 32
  pub anchors :
      (m : ℕ → ℕ)
      → ((x : ℕ) → held x bs ≤ m x)
      → AllAnchored m bs
      → AllAnchored m r.0.freeblocks × AnchoredBy m r.1

-- The last reference to a buffer of a limited cache goes.
pub cuda_free_last :
    (d : Buffer) (ctx : Context)
    → d.count ≡ 1
    → d.external ≡ false
    → d.ipc ≡ false
    → ctx.max_cache_size ≢ 0
    → 0 < decrement ctx.refcnt
    → cuda_free d ctx ≡ (
      none,
      record ctx { freeblocks = put_back d.block ctx.freeblocks; refcnt = decrement ctx.refcnt },
    )
unfolding cuda_free cuda_free_ctx give_back
cuda_free_last d ctx c e i l u = rw c (ground (arith, l))

pub cuda_free_more :
    (d : Buffer) (ctx : Context)
    → 1 < d.count
    → d.count < 2 ^ 32
    → cuda_free d ctx ≡ (some (record d { count = d.count - 1 }), ctx)
unfolding cuda_free
cuda_free_more d ctx m b =
    let less : (d.count + 2 ^ 32 - 1) % 2 ^ 32 ≡ d.count - 1 = omega arith in
    let e : (d.count - 1 == 0) ≡ false = ground arith in rw (less, e) refl

undone : (n : ℕ) → n < 2 ^ 32 → decrement (increment n) ≡ n
undone n h = omega arith

-- A block that is out of the list of an open context is handed out, or goes back to the list.
module _ (ctx : Context) (o : IsOpen ctx) (a : Answers) (flags : AllocFlags) where
  handed-Keeps :
      (b : Block) (rest bs : List Block)
      → InRange b
      → AllInRange rest
      → ((x : ℕ) → covers x b + held x rest ≡ held x bs)
      → (n : ℕ) → n ≤ b.sz
      → b.sz < n + frag_size
      → IsTidy rest
      → IsTidy (put_back b rest)
      → ((m : ℕ → ℕ)
          → ((x : ℕ) → held x bs ≤ m x)
          → AllAnchored m bs
          → (anchored m b ≡ true) × AllAnchored m rest)
      → Keeps ctx.refcnt n bs (handed ctx a flags (b, rest))
  handed-Keeps b rest bs h g e n low up t q an =
      elim (Bool-cases (flags.init && failed a.written)) [
        | inl f ↦
            rw
              (
                f,
                cuda_free_last (record { block = b; count = 1; external = false; ipc = false })
                    (record ctx { freeblocks = rest; refcnt = increment ctx.refcnt }) refl refl refl
                    o.limited (omega (arith, o.used, o.narrow)),
                undone ctx.refcnt o.narrow,
              )
              record {
                bytes = λ x. omega (arith, e x, put_back-held x b rest h g);
                opened = λ fits. record {
                  limited = o.limited;
                  used = o.used;
                  narrow = o.narrow;
                  ranges = put_back-InRange b rest h g;
                  tidy = q;
                };
                sized = tt;
                counted = omega (arith, o.narrow);
                anchors = λ m k w. (put_back-AllAnchored m b rest (an m k w).0 (an m k w).1, tt);
              }
        | inr f ↦ rw f record {
          bytes = λ x. omega (arith, e x);
          opened = λ fits. record {
            limited = o.limited;
            used = omega (arith, fits);
            narrow = omega arith;
            ranges = g;
            tidy = t;
          };
          sized = (low, up, refl, h, refl, refl);
          counted = refl;
          anchors = λ m k w. ((an m k w).1, (an m k w).0);
        }
      ]

  pub cut-Keeps :
      (s : Spot) (size : ℕ)
      → list_of s ≡ ctx.freeblocks
      → 0 < size
      → size ≤ s.curr.sz
      → Keeps ctx.refcnt size ctx.freeblocks (cut ctx a flags (extract s a.new_split size))
  cut-Keeps s size e p k = elim (Option-cases (extract s a.new_split size)) [
    | inl f ↦ rw f record {
      bytes = λ x. omega arith;
      opened = λ fits. o;
      sized = tt;
      counted = omega (arith, o.narrow);
      anchors = λ m k w. (w, tt);
    }
    | inr ((b, rest), f) ↦ rw f (
        let ranges : AllInRange (list_of s) = rw e (o.ranges) in
        let tidy : IsTidy (list_of s) = rw e (o.tidy) in
        let (h, g) = extract-InRange s a.new_split size b rest ranges k f in
        let cut = extract-IsCut s a.new_split size b rest (curr-InRange s ranges) k f in
        handed-Keeps b rest ctx.freeblocks h g
          (λ x.
            extract-held x s a.new_split size b rest (curr-InRange s ranges) k f ∙ ap (held x) e)
          size cut.2 cut.3
          (extract-IsTidy s a.new_split size b rest tidy (curr-InRange s ranges) p k f)
          (rw (put_back-extract s a.new_split size b rest tidy ranges k f) tidy)
          (λ m l w.
            extract-AllAnchored m s a.new_split size b rest (curr-InRange s ranges) p k
              (λ x. omega (
                arith,
                l x,
                extract-held x s a.new_split size b rest (curr-InRange s ranges) k f,
                ap (held x) e,
              ))
              (rw e w) f))
  ]
