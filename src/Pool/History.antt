-- ===== src/Pool/History.antt =====
-- Histories of a context of src/gpuarray_buffer_cuda.c: allocations, references taken and given up,
-- in any order.
use libgpuarray.Base.{
  ℕ, ◌+◌, ◌%◌, ◌-◌, ◌^◌, ◌≤◌, ◌<◌, ◌==◌, Option, none, some, List, ◌∷◌, ◌++◌, length, length-append,
  ==_iff, ◌≡◌, arith, Bool-cases, inl, inr, sym, ◌∙◌, ap,
}
use libgpuarray.Pool.{
  frag_size, Block, Context, Answers, AllocFlags, Buffer, grown, asize, put_back, cuda_free,
  cuda_retain, cuda_alloc,
}
use libgpuarray.Pool.Bytes.{covers, held, held-append, put_back-held, put_back-InRange}
use libgpuarray.Pool.Tidy.{put_back-IsTidy}
use libgpuarray.Pool.Anchors.{
  AllAnchored, AllAnchored-le, AllAnchored-append, AllAnchored-before, AllAnchored-after,
  AllAnchored-AllClear, put_back-AllAnchored,
}
use libgpuarray.Pool.Counts.{given, region, Fits, gained, Keeps, cuda_free_last, cuda_free_more}
use libgpuarray.Pool.Alloc.{asize-pos, grown-le, cuda_alloc-Keeps}
use libgpuarray.Pool.Steps.{
  System, blocks, total, with_live, DriverGives, Step, Reach, IsOwned, IsSound, blocks-append,
  AllOwned-append, AllOwned-before, AllOwned-after, covers-AllApart, alloc, retain, free, here,
  next,
}

module _ (s : System) (v : IsSound s) where
  driver-Fits : (ptr : Option ℕ) (n : ℕ) → 0 < n → DriverGives s ptr n → Fits s.ctx.freeblocks ptr n
  driver-Fits none n p g = tt
  driver-Fits (some ptr) n p g = (
    g.0,
    AllAnchored-AllClear (region ptr n) (total s) s.ctx.freeblocks p v.opened.tidy v.anchors_free
        (λ x. omega arith) g.1,
  )

  given-held :
      (a : Answers) (ptr : Option ℕ) (n x : ℕ)
      → DriverGives s ptr n
      → held x (given a ptr n) + total s x ≤ 1
  unfolding held
  given-held a none n x g = omega (arith, v.once x)
  given-held a (some ptr) n x g = ground (arith, g.1 x, v.once x)

  gained-held :
      (a : Answers) (flags : AllocFlags) (size x : ℕ)
      → DriverGives s a.mem_alloc (grown s.ctx (asize s.ctx size))
      → held x (gained s.ctx a flags size) + total s x ≤ 1
  unfolding gained held
  gained-held a flags size x g =
      ground (arith, given-held a a.mem_alloc (grown s.ctx (asize s.ctx size)) x g, v.once x)

given-AllAnchored :
    (m : ℕ → ℕ) (a : Answers) (ptr : Option ℕ) (n : ℕ) → AllAnchored m (given a ptr n)
given-AllAnchored m a none n = tt
given-AllAnchored m a (some ptr) n = ground arith

gained-AllAnchored :
    (m : ℕ → ℕ) (ctx : Context) (a : Answers) (flags : AllocFlags) (size : ℕ)
    → AllAnchored m (gained ctx a flags size)
unfolding gained
gained-AllAnchored m ctx a flags size =
    ground (arith, given-AllAnchored m a a.mem_alloc (grown ctx (asize ctx size)))

-- An allocation, by what it returns.
with_live-IsSound :
    (s : System) (v : IsSound s) (bs : List Block) (n : ℕ) (ctx : Context) (r : Option Buffer)
    → 0 < n
    → length s.live + 2 < 2 ^ 32
    → Keeps s.ctx.refcnt n (bs ++ s.ctx.freeblocks) (ctx, r)
    → ((x : ℕ) → held x bs + total s x ≤ 1)
    → ((m : ℕ → ℕ) → AllAnchored m bs)
    → IsSound (record { ctx = ctx; live = with_live r s.live })
unfolding held
with_live-IsSound s v bs n ctx none p w k h g =
    let m : ℕ → ℕ = total (record { ctx = ctx; live = s.live }) in
    let more : (x : ℕ) → total s x ≤ m x =
      λ x. omega (arith, k.bytes x, held-append x bs s.ctx.freeblocks) in
    record {
      opened = k.opened (omega (arith, v.counted));
      counted = omega (arith, k.counted, v.counted);
      owned = v.owned;
      once = λ x. omega (arith, k.bytes x, held-append x bs s.ctx.freeblocks, h x);
      anchors_free =
          (k.anchors m (λ x. omega (arith, k.bytes x))
            (AllAnchored-append m bs s.ctx.freeblocks (g m)
              (AllAnchored-le (total s) m s.ctx.freeblocks more v.anchors_free))).0;
      anchors_live = AllAnchored-le (total s) m (blocks s.live) more v.anchors_live;
    }
with_live-IsSound s v bs n ctx (some d) p w k h g =
    let m : ℕ → ℕ = total (record { ctx = ctx; live = d ∷ s.live }) in
    let more : (x : ℕ) → total s x ≤ m x =
      λ x. omega (arith, k.bytes x, held-append x bs s.ctx.freeblocks) in
    let an =
      k.anchors m (λ x. omega (arith, k.bytes x))
        (AllAnchored-append m bs s.ctx.freeblocks (g m)
          (AllAnchored-le (total s) m s.ctx.freeblocks more v.anchors_free)) in
    record {
      opened = k.opened (omega (arith, v.counted));
      counted = omega (arith, k.counted, v.counted);
      owned = (
        (
          k.sized.3,
          omega (arith, k.sized.0),
          k.sized.4,
          k.sized.5,
          omega (arith, k.sized.2),
          omega (arith, k.sized.2),
        ),
        v.owned,
      );
      once = λ x. omega (arith, k.bytes x, held-append x bs s.ctx.freeblocks, h x);
      anchors_free = an.0;
      anchors_live = (an.1, AllAnchored-le (total s) m (blocks s.live) more v.anchors_live);
    }

alloc-IsSound :
    (s : System) (v : IsSound s) (a : Answers) (flags : AllocFlags) (size : ℕ)
    → size ≤ 2 ^ 64 - frag_size
    → length s.live + 2 < 2 ^ 32
    → DriverGives s a.mem_alloc (grown s.ctx (asize s.ctx size))
    → IsSound (record {
      ctx = (cuda_alloc s.ctx a flags size).0;
      live = with_live (cuda_alloc s.ctx a flags size).1 s.live;
    })
alloc-IsSound s v a flags size h w g =
    let p = asize-pos s.ctx size h in
    let n = grown s.ctx (asize s.ctx size) in
    with_live-IsSound s v (gained s.ctx a flags size) (asize s.ctx size)
      (cuda_alloc s.ctx a flags size).0 (cuda_alloc s.ctx a flags size).1 p w
      (cuda_alloc-Keeps s.ctx a flags size v.opened h
        (driver-Fits s v a.mem_alloc n (omega (arith, grown-le s.ctx (asize s.ctx size))) g))
      (λ x. gained-held s v a flags size x g) (λ m. gained-AllAnchored m s.ctx a flags size)

-- One buffer among those that the clients hold.
module _ (ctx : Context) (ds : List Buffer) (d : Buffer) (es : List Buffer)
    (v : IsSound (record { ctx = ctx; live = ds ++ d ∷ es })) where
  the-IsOwned : IsOwned d
  the-IsOwned = (AllOwned-after ds (d ∷ es) v.owned).0

  live-held :
      (x : ℕ)
      → held x (blocks (ds ++ d ∷ es))
        ≡ held x (blocks ds) + (covers x d.block + held x (blocks es))
  unfolding held
  live-held x = rw (blocks-append ds (d ∷ es)) (held-append x (blocks ds) (blocks (d ∷ es)))

  recount-IsSound :
      (c : ℕ)
      → 0 < c
      → c < 2 ^ 32
      → IsSound (record { ctx = ctx; live = ds ++ record d { count = c } ∷ es })
  recount-IsSound c p w =
      let e : blocks (ds ++ record d { count = c } ∷ es) ≡ blocks (ds ++ d ∷ es) =
        blocks-append ds (record d { count = c } ∷ es) ∙ sym (blocks-append ds (d ∷ es)) in
      let o = the-IsOwned in
      let m : ℕ → ℕ = total (record { ctx = ctx; live = ds ++ d ∷ es }) in
      let m' : ℕ → ℕ = total (record { ctx = ctx; live = ds ++ record d { count = c } ∷ es }) in
      let same : (x : ℕ) → m x ≤ m' x = λ x. omega (arith, ap (held x) e) in
      record {
        opened = v.opened;
        counted = omega (
          arith,
          v.counted,
          length-append ds (d ∷ es),
          length-append ds (record d { count = c } ∷ es),
        );
        owned =
            AllOwned-append ds (record d { count = c } ∷ es) (AllOwned-before ds (d ∷ es) v.owned)
              ((o.0, o.1, o.2, o.3, p, w), (AllOwned-after ds (d ∷ es) v.owned).1);
        once = rw e (v.once);
        anchors_free = AllAnchored-le m m' ctx.freeblocks same v.anchors_free;
        anchors_live =
            AllAnchored-le m m' (blocks (ds ++ record d { count = c } ∷ es)) same
              (rw e (v.anchors_live));
      }

  -- The memory of a buffer goes back to the free list.
  last-IsSound : IsSound (record {
    ctx = record ctx { freeblocks = put_back d.block ctx.freeblocks; refcnt = ctx.refcnt - 1 };
    live = ds ++ es;
  })
  last-IsSound =
      let o = the-IsOwned in
      let m : ℕ → ℕ = total (record { ctx = ctx; live = ds ++ d ∷ es }) in
      let back : (x : ℕ)
          → held x (put_back d.block ctx.freeblocks) ≡ covers x d.block + held x ctx.freeblocks =
        λ x. put_back-held x d.block ctx.freeblocks o.0 v.opened.ranges in
      let rest : (x : ℕ) → held x (blocks (ds ++ es)) ≡ held x (blocks ds) + held x (blocks es) =
        λ x. rw (blocks-append ds es) (held-append x (blocks ds) (blocks es)) in
      let m' : ℕ → ℕ = λ x. held x (put_back d.block ctx.freeblocks) + held x (blocks (ds ++ es)) in
      let same : (x : ℕ) → m x ≤ m' x = λ x. omega (arith, back x, rest x, live-held x) in
      let live : AllAnchored m (blocks ds ++ blocks (d ∷ es)) =
        rw (← blocks-append ds (d ∷ es)) (v.anchors_live) in
      let dropped : AllAnchored m (blocks es) =
        (AllAnchored-after m (blocks ds) (blocks (d ∷ es)) live).1 in
      record {
        opened = record {
          limited = v.opened.limited;
          used = omega (arith, v.counted, length-append ds (d ∷ es));
          narrow = omega (arith, v.opened.narrow);
          ranges = put_back-InRange d.block ctx.freeblocks o.0 v.opened.ranges;
          tidy =
              put_back-IsTidy d.block ctx.freeblocks o.1 o.0 v.opened.ranges
                (covers-AllApart d.block ctx.freeblocks o.1 v.opened.tidy
                  (λ x. omega (arith, v.once x, live-held x)))
                v.opened.tidy;
        };
        counted = omega (arith, v.counted, length-append ds (d ∷ es), length-append ds es);
        owned =
            AllOwned-append ds es (AllOwned-before ds (d ∷ es) v.owned)
              (AllOwned-after ds (d ∷ es) v.owned).1;
        once = λ x. omega (arith, v.once x, back x, rest x, live-held x);
        anchors_free = AllAnchored-le m m' (put_back d.block ctx.freeblocks) same (
            put_back-AllAnchored m d.block ctx.freeblocks
              (AllAnchored-after m (blocks ds) (blocks (d ∷ es)) live).0 v.anchors_free);
        anchors_live = AllAnchored-le m m' (blocks (ds ++ es)) same (
            rw (blocks-append ds es) (
              AllAnchored-append m (blocks ds) (blocks es)
                (AllAnchored-before m (blocks ds) (blocks (d ∷ es)) live) dropped));
      }

  free-IsSound :
      IsSound (record { ctx = (cuda_free d ctx).1; live = ds ++ with_live (cuda_free d ctx).0 es })
  free-IsSound =
      let o = the-IsOwned in
      elim (Bool-cases (d.count == 1)) [
        | inl e ↦
            let more : 1 < ctx.refcnt = omega (arith, v.counted, length-append ds (d ∷ es)) in
            let less : (ctx.refcnt + 2 ^ 32 - 1) % 2 ^ 32 ≡ ctx.refcnt - 1 =
              omega (arith, v.opened.narrow) in
            rw
              (cuda_free_last d ctx ((==_iff _ _).0 e) o.2 o.3 v.opened.limited
                (omega (arith, less)))
              (rw less last-IsSound)
        | inr e ↦
            rw (cuda_free_more d ctx (ground (arith, e, o.4)) o.5)
              (recount-IsSound (d.count - 1) (ground (arith, o.4)) (omega (arith, o.5)))
      ]

Step-IsSound : {s t : System} → Step s t → IsSound s → IsSound t
unfolding cuda_retain
Step-IsSound {s} (alloc a flags size h w g e) v = rw e (alloc-IsSound s v a flags size h w g)
Step-IsSound {s} (retain ds d es l b e) v =
    let more : (d.count + 1) % 2 ^ 32 ≡ d.count + 1 = omega arith in
    rw (e, more) (recount-IsSound s.ctx ds d es (rw (← l) v) (d.count + 1) (omega arith) b)
Step-IsSound {s} (free ds d es l e) v = rw e (free-IsSound s.ctx ds d es (rw (← l) v))

-- A history of a context with a limited cache, from a sound state: allocations of up to 2 ^ 64 - 64
-- bytes, for which the driver gives memory that is not in use, references taken to buffers and references
-- given up, in any order and without a wrap of a reference count. Every state reached is sound: no byte is
-- in two blocks, free or in use, the free list stays in order, and the context has a reference for each
-- buffer.
pub Reach-IsSound : {s t : System} → Reach s t → IsSound s → IsSound t
Reach-IsSound here v = v
Reach-IsSound (next r st) v = Step-IsSound st (Reach-IsSound r v)
