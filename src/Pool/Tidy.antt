-- ===== src/Pool/Tidy.antt =====
-- The order of the free list of src/gpuarray_buffer_cuda.c: blocks by address, none that its
-- predecessor could have taken in.
use libgpuarray.Base.{
  ℕ, ◌+◌, ◌≤◌, ◌<◌, Bool, true, ◌||◌, List, [], ◌∷◌, ltb, leb, if◌then◌else◌, ◌≡◌, arith,
  Bool-cases, inl, inr,
}
use libgpuarray.Pool.{add_size, Block, join_next, join_prev, seek, put_back, touches}
use libgpuarray.Pool.Bytes.{InRange, AllInRange}

-- The bytes that must lie free before a block: none before a HEAD_ALLOC block.
abbrev pub gap : Block → ℕ
gap b = if b.head then 0 else 1

abbrev pub Follows : Block → List Block → Type 0
Follows b [] = Unit
Follows b (c ∷ cs) = b.ptr + b.sz + gap c ≤ c.ptr

abbrev pub IsTidy : List Block → Type 0
IsTidy [] = Unit
IsTidy (b ∷ bs) = (0 < b.sz) × Follows b bs × IsTidy bs

-- Two blocks have no byte in common, nor has a block with those of a list.
abbrev pub apart : Block → Block → Bool
apart a b = leb (a.ptr + a.sz) b.ptr || leb (b.ptr + b.sz) a.ptr

abbrev pub AllApart : Block → List Block → Type 0
AllApart a [] = Unit
AllApart a (b ∷ bs) = (apart a b ≡ true) × AllApart a bs

-- The block ends before the list starts.
abbrev pub Room : Block → List Block → Type 0
Room d [] = Unit
Room d (c ∷ cs) = d.ptr + d.sz ≤ c.ptr

join_next-IsTidy :
    (d : Block) (rest : List Block)
    → 0 < d.sz
    → InRange d
    → AllInRange rest
    → Room d rest
    → IsTidy rest
    → IsTidy (join_next d rest)
unfolding join_next
join_next-IsTidy d [] p h g a t = (p, tt, tt)
join_next-IsTidy d (c ∷ []) p h g a t = ground arith
join_next-IsTidy d (c ∷ c' ∷ cs) p h g a t = ground arith

-- What followed a block follows it still, since the first block of a list keeps its start.
Follows-join_next :
    (q d : Block) (rest : List Block) → q.ptr + q.sz + gap d ≤ d.ptr → Follows q (join_next d rest)
unfolding join_next
Follows-join_next q d [] h = h
Follows-join_next q d (c ∷ cs) h = ground arith

Follows-join_prev :
    (q prev d : Block) (rest : List Block)
    → q.ptr + q.sz + gap prev ≤ prev.ptr
    → Follows q (join_prev prev d rest)
unfolding join_prev
Follows-join_prev q prev d rest h =
    ground (arith, Follows-join_next q (record prev { sz = add_size prev.sz d.sz }) rest)

Follows-seek :
    (q prev d : Block) (rest : List Block)
    → q.ptr + q.sz + gap prev ≤ prev.ptr
    → Follows q (seek prev d rest)
unfolding seek
Follows-seek q prev d [] h = Follows-join_prev q prev d [] h
Follows-seek q prev d (c ∷ cs) h = ground (arith, Follows-join_prev q prev d (c ∷ cs))

module _ (prev d : Block) (rest : List Block) (pp : 0 < prev.sz) (hp : InRange prev) (p : 0 < d.sz)
    (h : InRange d) where
  Room-merged :
      (cs : List Block)
      → touches prev d ≡ true
      → Room d cs
      → Room (record prev { sz = add_size prev.sz d.sz }) cs
  Room-merged [] e r = tt
  Room-merged (c ∷ cs) e r = ground arith

  join_prev-IsTidy :
      prev.ptr + prev.sz ≤ d.ptr
      → Room d rest
      → AllInRange rest
      → IsTidy rest
      → IsTidy (join_prev prev d rest)
  unfolding join_prev
  join_prev-IsTidy k r g t = elim (Bool-cases (touches prev d)) [
    | inl e ↦ rw e (
        join_next-IsTidy (record prev { sz = add_size prev.sz d.sz }) rest (ground arith)
          (ground arith) g (Room-merged rest e r) t)
    | inr e ↦
        rw e (pp, Follows-join_next prev d rest (ground arith), join_next-IsTidy d rest p h g r t)
  ]

seek-IsTidy :
    (prev d : Block) (rest : List Block)
    → prev.ptr < d.ptr
    → 0 < d.sz
    → InRange d
    → AllInRange (prev ∷ rest)
    → AllApart d (prev ∷ rest)
    → IsTidy (prev ∷ rest)
    → IsTidy (seek prev d rest)
unfolding seek
seek-IsTidy prev d [] k p h g a t = join_prev-IsTidy prev d [] t.0 g.0 p h (ground arith) tt tt tt
seek-IsTidy prev d (c ∷ cs) k p h g a t = elim (Bool-cases (ltb c.ptr d.ptr)) [
  | inl e ↦
      rw e (t.0, Follows-seek prev c d cs t.1, seek-IsTidy c d cs (ground arith) p h g.1 a.1 t.2)
  | inr e ↦
      rw e (join_prev-IsTidy prev d (c ∷ cs) t.0 g.0 p h (ground arith) (ground arith) g.1 t.2)
]

pub put_back-IsTidy :
    (d : Block) (fs : List Block)
    → 0 < d.sz
    → InRange d
    → AllInRange fs
    → AllApart d fs
    → IsTidy fs
    → IsTidy (put_back d fs)
unfolding put_back
put_back-IsTidy d [] p h g a t = join_next-IsTidy d [] p h g tt tt
put_back-IsTidy d (c ∷ cs) p h g a t = elim (Bool-cases (ltb c.ptr d.ptr)) [
  | inl e ↦ rw e (seek-IsTidy c d cs (ground arith) p h g a t)
  | inr e ↦ rw e (join_next-IsTidy d (c ∷ cs) p h g (ground arith) t)
]
