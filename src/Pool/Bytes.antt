-- ===== src/Pool/Bytes.antt =====
-- Which bytes the blocks of src/gpuarray_buffer_cuda.c hold, and that the steps of the allocator
-- neither lose nor double one.
use libgpuarray.Base.{
  ℕ, ◌+◌, ◌^◌, ◌<◌, ◌&&◌, List, [], ◌∷◌, ◌++◌, ltb, leb, if◌then◌else◌, ◌≡◌, refl, arith,
}
use libgpuarray.Pool.{add_size, Block, join_next, join_prev, seek, put_back}

-- How often the byte at an address is in a block, and in the blocks of a list.
unfoldable pub covers : ℕ → Block → ℕ
covers x b = if leb b.ptr x && ltb x (b.ptr + b.sz) then 1 else 0

unfoldable pub held : ℕ → List Block → ℕ
held x [] = 0
held x (b ∷ bs) = covers x b + held x bs

-- The block ends below the end of addresses.
abbrev pub InRange : Block → Type 0
InRange b = b.ptr + b.sz < 2 ^ 64

abbrev pub AllInRange : List Block → Type 0
AllInRange [] = Unit
AllInRange (b ∷ bs) = InRange b × AllInRange bs

pub held-append : (x : ℕ) (cs bs : List Block) → held x (cs ++ bs) ≡ held x cs + held x bs
unfolding held
held-append x [] bs = omega arith
held-append x (a ∷ cs) bs = omega (arith, held-append x cs bs)

pub AllInRange-append : (cs bs : List Block) → AllInRange cs → AllInRange bs → AllInRange (cs ++ bs)
AllInRange-append [] bs h g = g
AllInRange-append (a ∷ cs) bs h g = (h.0, AllInRange-append cs bs h.1 g)

pub AllInRange-before : (cs bs : List Block) → AllInRange (cs ++ bs) → AllInRange cs
AllInRange-before [] bs h = tt
AllInRange-before (a ∷ cs) bs h = (h.0, AllInRange-before cs bs h.1)

pub AllInRange-after : (cs bs : List Block) → AllInRange (cs ++ bs) → AllInRange bs
AllInRange-after [] bs h = h
AllInRange-after (a ∷ cs) bs h = AllInRange-after cs bs h.1

-- Taking a block in keeps the bytes.
pub merged-covers :
    (x : ℕ) (a b : Block)
    → InRange b
    → add_size a.ptr a.sz ≡ b.ptr
    → InRange a
    → covers x (record a { sz = add_size a.sz b.sz }) ≡ covers x a + covers x b
unfolding covers
merged-covers x a b hb e ha = ground arith

module _ (x : ℕ) where
  pub join_next-held :
      (d : Block) (rest : List Block)
      → InRange d
      → AllInRange rest
      → held x (join_next d rest) ≡ covers x d + held x rest
  unfolding join_next held
  join_next-held d [] h g = refl
  join_next-held d (next ∷ rest) h g = ground (arith, merged-covers x d next)

pub join_next-InRange :
    (d : Block) (rest : List Block) → InRange d → AllInRange rest → AllInRange (join_next d rest)
unfolding join_next
join_next-InRange d [] h g = (h, tt)
join_next-InRange d (next ∷ rest) h g = ground arith

module _ (x : ℕ) where
  pub join_prev-held :
      (prev d : Block) (rest : List Block)
      → InRange prev
      → InRange d
      → AllInRange rest
      → held x (join_prev prev d rest) ≡ covers x d + (covers x prev + held x rest)
  unfolding join_prev held
  join_prev-held prev d rest hp h g = ground (
    arith,
    merged-covers x prev d,
    join_next-held x d rest,
    join_next-held x (record prev { sz = add_size prev.sz d.sz }) rest,
  )

pub join_prev-InRange :
    (prev d : Block) (rest : List Block)
    → InRange prev
    → InRange d
    → AllInRange rest
    → AllInRange (join_prev prev d rest)
unfolding join_prev
join_prev-InRange prev d rest hp h g = ground (
  arith,
  join_next-InRange d rest,
  join_next-InRange (record prev { sz = add_size prev.sz d.sz }) rest,
)

module _ (x : ℕ) where
  seek-held :
      (prev d : Block) (rest : List Block)
      → InRange prev
      → InRange d
      → AllInRange rest
      → held x (seek prev d rest) ≡ covers x d + (covers x prev + held x rest)
  unfolding seek held
  seek-held prev d [] hp h g = join_prev-held x prev d [] hp h g
  seek-held prev d (next ∷ rest) hp h g =
      ground (arith, seek-held next d rest, join_prev-held x prev d (next ∷ rest))

  pub put_back-held :
      (d : Block) (fs : List Block)
      → InRange d
      → AllInRange fs
      → held x (put_back d fs) ≡ covers x d + held x fs
  unfolding put_back held
  put_back-held d [] h g = join_next-held x d [] h g
  put_back-held d (next ∷ rest) h g =
      ground (arith, seek-held next d rest, join_next-held x d (next ∷ rest))

seek-InRange :
    (prev d : Block) (rest : List Block)
    → InRange prev
    → InRange d
    → AllInRange rest
    → AllInRange (seek prev d rest)
unfolding seek
seek-InRange prev d [] hp h g = join_prev-InRange prev d [] hp h g
seek-InRange prev d (next ∷ rest) hp h g =
    ground (arith, seek-InRange next d rest, join_prev-InRange prev d (next ∷ rest))

pub put_back-InRange :
    (d : Block) (fs : List Block) → InRange d → AllInRange fs → AllInRange (put_back d fs)
unfolding put_back
put_back-InRange d [] h g = join_next-InRange d [] h g
put_back-InRange d (next ∷ rest) h g =
    ground (arith, seek-InRange next d rest, join_next-InRange d (next ∷ rest))
