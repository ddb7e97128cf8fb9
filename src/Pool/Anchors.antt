-- ===== src/Pool/Anchors.antt =====
-- The byte before a block of src/gpuarray_buffer_cuda.c that is not the first of its allocation lies
-- in another block.
use libgpuarray.Base.{
  ℕ, ◌+◌, ◌-◌, ◌≤◌, ◌<◌, Bool, true, ◌&&◌, ◌||◌, some, List, [], ◌∷◌, ◌++◌, ltb, leb, ◌≡◌, arith,
  Bool-cases, inl, inr, leb→le,
}
use libgpuarray.Pool.{
  Block, Spot, list_of, enter_loop, extract, join_next, join_prev, seek, put_back, touches, merged,
}
use libgpuarray.Pool.Bytes.{covers, held, InRange}
use libgpuarray.Pool.Tidy.{gap, IsTidy, apart}
use libgpuarray.Pool.Order.{split_of, extract-cases, AllClear}

-- `n` counts how often a byte is held.
abbrev pub anchored : (ℕ → ℕ) → Block → Bool
anchored n b = b.head || (ltb 0 b.ptr && ltb 0 (n (b.ptr - 1)))

abbrev pub AllAnchored : (ℕ → ℕ) → List Block → Type 0
AllAnchored n [] = Unit
AllAnchored n (b ∷ bs) = (anchored n b ≡ true) × AllAnchored n bs

pub anchored-le :
    (n m : ℕ → ℕ) (b : Block) → ((x : ℕ) → n x ≤ m x) → anchored n b ≡ true → anchored m b ≡ true
anchored-le n m b h e = ground (arith, h (b.ptr - 1))

pub AllAnchored-le :
    (n m : ℕ → ℕ) (bs : List Block) → ((x : ℕ) → n x ≤ m x) → AllAnchored n bs → AllAnchored m bs
AllAnchored-le n m [] h e = tt
AllAnchored-le n m (b ∷ bs) h e = (anchored-le n m b h e.0, AllAnchored-le n m bs h e.1)

module _ (n : ℕ → ℕ) where
  pub AllAnchored-append :
      (cs bs : List Block) → AllAnchored n cs → AllAnchored n bs → AllAnchored n (cs ++ bs)
  AllAnchored-append [] bs h g = g
  AllAnchored-append (c ∷ cs) bs h g = (h.0, AllAnchored-append cs bs h.1 g)

  pub AllAnchored-before : (cs bs : List Block) → AllAnchored n (cs ++ bs) → AllAnchored n cs
  AllAnchored-before [] bs h = tt
  AllAnchored-before (c ∷ cs) bs h = (h.0, AllAnchored-before cs bs h.1)

  pub AllAnchored-after : (cs bs : List Block) → AllAnchored n (cs ++ bs) → AllAnchored n bs
  AllAnchored-after [] bs h = h
  AllAnchored-after (c ∷ cs) bs h = AllAnchored-after cs bs h.1

  join_next-AllAnchored :
      (d : Block) (rest : List Block)
      → anchored n d ≡ true
      → AllAnchored n rest
      → AllAnchored n (join_next d rest)
  unfolding join_next
  join_next-AllAnchored d [] h g = (h, tt)
  join_next-AllAnchored d (c ∷ cs) h g = ground arith

  join_prev-AllAnchored :
      (prev d : Block) (rest : List Block)
      → anchored n d ≡ true
      → AllAnchored n (prev ∷ rest)
      → AllAnchored n (join_prev prev d rest)
  unfolding join_prev
  join_prev-AllAnchored prev d rest h g = elim (Bool-cases (touches prev d)) [
    | inl e ↦ rw e (join_next-AllAnchored (merged prev d) rest g.0 g.1)
    | inr e ↦ rw e (g.0, join_next-AllAnchored d rest h g.1)
  ]

  seek-AllAnchored :
      (prev d : Block) (rest : List Block)
      → anchored n d ≡ true
      → AllAnchored n (prev ∷ rest)
      → AllAnchored n (seek prev d rest)
  unfolding seek
  seek-AllAnchored prev d [] h g = join_prev-AllAnchored prev d [] h g
  seek-AllAnchored prev d (c ∷ cs) h g = elim (Bool-cases (ltb c.ptr d.ptr)) [
    | inl e ↦ rw e (g.0, seek-AllAnchored c d cs h g.1)
    | inr e ↦ rw e (join_prev-AllAnchored prev d (c ∷ cs) h g)
  ]

  pub put_back-AllAnchored :
      (d : Block) (fs : List Block)
      → anchored n d ≡ true
      → AllAnchored n fs
      → AllAnchored n (put_back d fs)
  unfolding put_back
  put_back-AllAnchored d [] h g = (h, tt)
  put_back-AllAnchored d (c ∷ cs) h g = elim (Bool-cases (ltb c.ptr d.ptr)) [
    | inl e ↦ rw e (seek-AllAnchored c d cs h g)
    | inr e ↦ rw e (join_next-AllAnchored d (c ∷ cs) h g)
  ]

  pub enter_loop-AllAnchored :
      (res : Block) (passed fs : List Block)
      → anchored n res ≡ true
      → AllAnchored n passed
      → AllAnchored n fs
      → AllAnchored n (list_of (enter_loop res passed fs))
  unfolding enter_loop
  enter_loop-AllAnchored res passed [] r h g = AllAnchored-append passed (res ∷ []) h (r, tt)
  enter_loop-AllAnchored res passed (c ∷ cs) r h g = elim (Bool-cases (ltb c.ptr res.ptr)) [
    | inl e ↦ rw e (
        enter_loop-AllAnchored res (passed ++ c ∷ []) cs r
          (AllAnchored-append passed (c ∷ []) h (g.0, tt)) g.1)
    | inr e ↦ rw e (AllAnchored-append passed (res ∷ c ∷ cs) h (r, g))
  ]

  -- The rest of a split block is anchored in the block that leaves.
  pub extract-AllAnchored :
      (s : Spot) (new_split : Bool) (size : ℕ) (b : Block) (rest : List Block)
      → InRange s.curr
      → 0 < size
      → size ≤ s.curr.sz
      → ((x : ℕ) → covers x b + held x rest ≤ n x)
      → AllAnchored n (list_of s)
      → extract s new_split size ≡ some (b, rest)
      → (anchored n b ≡ true) × AllAnchored n rest
  unfolding covers
  extract-AllAnchored s new_split size b rest h p k m g e =
      let before = AllAnchored-before s.before (s.curr ∷ s.after) g in
      let after = AllAnchored-after s.before (s.curr ∷ s.after) g in
      elim (extract-cases s new_split size b rest h k e) [
        | inl w ↦
            (rw (w.0) (after.0), rw (w.1) (AllAnchored-append s.before s.after before after.1))
        | inr w ↦ (
          rw (w.0) (after.0),
          rw (w.1) (
              AllAnchored-append s.before (split_of s.curr size ∷ s.after) before
                (ground (arith, m (s.curr.ptr + size - 1)), after.1)),
        )
      ]

covers_start : (a : Block) → 0 < a.sz → covers a.ptr a ≡ 1
unfolding covers
covers_start a p = ground arith

-- Blocks that hold no byte in common are apart.
pub covers-apart :
    (a b : Block) → 0 < a.sz → 0 < b.sz → ((x : ℕ) → covers x a + covers x b ≤ 1) → apart a b ≡ true
covers-apart a b p q k =
    let e : covers b.ptr a ≡ 0 = omega (arith, k b.ptr, covers_start b q) in
    let f : covers a.ptr b ≡ 0 = omega (arith, k a.ptr, covers_start a p) in not_covered a b e f
  where
    not_covered : (a b : Block) → covers b.ptr a ≡ 0 → covers a.ptr b ≡ 0 → apart a b ≡ true
    not_covered a b e f = unfold covers in ground arith

anchored-gap :
    (a : Block) (n : ℕ → ℕ) (b : Block)
    → 0 < a.sz
    → a.ptr + a.sz ≤ b.ptr
    → anchored n b ≡ true
    → covers (b.ptr - 1) a + n (b.ptr - 1) ≤ 1
    → a.ptr + a.sz + gap b ≤ b.ptr
unfolding covers
anchored-gap a n b p h g k = ground arith

anchored-clear :
    (a : Block) (n : ℕ → ℕ) (b : Block)
    → 0 < a.sz
    → anchored n b ≡ true
    → covers (b.ptr - 1) a + n (b.ptr - 1) ≤ 1
    → apart a b ≡ true
    → (leb (b.ptr + b.sz) a.ptr || leb (a.ptr + a.sz + gap b) b.ptr) ≡ true
anchored-clear a n b p g k h = elim (Bool-cases (leb (a.ptr + a.sz) b.ptr)) [
  | inl e ↦ let f = anchored-gap a n b p (leb→le _ _ e) g k in ground arith
  | inr e ↦ ground arith
]

-- Memory of the driver that has no byte in common with the blocks is clear of anchored ones.
pub AllAnchored-AllClear :
    (a : Block) (n : ℕ → ℕ) (bs : List Block)
    → 0 < a.sz
    → IsTidy bs
    → AllAnchored n bs
    → ((x : ℕ) → held x bs ≤ n x)
    → ((x : ℕ) → covers x a + n x ≤ 1)
    → AllClear a bs
unfolding held
AllAnchored-AllClear a n [] p t g h k = tt
AllAnchored-AllClear a n (b ∷ bs) p t g h k = (
  anchored-clear a n b p g.0 (k (b.ptr - 1))
      (covers-apart a b p t.0 (λ x. omega (arith, h x, k x))),
  AllAnchored-AllClear a n bs p t.2 g.1 (λ x. omega (arith, h x)) k,
)
