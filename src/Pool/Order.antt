-- ===== src/Pool/Order.antt =====
-- A block that leaves the free list of src/gpuarray_buffer_cuda.c, and one that the driver gives, keep
-- the order of the list.
use libgpuarray.Base.{
  ℕ, ◌+◌, ◌≤◌, ◌<◌, Bool, true, false, ◌||◌, some, List, [], ◌∷◌, ◌++◌, ltb, leb, ◌≡◌, arith,
  Bool-cases, inl, inr, ◌⊎◌,
}
use libgpuarray.Pool.{add_size, sub_size, Block, Spot, list_of, frag_size, enter_loop, extract}
use libgpuarray.Pool.Bytes.{InRange}
use libgpuarray.Pool.Tidy.{gap, Follows, IsTidy}
use libgpuarray.Pool.Fit.{append_one}

-- The blocks of a list end at an address or before it.
abbrev pub EndBy : ℕ → List Block → Type 0
EndBy n [] = Unit
EndBy n (b ∷ bs) = (b.ptr + b.sz ≤ n) × EndBy n bs

EndBy-le : (n m : ℕ) (bs : List Block) → n ≤ m → EndBy n bs → EndBy m bs
EndBy-le n m [] h e = tt
EndBy-le n m (b ∷ bs) h e = (omega arith, EndBy-le n m bs h e.1)

pub EndBy-append :
    (n : ℕ) (bs : List Block) (b : Block) → EndBy n bs → b.ptr + b.sz ≤ n → EndBy n (bs ++ b ∷ [])
EndBy-append n [] b h g = (g, tt)
EndBy-append n (c ∷ bs) b h g = (h.0, EndBy-append n bs b h.1 g)

pub IsTidy-EndBy :
    (before : List Block) (curr : Block) (after : List Block)
    → IsTidy (before ++ curr ∷ after)
    → EndBy curr.ptr before
IsTidy-EndBy [] curr after t = tt
IsTidy-EndBy (b ∷ []) curr after t = (ground arith, tt)
IsTidy-EndBy (b ∷ c ∷ bs) curr after t =
    let r = IsTidy-EndBy (c ∷ bs) curr after t.2 in (ground arith, r)

pub IsTidy-after : (before ys : List Block) → IsTidy (before ++ ys) → IsTidy ys
IsTidy-after [] ys t = t
IsTidy-after (b ∷ bs) ys t = IsTidy-after bs ys t.2

-- The end of a list is replaced by one that still follows each block before it.
pub IsTidy-replace :
    (n : ℕ) (before ys xs : List Block)
    → EndBy n before
    → ((q : Block) → q.ptr + q.sz ≤ n → Follows q ys → Follows q xs)
    → IsTidy xs
    → IsTidy (before ++ ys)
    → IsTidy (before ++ xs)
IsTidy-replace n [] ys xs e f x t = x
IsTidy-replace n (b ∷ []) ys xs e f x t = (t.0, f b e.0 t.1, x)
IsTidy-replace n (b ∷ c ∷ bs) ys xs e f x t =
    (t.0, t.1, IsTidy-replace n (c ∷ bs) ys xs e.1 f x t.2)

Follows-rest :
    (curr : Block) (after : List Block) (q : Block)
    → 0 < curr.sz
    → Follows curr after
    → q.ptr + q.sz ≤ curr.ptr
    → Follows q after
Follows-rest curr [] q p f e = tt
Follows-rest curr (c ∷ cs) q p f e = omega arith

abbrev pub split_of : Block → ℕ → Block
split_of curr size = record {
  ptr = add_size curr.ptr size;
  sz = sub_size curr.sz size;
  head = false;
}

Follows-split :
    (curr : Block) (size : ℕ) (after : List Block)
    → InRange curr
    → size ≤ curr.sz
    → Follows curr after
    → Follows (split_of curr size) after
Follows-split curr size [] h k f = tt
Follows-split curr size (c ∷ cs) h k f = ground arith

module _ (s : Spot) (t : IsTidy (list_of s)) (size : ℕ) (h : InRange s.curr) where
  without-IsTidy : IsTidy (s.before ++ s.after)
  without-IsTidy =
      let r = IsTidy-after s.before (s.curr ∷ s.after) t in
      IsTidy-replace s.curr.ptr s.before (s.curr ∷ s.after) s.after
        (IsTidy-EndBy s.before s.curr s.after t) (λ q e f. Follows-rest s.curr s.after q r.0 r.1 e)
        r.2 t

  split-IsTidy :
      0 < size → size + frag_size ≤ s.curr.sz → IsTidy (s.before ++ split_of s.curr size ∷ s.after)
  split-IsTidy p k =
      let r = IsTidy-after s.before (s.curr ∷ s.after) t in
      IsTidy-replace s.curr.ptr s.before (s.curr ∷ s.after) (split_of s.curr size ∷ s.after)
        (IsTidy-EndBy s.before s.curr s.after t) (λ q e f. omega arith)
        (omega arith, Follows-split s.curr size s.after h (omega arith) r.1, r.2) t

-- The two ways in which a block leaves the list: whole, or split.
abbrev pub Whole : Spot → Block → List Block → Type 0
Whole s b rest = (b ≡ s.curr) × (rest ≡ s.before ++ s.after)

abbrev pub Split : Spot → ℕ → Block → List Block → Type 0
Split s size b rest =
    (b ≡ record (s.curr) { sz = size })
    × (rest ≡ s.before ++ split_of s.curr size ∷ s.after)
    × (size + frag_size ≤ s.curr.sz)

pub extract-cases :
    (s : Spot) (new_split : Bool) (size : ℕ) (b : Block) (rest : List Block)
    → InRange s.curr
    → size ≤ s.curr.sz
    → extract s new_split size ≡ some (b, rest)
    → Whole s b rest ⊎ Split s size b rest
unfolding extract
extract-cases s new_split size b rest h k e =
    elim (Bool-cases (ltb (sub_size s.curr.sz size) frag_size)) [
      | inl f ↦ inl (ground arith)
      | inr f ↦ inr (ground arith)
    ]

-- The list without the block, or with the rest of it, is tidy.
pub extract-IsTidy :
    (s : Spot) (new_split : Bool) (size : ℕ) (b : Block) (rest : List Block)
    → IsTidy (list_of s)
    → InRange s.curr
    → 0 < size
    → size ≤ s.curr.sz
    → extract s new_split size ≡ some (b, rest)
    → IsTidy rest
extract-IsTidy s new_split size b rest t h p k e =
    elim (extract-cases s new_split size b rest h k e) [
      | inl w ↦ rw (w.1) (without-IsTidy s t size h)
      | inr w ↦ rw (w.1) (split-IsTidy s t size h p w.2)
    ]

-- Memory that the driver gives has no byte in common with the blocks of a list. Nor does it end
-- where a block starts that is not the first of its own allocation, since the byte before such a
-- block is in that allocation.
abbrev pub AllClear : Block → List Block → Type 0
AllClear a [] = Unit
AllClear a (b ∷ bs) =
    ((leb (b.ptr + b.sz) a.ptr || leb (a.ptr + a.sz + gap b) b.ptr) ≡ true) × AllClear a bs

-- A block that the driver gives enters the list in order.
pub enter_loop-IsTidy :
    (res : Block) (passed fs : List Block)
    → res.head ≡ true
    → 0 < res.sz
    → EndBy res.ptr passed
    → AllClear res fs
    → IsTidy (passed ++ fs)
    → IsTidy (list_of (enter_loop res passed fs))
unfolding enter_loop
enter_loop-IsTidy res passed [] hd p e a t =
    IsTidy-replace res.ptr passed [] (res ∷ []) e (λ q k f. ground arith) (p, tt, tt) t
enter_loop-IsTidy res passed (c ∷ cs) hd p e a t =
    let r = IsTidy-after passed (c ∷ cs) t in
    elim (Bool-cases (ltb c.ptr res.ptr)) [
      | inl l ↦ rw l (
          let c_ends : c.ptr + c.sz ≤ res.ptr = ground arith in
          enter_loop-IsTidy res (passed ++ c ∷ []) cs hd p (EndBy-append res.ptr passed c e c_ends)
            a.1 (rw (append_one passed cs c) t))
      | inr l ↦ rw l (
          IsTidy-replace res.ptr passed (c ∷ cs) (res ∷ c ∷ cs) e (λ q k f. ground arith)
            (p, ground arith, r) t)
    ]
