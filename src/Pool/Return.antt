-- ===== src/Pool/Return.antt =====
-- Putting a block back restores the free list of src/gpuarray_buffer_cuda.c.
use libgpuarray.Base.{
  ℕ, ◌+◌, ◌≤◌, Bool, false, some, List, [], ◌∷◌, ◌++◌, ltb, ◌≡◌, refl, arith, inl, inr, ap, ◌⊎◌,
  lt→ltb,
}
use libgpuarray.Pool.{Block, Spot, list_of, extract, join_next, join_prev, seek, put_back, touches}
use libgpuarray.Pool.Order.{IsTidy-EndBy, IsTidy-after, split_of, extract-cases}
use libgpuarray.Pool.Bytes.{InRange, AllInRange, AllInRange-before}
use libgpuarray.Pool.Tidy.{gap, Follows, IsTidy}
use libgpuarray.Pool.Fit.{curr-InRange}

List-cases : (xs : List Block) → (xs ≡ []) ⊎ ((c : Block) × (cs : List Block) × (xs ≡ c ∷ cs))
List-cases [] = inl refl
List-cases (c ∷ cs) = inr (c, cs, refl)

-- Where nothing stands in the way, a block goes in before the list it came from.
module _ (b d : Block) (ys xs : List Block) (start : b.ptr ≡ d.ptr) (hd : b.head ≡ d.head)
    (joined : join_next b xs ≡ d ∷ ys)
    (clear : (c : Block) (cs : List Block) → xs ≡ c ∷ cs → ltb c.ptr b.ptr ≡ false) where
  apart_first :
      (prev : Block)
      → InRange prev
      → prev.ptr + prev.sz + gap d ≤ d.ptr
      → join_prev prev b xs ≡ prev ∷ d ∷ ys
  unfolding join_prev
  apart_first prev h k =
      let e : touches prev b ≡ false = ground arith in rw e (ap (λ l. prev ∷ l) joined)

  seek-first :
      (prev : Block)
      → InRange prev
      → prev.ptr + prev.sz + gap d ≤ d.ptr
      → seek prev b xs ≡ prev ∷ d ∷ ys
  unfolding seek join_prev
  seek-first prev h k = elim (List-cases xs) [
    | inl e ↦ rw e (rw e at apart_first prev h k)
    | inr (c, cs, e) ↦ rw (e, clear c cs e) (rw e at apart_first prev h k)
  ]

  seek-return :
      (prev : Block) (before : List Block)
      → AllInRange (prev ∷ before)
      → IsTidy (prev ∷ before ++ d ∷ ys)
      → seek prev b (before ++ xs) ≡ prev ∷ before ++ d ∷ ys
  unfolding seek
  seek-return prev [] h t = seek-first prev h.0 t.1
  seek-return prev (c ∷ cs) h t =
      let e = IsTidy-EndBy (c ∷ cs) d ys t.2 in
      rw (lt→ltb c.ptr b.ptr (omega arith)) (ap (λ l. prev ∷ l) (seek-return c cs h.1 t.2))

  put_back-return :
      (before : List Block)
      → AllInRange before
      → IsTidy (before ++ d ∷ ys)
      → put_back b (before ++ xs) ≡ before ++ d ∷ ys
  unfolding put_back
  put_back-return [] h t = elim (List-cases xs) [
    | inl e ↦ rw e (rw e at joined)
    | inr (c, cs, e) ↦ rw (e, clear c cs e) (rw e at joined)
  ]
  put_back-return (c ∷ cs) h t =
      let e = IsTidy-EndBy (c ∷ cs) d ys t in
      rw (lt→ltb c.ptr b.ptr (omega arith)) (seek-return c cs h t)

join_next-whole :
    (curr : Block) (after : List Block)
    → InRange curr
    → Follows curr after
    → join_next curr after ≡ curr ∷ after
unfolding join_next
join_next-whole curr [] h f = refl
join_next-whole curr (c ∷ cs) h f = ground arith

join_next-split :
    (curr : Block) (size : ℕ) (after : List Block)
    → InRange curr
    → size ≤ curr.sz
    → join_next (record curr { sz = size }) (split_of curr size ∷ after) ≡ curr ∷ after
unfolding join_next
join_next-split curr size after h k = ground arith

whole-clear :
    (curr : Block) (after : List Block)
    → Follows curr after
    → (c : Block) (cs : List Block) → after ≡ c ∷ cs
    → ltb c.ptr curr.ptr ≡ false
whole-clear curr [] f c cs e = cc
whole-clear curr (c' ∷ cs') f c cs e = ground arith

split-clear :
    (curr : Block) (size : ℕ) (after : List Block)
    → InRange curr
    → size ≤ curr.sz
    → (c : Block) (cs : List Block) → split_of curr size ∷ after ≡ c ∷ cs
    → ltb c.ptr curr.ptr ≡ false
split-clear curr size after h k c cs e = ground arith

-- A block that comes back right after it left the list restores the list.
pub put_back-extract :
    (s : Spot) (new_split : Bool) (size : ℕ) (b : Block) (rest : List Block)
    → IsTidy (list_of s)
    → AllInRange (list_of s)
    → size ≤ s.curr.sz
    → extract s new_split size ≡ some (b, rest)
    → put_back b rest ≡ list_of s
put_back-extract s new_split size b rest t g k e =
    let h = curr-InRange s g in
    let l = AllInRange-before s.before (s.curr ∷ s.after) g in
    let r = IsTidy-after s.before (s.curr ∷ s.after) t in
    elim (extract-cases s new_split size b rest h k e) [
      | inl w ↦
          rw (w.0, w.1)
            (put_back-return s.curr s.curr s.after s.after refl refl
              (join_next-whole s.curr s.after h r.1) (whole-clear s.curr s.after r.1) s.before l t)
      | inr w ↦
          rw (w.0, w.1)
            (put_back-return (record (s.curr) { sz = size }) s.curr s.after
              (split_of s.curr size ∷ s.after) refl refl (join_next-split s.curr size s.after h k)
              (split-clear s.curr size s.after h k) s.before l t)
    ]
