-- ===== src/Pool/Fit.antt =====
-- `find_best` of src/gpuarray_buffer_cuda.c finds the smallest block that fits, and where `allocate`
-- and `extract` leave the list.
use libgpuarray.Base.{
  ℕ, ◌+◌, ◌-◌, ◌%◌, ◌^◌, ◌≤◌, ◌<◌, Bool, false, ◌&&◌, Option, none, some, List, [], ◌∷◌, ◌++◌, ltb,
  leb, if◌then◌else◌, ◌≡◌, refl, arith, Bool-cases, inl, inr, ap,
}
use mathlib.Core.List.{append-nil}
use libgpuarray.Pool.{
  add_size, sub_size, frag_size, Block, Spot, list_of, best_loop, better, find_best, enter_loop,
  extract, roundup,
}
use libgpuarray.Pool.Bytes.{
  covers, held, held-append, InRange, AllInRange, AllInRange-append, AllInRange-before,
  AllInRange-after,
}

-- No block of the list fits.
abbrev pub NoneFits : ℕ → List Block → Type 0
NoneFits size [] = Unit
NoneFits size (b ∷ bs) = (b.sz < size) × NoneFits size bs

-- Each block of the list that fits has `n` bytes or more.
abbrev pub NoneSmaller : ℕ → ℕ → List Block → Type 0
NoneSmaller size n [] = Unit
NoneSmaller size n (b ∷ bs) = (size ≤ b.sz → n ≤ b.sz) × NoneSmaller size n bs

-- The smallest block of a list that fits, where it stands in the list.
abbrev pub IsBest : ℕ → List Block → List Block → Option Spot → Type 0
IsBest size bs whole none = NoneFits size bs
IsBest size bs whole (some s) =
    (list_of s ≡ whole) × (size ≤ s.curr.sz) × NoneSmaller size s.curr.sz bs

NoneFits-append :
    (size : ℕ) (bs : List Block) (b : Block)
    → NoneFits size bs
    → b.sz < size
    → NoneFits size (bs ++ b ∷ [])
NoneFits-append size [] b h g = (g, tt)
NoneFits-append size (c ∷ bs) b h g = (h.0, NoneFits-append size bs b h.1 g)

NoneSmaller-append :
    (size n : ℕ) (bs : List Block) (b : Block)
    → NoneSmaller size n bs
    → (size ≤ b.sz → n ≤ b.sz)
    → NoneSmaller size n (bs ++ b ∷ [])
NoneSmaller-append size n [] b h g = (g, tt)
NoneSmaller-append size n (c ∷ bs) b h g = (h.0, NoneSmaller-append size n bs b h.1 g)

NoneFits-NoneSmaller : (size n : ℕ) (bs : List Block) → NoneFits size bs → NoneSmaller size n bs
NoneFits-NoneSmaller size n [] h = tt
NoneFits-NoneSmaller size n (b ∷ bs) h =
    ((λ k. absurd (omega arith)), NoneFits-NoneSmaller size n bs h.1)

NoneSmaller-le :
    (size n m : ℕ) (bs : List Block) → m ≤ n → NoneSmaller size n bs → NoneSmaller size m bs
NoneSmaller-le size n m [] k h = tt
NoneSmaller-le size n m (b ∷ bs) k h =
    ((λ g. let e : n ≤ b.sz = h.0 g in omega arith), NoneSmaller-le size n m bs k h.1)

pub append_one : (xs ys : List Block) (b : Block) → (xs ++ b ∷ []) ++ ys ≡ xs ++ b ∷ ys
append_one [] ys b = refl
append_one (x ∷ xs) ys b = ap (λ t. x ∷ t) (append_one xs ys b)

-- One round of the loop.
abbrev next_best : ℕ → List Block → Block → List Block → Option Spot → Option Spot
next_best size passed temp rest best =
    if better size temp best
    then some (record { before = passed; curr = temp; after = rest })
    else best

next_best-IsBest :
    (size : ℕ) (passed : List Block) (temp : Block) (rest : List Block) (best : Option Spot)
    → IsBest size passed (passed ++ temp ∷ rest) best
    → IsBest size
        (passed ++ temp ∷ [])
        (passed ++ temp ∷ rest)
        (next_best size passed temp rest best)
next_best-IsBest size passed temp rest none h = elim (Bool-cases (leb size temp.sz)) [
  | inl e ↦ rw e (
    refl,
    ground arith,
    NoneSmaller-append size temp.sz passed temp (NoneFits-NoneSmaller size temp.sz passed h)
        (λ k. omega arith),
  )
  | inr e ↦ rw e (NoneFits-append size passed temp h (ground arith))
]
next_best-IsBest size passed temp rest (some s) h =
    elim (Bool-cases (leb size temp.sz && ltb temp.sz s.curr.sz)) [
      | inl e ↦ rw e (
        refl,
        ground arith,
        NoneSmaller-append size temp.sz passed temp
            (NoneSmaller-le size s.curr.sz temp.sz passed (ground arith) h.2) (λ k. omega arith),
      )
      | inr e ↦
          rw e (h.0, h.1, NoneSmaller-append size s.curr.sz passed temp h.2 (λ k. ground arith))
    ]

best_loop-IsBest :
    (size : ℕ) (passed : List Block) (best : Option Spot) (fs : List Block)
    → IsBest size passed (passed ++ fs) best
    → IsBest size (passed ++ fs) (passed ++ fs) (best_loop size passed best fs)
unfolding best_loop
best_loop-IsBest size passed best [] h = rw (append-nil passed) (rw (append-nil passed) at h)
best_loop-IsBest size passed best (temp ∷ rest) h = rw (← append_one passed rest temp) (
    best_loop-IsBest size (passed ++ temp ∷ []) (next_best size passed temp rest best) rest
      (rw (append_one passed rest temp) (next_best-IsBest size passed temp rest best h)))

-- `find_best` answers no block just if none fits. Else the block stands in the list, fits, and no
-- block that fits is smaller.
pub find_best-IsBest : (size : ℕ) (fs : List Block) → IsBest size fs fs (find_best size fs)
unfolding find_best
find_best-IsBest size fs = best_loop-IsBest size [] none fs tt

module _ (x : ℕ) where
  pub list_of-held :
      (s : Spot) → held x (list_of s) ≡ held x s.before + (covers x s.curr + held x s.after)
  unfolding held
  list_of-held s = held-append x s.before (s.curr ∷ s.after)

  pub enter_loop-held :
      (res : Block) (passed fs : List Block)
      → held x (list_of (enter_loop res passed fs)) ≡ covers x res + (held x passed + held x fs)
  unfolding enter_loop held
  enter_loop-held res passed [] = omega (arith, held-append x passed (res ∷ []))
  enter_loop-held res passed (next ∷ rest) = elim (Bool-cases (ltb next.ptr res.ptr)) [
    | inl e ↦ rw e (
        omega
          (arith, held-append x passed (next ∷ []), enter_loop-held res (passed ++ next ∷ []) rest))
    | inr e ↦ rw e (omega (arith, held-append x passed (res ∷ next ∷ rest)))
  ]

  -- A split block and what is left of it have the bytes of the whole.
  split-covers :
      (b : Block) (size : ℕ)
      → InRange b
      → size ≤ b.sz
      → covers x (record b { sz = size })
          + covers x (record { ptr = add_size b.ptr size; sz = sub_size b.sz size; head = false })
        ≡ covers x b
  unfolding covers
  split-covers b size h k = ground arith

  pub extract-held :
      (s : Spot) (new_split : Bool) (size : ℕ) (b : Block) (rest : List Block)
      → InRange s.curr
      → size ≤ s.curr.sz
      → extract s new_split size ≡ some (b, rest)
      → covers x b + held x rest ≡ held x (list_of s)
  unfolding extract held
  extract-held s new_split size b rest h k e = ground (
    arith,
    split-covers s.curr size h k,
    held-append x s.before s.after,
    held-append x s.before (s.curr ∷ s.after),
    held-append x s.before (
        record { ptr = add_size s.curr.ptr size; sz = sub_size s.curr.sz size; head = false }
        ∷ s.after),
  )

pub enter_loop-InRange :
    (res : Block) (passed fs : List Block)
    → InRange res
    → AllInRange passed
    → AllInRange fs
    → AllInRange (list_of (enter_loop res passed fs))
unfolding enter_loop
enter_loop-InRange res passed [] r h g = AllInRange-append passed (res ∷ []) h (r, tt)
enter_loop-InRange res passed (next ∷ rest) r h g = elim (Bool-cases (ltb next.ptr res.ptr)) [
  | inl e ↦ rw e (
      enter_loop-InRange res (passed ++ next ∷ []) rest r
        (AllInRange-append passed (next ∷ []) h (g.0, tt)) g.1)
  | inr e ↦ rw e (AllInRange-append passed (res ∷ next ∷ rest) h (r, g))
]

pub enter_loop-curr : (res : Block) (passed fs : List Block) → (enter_loop res passed fs).curr ≡ res
unfolding enter_loop
enter_loop-curr res passed [] = refl
enter_loop-curr res passed (next ∷ rest) =
    ground (arith, enter_loop-curr res (passed ++ next ∷ []) rest)

pub curr-InRange : (s : Spot) → AllInRange (list_of s) → InRange s.curr
curr-InRange s h = (AllInRange-after s.before (s.curr ∷ s.after) h).0

-- The block that leaves the list: it has `size` bytes or, where the rest of the block would be
-- under FRAG_SIZE, less than FRAG_SIZE more. It stands where the block of the list stood.
abbrev pub IsCut : Spot → ℕ → Block → Type 0
IsCut s size b =
    (b.ptr ≡ s.curr.ptr) × (b.head ≡ s.curr.head) × (size ≤ b.sz) × (b.sz < size + frag_size)

pub extract-IsCut :
    (s : Spot) (new_split : Bool) (size : ℕ) (b : Block) (rest : List Block)
    → InRange s.curr
    → size ≤ s.curr.sz
    → extract s new_split size ≡ some (b, rest)
    → IsCut s size b
unfolding extract
extract-IsCut s new_split size b rest h k e = ground arith

pub extract-InRange :
    (s : Spot) (new_split : Bool) (size : ℕ) (b : Block) (rest : List Block)
    → AllInRange (list_of s)
    → size ≤ s.curr.sz
    → extract s new_split size ≡ some (b, rest)
    → InRange b × AllInRange rest
unfolding extract
extract-InRange s new_split size b rest h k e =
    let f = AllInRange-before s.before (s.curr ∷ s.after) h in
    let g = AllInRange-after s.before (s.curr ∷ s.after) h in
    let split : Block = record {
      ptr = add_size s.curr.ptr size;
      sz = sub_size s.curr.sz size;
      head = false;
    } in
    ground (
      arith,
      AllInRange-append s.before s.after f g.1,
      AllInRange-append s.before (split ∷ s.after) f,
    )

-- A multiple of FRAG_SIZE that is not smaller, and the smallest such.
pub roundup_lem :
    (size : ℕ)
    → size ≤ 2 ^ 64 - frag_size
    → (size ≤ roundup size frag_size)
      × (roundup size frag_size < size + frag_size)
      × (roundup size frag_size % frag_size ≡ 0)
unfolding roundup
roundup_lem size h = omega arith
