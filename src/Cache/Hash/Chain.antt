-- ===== src/Cache/Hash/Chain.antt =====
-- Lists of nodes read by key: the laws of `find`, `count` and `unlink`.
use libgpuarray.Base.{
  ℕ, suc, ◌+◌, ◌≤◌, ◌≡◌, refl, inl, inr, Bool, true, false, none, some, List, [], ◌∷◌, ◌++◌, ◌||◌,
  arith, ◌==◌, if◌then◌else◌, length, Bool-cases,
}
use libgpuarray.Cache.Node.{Keys, Node, unlink, find}
use libgpuarray.Cache.Hash.{meets}

abbrev pub to_nat : Bool → ℕ
to_nat true = 1
to_nat false = 0

abbrev pub All {ℓ κ} : {A : Type ℓ} → (A → Type κ) → List A → Type κ
All P [] = Unit
All P (x ∷ l) = P x × All P l

pub All-append {ℓ κ} :
    {A : Type ℓ} (P : A → Type κ) (a b : List A) → All P a → All P b → All P (a ++ b)
All-append P [] b h k = k
All-append P (x ∷ a) b h k = (h.0, All-append P a b h.1 k)

pub All-map {ℓ κ} :
    {A : Type ℓ} (P Q : A → Type κ) → ((x : A) → P x → Q x) → (l : List A) → All P l → All Q l
All-map P Q f [] h = tt
All-map P Q f (x ∷ l) h = (f x h.0, All-map P Q f l h.1)

pub keq_congr :
    {K : Type 0} ⦃keys : Keys K⦄ (a b c : K) → keys.keq a b ≡ true → keys.keq c a ≡ keys.keq c b
keq_congr ⦃keys⦄ a b c e =
    ground (arith, keys.keq_symm a b, keys.keq_trans c a b, keys.keq_trans c b a, keys.keq_symm b a)

pub All-zip {ℓ κ} :
    {A : Type ℓ} (P Q : A → Type κ) (l : List A) → All P l → All Q l → All (λ x. P x × Q x) l
All-zip P Q [] h k = tt
All-zip P Q (x ∷ l) h k = ((h.0, k.0), All-zip P Q l h.1 k.1)

module _ {K V : Type 0} where
  pub All-unlink :
      (P : Node K V → Type 0) (a : ℕ) (l : List (Node K V)) → All P l → All P (unlink a l)
  unfolding unlink
  All-unlink P a [] h = tt
  All-unlink P a (m ∷ l) h = elim (Bool-cases (m.addr == a)) [
    | inl e ↦ rw e h.1
    | inr e ↦ rw e (h.0, All-unlink P a l h.1)
  ]

module _ {K V : Type 0} ⦃keys : Keys K⦄ where
  unfoldable pub count : K → List (Node K V) → ℕ
  count q [] = 0
  count q (n ∷ l) = to_nat (keys.keq n.key q) + count q l

  -- Node `n` is told from the nodes of the list by its address as well as by its key.
  abbrev pub Agree : List (Node K V) → Node K V → Type 0
  Agree l n = All (λ m. (m.addr == n.addr) ≡ keys.keq m.key n.key) l

  pub find-eq-none : (q : K) (l : List (Node K V)) → count q l ≡ 0 → find q l ≡ none
  unfolding find count
  find-eq-none q [] h = refl
  find-eq-none q (n ∷ l) h = ground (arith, find-eq-none q l)

  pub count-eq-zero : (q : K) (l : List (Node K V)) → find q l ≡ none → count q l ≡ 0
  unfolding find count
  count-eq-zero q [] h = refl
  count-eq-zero q (n ∷ l) h = ground (arith, count-eq-zero q l)

  pub find_congr : (a b : K) (l : List (Node K V)) → keys.keq a b ≡ true → find a l ≡ find b l
  unfolding find
  find_congr a b [] e = refl
  find_congr a b (n ∷ l) e = ground (arith, find_congr a b l e, keq_congr a b n.key e)

  pub count_congr : (a b : K) (l : List (Node K V)) → keys.keq a b ≡ true → count a l ≡ count b l
  unfolding count
  count_congr a b [] e = refl
  count_congr a b (n ∷ l) e = rw (count_congr a b l e, keq_congr a b n.key e)

  pub find-keq :
      (q : K) (l : List (Node K V)) (n : Node K V) → find q l ≡ some n → keys.keq n.key q ≡ true
  unfolding find
  find-keq q [] n h = cc
  find-keq q (m ∷ l) n h = ground (arith, find-keq q l n)

  pub All-find :
      (P : Node K V → Type 0) (q : K) (l : List (Node K V)) (n : Node K V)
      → find q l ≡ some n
      → All P l
      → P n
  unfolding find
  All-find P q [] n h k = cc
  All-find P q (m ∷ l) n h k = elim (Bool-cases (keys.keq m.key q)) [
    | inl e ↦ let s : m ≡ n = ground arith in rw (← s) k.0
    | inr e ↦ All-find P q l n (ground arith) k.1
  ]

  pub count-append : (q : K) (a b : List (Node K V)) → count q (a ++ b) ≡ count q a + count q b
  unfolding count
  count-append q [] b = omega arith
  count-append q (n ∷ a) b = omega (arith, count-append q a b)

  pub find-append_none :
      (q : K) (a b : List (Node K V)) → find q a ≡ none → find q (a ++ b) ≡ find q b
  unfolding find
  find-append_none q [] b h = refl
  find-append_none q (n ∷ a) b h = ground (arith, find-append_none q a b)

  pub find-append_some :
      (q : K) (a b : List (Node K V)) (n : Node K V) → find q a ≡ some n → find q (a ++ b) ≡ some n
  unfolding find
  find-append_some q [] b n h = cc
  find-append_some q (m ∷ a) b n h = ground (arith, find-append_some q a b n)

  pub find-append_skip :
      (q : K) (a : List (Node K V)) (n : Node K V)
      → keys.keq n.key q ≡ false
      → find q (a ++ n ∷ []) ≡ find q a
  unfolding find
  find-append_skip q [] n h = rw h
  find-append_skip q (m ∷ a) n h = rw (find-append_skip q a n h)

  module _ (n : Node K V) (q : K) where
    pub find-unlink :
        (l : List (Node K V))
        → Agree l n
        → count q l ≤ 1
        → find q (unlink n.addr l) ≡ (if keys.keq n.key q then none else find q l)
    unfolding find unlink count
    find-unlink [] g h = ground arith
    find-unlink (m ∷ l) g h = ground (
      arith,
      find-unlink l,
      find-eq-none q l,
      keq_congr n.key q m.key,
      keys.keq_symm m.key n.key,
      keys.keq_trans n.key m.key q,
    )

    pub count-unlink :
        (l : List (Node K V))
        → Agree l n
        → count q l ≤ 1
        → count q (unlink n.addr l) ≡ (if keys.keq n.key q then 0 else count q l)
    unfolding unlink count
    count-unlink [] g h = ground arith
    count-unlink (m ∷ l) g h = ground (
      arith,
      count-unlink l,
      keq_congr n.key q m.key,
      keys.keq_symm m.key n.key,
      keys.keq_trans n.key m.key q,
    )

  pub length-unlink :
      (n m : Node K V) (q : K) (l : List (Node K V))
      → Agree l n
      → find n.key l ≡ some m
      → suc (length (unlink n.addr l)) ≡ length l
  unfolding unlink find
  length-unlink n m q [] g h = cc
  length-unlink n m q (x ∷ l) g h = ground (arith, length-unlink n m q l)

  pub absent-All :
      (q : K) (l : List (Node K V)) → count q l ≡ 0 → All (λ m. keys.keq m.key q ≡ false) l
  unfolding count
  absent-All q [] h = tt
  absent-All q (m ∷ l) h = (ground arith, absent-All q l (ground arith))

  pub meets-find :
      (q : K) (n : Node K V) (l : List (Node K V)) → find q l ≡ some n → meets n.addr l ≡ true
  unfolding meets find
  meets-find q n [] h = cc
  meets-find q n (m ∷ l) h = ground (arith, meets-find q n l)

  pub find-append_middle :
      (q : K) (a b : List (Node K V)) (n : Node K V)
      → keys.keq n.key q ≡ false
      → find q (a ++ n ∷ b) ≡ find q (a ++ b)
  unfolding find
  find-append_middle q [] b n h = rw h
  find-append_middle q (m ∷ a) b n h = rw (find-append_middle q a b n h)

  pub find-append_left_none :
      (q : K) (a b : List (Node K V)) → find q (a ++ b) ≡ none → find q a ≡ none
  unfolding find
  find-append_left_none q [] b h = refl
  find-append_left_none q (m ∷ a) b h = ground (arith, find-append_left_none q a b)

pub All-append_split {ℓ κ} :
    {A : Type ℓ} (P : A → Type κ) (a b : List A) → All P (a ++ b) → All P a × All P b
All-append_split P [] b h = (tt, h)
All-append_split P (x ∷ a) b h = let r = All-append_split P a b h.1 in ((h.0, r.0), r.1)

module _ {K V : Type 0} where
  pub meets-append : (a : ℕ) (x y : List (Node K V)) → meets a (x ++ y) ≡ (meets a x || meets a y)
  unfolding meets
  meets-append a [] y = refl
  meets-append a (n ∷ x) y = ground (arith, meets-append a x y)

  pub unlink-append_in :
      (a : ℕ) (x y : List (Node K V)) → meets a x ≡ true → unlink a (x ++ y) ≡ unlink a x ++ y
  unfolding meets unlink
  unlink-append_in a [] y h = cc
  unlink-append_in a (n ∷ x) y h = ground (arith, unlink-append_in a x y)

  pub unlink-append_out :
      (a : ℕ) (x y : List (Node K V)) → meets a x ≡ false → unlink a (x ++ y) ≡ x ++ unlink a y
  unfolding meets unlink
  unlink-append_out a [] y h = refl
  unlink-append_out a (n ∷ x) y h = ground (arith, unlink-append_out a x y)
