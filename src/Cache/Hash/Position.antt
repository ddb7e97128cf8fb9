-- ===== src/Cache/Hash/Position.antt =====
-- A node known by its position in the list that the table holds.
use libgpuarray.Base.{
  ℕ, suc, ◌≤◌, ◌≡◌, refl, ap, ◌∙◌, ◌==◌, true, false, some, List, [], ◌∷◌, ◌++◌, arith, length,
}
use libgpuarray.Cache.Node.{Keys, Node, unlink, find}
use libgpuarray.Cache.Hash.{Hash, meets}
use libgpuarray.Cache.Hash.Chain.{
  All, All-map, All-zip, All-append_split, Agree, count, count-append, count-unlink, find-eq-none,
  find-append_none, absent-All, unlink-append_out, All-unlink,
}
use libgpuarray.Cache.Hash.Holds.{Holds, IsKnown}

module _ {K V : Type 0} where
  pub off-meets :
      (a : ℕ) (l : List (Node K V)) → All (λ m. (m.addr == a) ≡ false) l → meets a l ≡ false
  unfolding meets
  off-meets a [] h = refl
  off-meets a (m ∷ l) h = rw h.0 (off-meets a l h.1)

  pub length-unlink_met :
      (a : ℕ) (l : List (Node K V)) → meets a l ≡ true → suc (length (unlink a l)) ≡ length l
  unfolding meets unlink
  length-unlink_met a [] h = cc
  length-unlink_met a (m ∷ l) h = ground (arith, length-unlink_met a l)

unlink_head : {K V : Type 0} (n : Node K V) (l : List (Node K V)) → unlink n.addr (n ∷ l) ≡ l
unfolding unlink
unlink_head n l = ground arith

module _ {K V : Type 0} ⦃keys : Keys K⦄ where
  -- Where the key of a known node is absent, so is its address.
  pub absent-off :
      (n : Node K V) (l : List (Node K V))
      → Agree l n
      → count n.key l ≡ 0
      → All (λ m. (m.addr == n.addr) ≡ false) l
  absent-off n l g z =
      All-map _ _
        (λ m (d : ((m.addr == n.addr) ≡ keys.keq m.key n.key) × (keys.keq m.key n.key ≡ false)).
          d.0 ∙ d.1)
        l (All-zip _ _ l g (absent-All n.key l z))

  pub unlink-off :
      (n : Node K V) (l : List (Node K V))
      → Agree l n
      → count n.key l ≤ 1
      → All (λ m. (m.addr == n.addr) ≡ false) (unlink n.addr l)
  unlink-off n l g h =
      absent-off n (unlink n.addr l) (All-unlink _ n.addr l g)
        (ground (arith, count-unlink n n.key l g, keys.keq_refl n.key))

  module _ {h : Hash K V} (p : List (Node K V)) (n : Node K V) (l : List (Node K V))
      (t : Holds h (p ++ n ∷ l)) where
    pub IsKnown-at : IsKnown h (p ++ n ∷ l) n
    IsKnown-at = (All-append_split _ p (n ∷ l) t.known).1.0

    count_before : count n.key p ≡ 0
    unfolding count
    count_before = ground (arith, t.single n.key, count-append n.key p (n ∷ l), keys.keq_refl n.key)

    pub find_at : find n.key (p ++ n ∷ l) ≡ some n
    unfolding find
    find_at =
        find-append_none n.key p (n ∷ l) (find-eq-none n.key p count_before)
        ∙ (rw (keys.keq_refl n.key))

    pub unlink_at : unlink n.addr (p ++ n ∷ l) ≡ p ++ l
    unlink_at =
        unlink-append_out n.addr p (n ∷ l) (
          off-meets n.addr p
            (absent-off n p (All-append_split _ p (n ∷ l) IsKnown-at.in_list).0 count_before))
        ∙ ap (λ r. p ++ r) (unlink_head n l)
