-- ===== src/Cache/Hash/Move.antt =====
-- Moving a node within its list changes no lookup.
use libgpuarray.Base.{
  ◌≤◌, ◌≡◌, ◌∙◌, inl, inr, some, List, [], ◌∷◌, ◌++◌, arith, Bool-cases, length-append, sym, ap,
  if◌then◌else◌, length, none,
}
use mathlib.Core.List.{append-nil}
use libgpuarray.Cache.Node.{Keys, Node, unlink, find}
use libgpuarray.Cache.Hash.Chain.{
  All-append, All-find, All-unlink, Agree, count, find_congr, find-eq-none, find-append_none,
  find-unlink, count-unlink, length-unlink, count-append, find-keq, find-append_left_none, All,
  All-append_split, find-append_middle,
}
use libgpuarray.Cache.Hash.Holds.{SameNodes}

module _ {K V : Type 0} ⦃keys : Keys K⦄ where
  pub find_self :
      (k : K) (l : List (Node K V)) (n : Node K V) → find k l ≡ some n → find n.key l ≡ some n
  find_self k l n h = find_congr n.key k l (find-keq k l n h) ∙ h

  -- A node may be put back anywhere.
  module _ (n : Node K V) (l a b : List (Node K V)) (g : Agree l n)
      (present : find n.key l ≡ some n) (single : (q : K) → count q l ≤ 1)
      (rest : unlink n.addr l ≡ a ++ b) where
    count_rest : (q : K) → count q (a ++ b) ≡ (if keys.keq n.key q then 0 else count q l)
    count_rest q = rw rest at (count-unlink n q l g (single q))

    find_rest : (q : K) → find q (a ++ b) ≡ (if keys.keq n.key q then none else find q l)
    find_rest q = rw rest at (find-unlink n q l g (single q))

    relocate_count : (q : K) → count q l ≡ count q (a ++ n ∷ b)
    unfolding count
    relocate_count q = ground (
      arith,
      single q,
      present,
      count-append q a (n ∷ b),
      count-append q a b,
      count_rest q,
      find-eq-none q l,
      find_congr n.key q l,
    )

    relocate_find : (q : K) → find q l ≡ find q (a ++ n ∷ b)
    unfolding find
    relocate_find q = elim (Bool-cases (keys.keq n.key q)) [
      | inl e ↦
          rw
            (
              find-append_none q a (n ∷ b)
                  (find-append_left_none q a b (ground (arith, find_rest q))),
              e,
            )
            (sym (find_congr n.key q l e) ∙ present)
      | inr e ↦ rw (find-append_middle q a b n e) (ground (arith, find_rest q))
    ]

    relocate-All : (P : Node K V → Type 0) → All P l → All P (a ++ n ∷ b)
    relocate-All P h =
        let (ha, hb) = All-append_split P a b (rw rest at (All-unlink P n.addr l h)) in
        All-append P a (n ∷ b) ha (All-find P n.key l n present h, hb)

    pub relocate : SameNodes l (a ++ n ∷ b)
    relocate = record {
      same_length = omega (
        arith,
        length-unlink n n n.key l g present,
        length-append a (n ∷ b),
        length-append a b,
        ap length rest,
      );
      same_count = relocate_count;
      same_find = relocate_find;
      same_all = relocate-All;
    }

  pub move_to_end :
      (n : Node K V) (l : List (Node K V))
      → Agree l n
      → find n.key l ≡ some n
      → ((q : K) → count q l ≤ 1)
      → SameNodes l (unlink n.addr l ++ n ∷ [])
  move_to_end n l g present single =
      relocate n l (unlink n.addr l) [] g present single (sym (append-nil (unlink n.addr l)))
