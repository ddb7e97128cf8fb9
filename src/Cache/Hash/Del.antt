-- ===== src/Cache/Hash/Del.antt =====
-- `hash_del` on a table that holds a list of nodes.
use libgpuarray.Base.{
  ℕ, ◌-◌, ◌≤◌, ◌<◌, ◌≡◌, ◌∙◌, true, none, some, List, [], ◌∷◌, ◌++◌, arith, ◌==◌, if◌then◌else◌,
  length, set, length-set, get_or-set, inl, inr, Bool-cases,
}
use libgpuarray.Cache.Node.{Keys, Node, find, unlink}
use libgpuarray.Cache.Hash.{Hash, slot, bucket, hash_find, hash_del, meets, del_in}
use libgpuarray.Cache.Hash.Chain.{
  All, All-map, All-find, All-unlink, count, to_nat, meets-find, find-unlink, count-unlink,
  length-unlink,
}
use libgpuarray.Cache.Hash.Holds.{Holds, IsKnown, slot-lt, slot_congr}

del_in_met :
    {K V : Type 0} ⦃keys : Keys K⦄ (h : Hash K V) (n : Node K V) (p : ℕ) (c : List (Node K V))
    → meets n.addr c ≡ true
    → del_in h n p c
      ≡ some (record h {
        keyval = set h.keyval p (unlink n.addr c);
        size = h.size - 1;
        freed = h.freed ++ n ∷ [];
      })
unfolding del_in meets
del_in_met h n p [] m = cc
del_in_met h n p (x ∷ c) m = rw m

module _ {K V : Type 0} ⦃keys : Keys K⦄ (h : Hash K V) (o : List (Node K V)) (t : Holds h o)
    (n : Node K V) (present : find n.key o ≡ some n) where
  abbrev pub home : ℕ
  home = slot h.nbuckets n.key

  abbrev pub deleted : Hash K V
  deleted = record h {
    keyval = set h.keyval home (unlink n.addr (bucket h home));
    size = h.size - 1;
    freed = h.freed ++ n ∷ [];
  }

  IsKnown-n : IsKnown h o n
  IsKnown-n = All-find _ n.key o n present t.known

  found_home : find n.key (bucket h home) ≡ some n
  found_home = unfold hash_find in t.reads n.key ∙ present

  home-lt : home < length h.keyval
  home-lt = rw t.width (slot-lt h.nbuckets n.key t.positive t.bounded)

  bucket-deleted :
      (p : ℕ) → bucket deleted p ≡ (if home == p then unlink n.addr (bucket h home) else bucket h p)
  bucket-deleted p = get_or-set h.keyval home p (unlink n.addr (bucket h home)) [] home-lt

  chain_single : (q : K) → count q (bucket h home) ≤ 1
  chain_single q = ground (arith, t.placed q home)

  runs : hash_del h n ≡ some deleted
  unfolding hash_del
  runs = del_in_met h n home (bucket h home) (meets-find n.key n (bucket h home) found_home)

  deleted_placed : (q : K) (p : ℕ) → count q (bucket deleted p) ≤ to_nat (slot h.nbuckets q == p)
  deleted_placed q p = rw (bucket-deleted p) (
      ground (
        arith,
        t.placed q p,
        t.placed q home,
        count-unlink n q (bucket h home) (IsKnown-n.in_chain home),
      ))

  deleted_single : (q : K) → count q (unlink n.addr o) ≤ 1
  deleted_single q = ground (arith, t.single q, count-unlink n q o IsKnown-n.in_list)

  deleted_reads : (q : K) → hash_find deleted q ≡ find q (unlink n.addr o)
  unfolding hash_find
  deleted_reads q = rw (bucket-deleted (slot h.nbuckets q)) (
      ground (
        arith,
        t.reads q,
        slot_congr h.nbuckets n.key q,
        find-unlink n q o IsKnown-n.in_list (t.single q),
        find-unlink n q (bucket h home) (IsKnown-n.in_chain home) (chain_single q),
      ))

  IsKnown-deleted : (m : Node K V) → IsKnown h o m → IsKnown deleted (unlink n.addr o) m
  IsKnown-deleted m g = record {
    in_list = All-unlink _ n.addr o g.in_list;
    in_chain = λ p. rw (bucket-deleted p) (elim (Bool-cases (home == p)) [
      | inl e ↦ rw e (All-unlink _ n.addr (bucket h home) (g.in_chain home))
      | inr e ↦ rw e (g.in_chain p)
    ]);
  }

  pub All-deleted :
      (P : Node K V → Type 0) → ((p : ℕ) → All P (bucket h p)) → (p : ℕ) → All P (bucket deleted p)
  All-deleted P f p = rw (bucket-deleted p) (elim (Bool-cases (home == p)) [
    | inl e ↦ rw e (All-unlink P n.addr (bucket h home) (f home))
    | inr e ↦ rw e (f p)
  ])

  pub absent_after : (q : K) → keys.keq n.key q ≡ true → find q (unlink n.addr o) ≡ none
  absent_after q e = ground (arith, find-unlink n q o IsKnown-n.in_list (t.single q))

  -- `hash_del` of a node of the list frees it, and the table then holds the rest.
  pub hash_del-Holds : (hash_del h n ≡ some deleted) × Holds deleted (unlink n.addr o)
  hash_del-Holds = (
    runs,
    record {
      width = length-set h.keyval home _ ∙ t.width;
      positive = t.positive;
      bounded = t.bounded;
      sized = omega (arith, t.sized, length-unlink n n n.key o IsKnown-n.in_list present);
      placed = deleted_placed;
      single = deleted_single;
      reads = deleted_reads;
      known = All-unlink _ n.addr o (All-map _ _ IsKnown-deleted o t.known);
    },
  )
