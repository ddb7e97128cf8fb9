-- ===== src/Cache/Hash/Add.antt =====
-- `hash_add` on a table that holds a list of nodes.
use libgpuarray.Base.{
  ℕ, ◌+◌, ◌≤◌, ◌<◌, ◌≡◌, refl, ◌∙◌, sym, false, none, some, List, [], ◌∷◌, ◌++◌, arith, ◌==◌,
  if◌then◌else◌, length, set, length-set, get_or-set, inl, inr, length-append, Bool-cases,
}
use libgpuarray.Cache.Node.{Keys, Node, find}
use libgpuarray.Cache.Hash.{Hash, slot, bucket, hash_find, hash_add}
use libgpuarray.Cache.Hash.Chain.{
  All, All-map, All-zip, All-append, Agree, count, to_nat, absent-All, count-eq-zero, find_congr,
  count_congr, count-append, find-append_none, find-append_skip,
}
use libgpuarray.Cache.Hash.Holds.{Holds, IsKnown, IsFresh, slot-lt, slot_congr}

module _ {K V : Type 0} ⦃keys : Keys K⦄ (h : Hash K V) (o : List (Node K V)) (t : Holds h o) where
  module _ (a : ℕ) (k : K) (v : V) (fresh : IsFresh h o a) (absent : find k o ≡ none) where
    abbrev pub new_node : Node K V
    new_node = record { addr = a; key = k; val = v }

    abbrev pub home : ℕ
    home = slot h.nbuckets k

    abbrev pub added : Hash K V
    added = record h { keyval = set h.keyval home (new_node ∷ bucket h home); size = h.size + 1 }

    home-lt : home < length h.keyval
    home-lt = rw t.width (slot-lt h.nbuckets k t.positive t.bounded)

    bucket-added :
        (p : ℕ) → bucket added p ≡ (if home == p then new_node ∷ bucket h home else bucket h p)
    bucket-added p = get_or-set h.keyval home p (new_node ∷ bucket h home) [] home-lt

    absent_home : count k (bucket h home) ≡ 0
    absent_home = count-eq-zero k (bucket h home) (unfold hash_find in t.reads k ∙ absent)

    absent_chain : (p : ℕ) → count k (bucket h p) ≡ 0
    absent_chain p = elim (Bool-cases (home == p)) [
      | inl e ↦ let s : home ≡ p = ground arith in rw (← s) absent_home
      | inr e ↦ ground (arith, t.placed k p)
    ]

    added_placed : (q : K) (p : ℕ) → count q (bucket added p) ≤ to_nat (slot h.nbuckets q == p)
    unfolding count
    added_placed q p = rw (bucket-added p) (
        ground (
          arith,
          t.placed q p,
          slot_congr h.nbuckets k q,
          count_congr k q (bucket h home),
          absent_home,
        ))

    added_single : (q : K) → count q (o ++ new_node ∷ []) ≤ 1
    unfolding count
    added_single q = ground (
      arith,
      t.single q,
      count-append q o (new_node ∷ []),
      count_congr k q o,
      count-eq-zero k o absent,
    )

    added_reads : (q : K) → hash_find added q ≡ find q (o ++ new_node ∷ [])
    unfolding hash_find find
    added_reads q = elim (Bool-cases (keys.keq k q)) [
      | inl e ↦
          rw (find-append_none q o (new_node ∷ []) (sym (find_congr k q o e) ∙ absent), e)
            (rw (bucket-added (slot h.nbuckets q)) (ground (arith, slot_congr h.nbuckets k q)))
      | inr e ↦
          rw (find-append_skip q o new_node e)
            (rw (bucket-added (slot h.nbuckets q)) (ground (arith, t.reads q)))
    ]

    -- An old node is told from the new one.
    abbrev Apart : Node K V → Type 0
    Apart m = ((m.addr == a) ≡ false) × (keys.keq m.key k ≡ false)

    Apart-list : All Apart o
    Apart-list = All-zip _ _ o fresh.off_list (absent-All k o (count-eq-zero k o absent))

    Apart-chain : (p : ℕ) → All Apart (bucket h p)
    Apart-chain p =
        All-zip _ _ (bucket h p) (fresh.off_chain p) (absent-All k (bucket h p) (absent_chain p))

    Agree-new : (l : List (Node K V)) → All Apart l → Agree l new_node
    Agree-new l s = All-map _ _ (λ m (d : Apart m). d.0 ∙ sym d.1) l s

    Agree-old : (m : Node K V) (l : List (Node K V)) → Apart m → Agree l m → Agree (new_node ∷ l) m
    Agree-old m l d g = (ground (arith, keys.keq_symm k m.key), g)

    IsKnown-old : (m : Node K V) → Apart m × IsKnown h o m → IsKnown added (o ++ new_node ∷ []) m
    IsKnown-old m (d, g) = record {
      in_list = All-append _ o (new_node ∷ []) g.in_list (Agree-old m [] d tt);
      in_chain = λ p. rw (bucket-added p) (elim (Bool-cases (home == p)) [
        | inl e ↦ rw e (Agree-old m (bucket h home) d (g.in_chain home))
        | inr e ↦ rw e (g.in_chain p)
      ]);
    }

    itself : (new_node.addr == a) ≡ keys.keq k k
    itself = ground (arith, keys.keq_refl k)

    IsKnown-new : IsKnown added (o ++ new_node ∷ []) new_node
    IsKnown-new = record {
      in_list = All-append _ o (new_node ∷ []) (Agree-new o Apart-list) (itself, tt);
      in_chain = λ p. rw (bucket-added p) (elim (Bool-cases (home == p)) [
        | inl e ↦ rw e (itself, Agree-new (bucket h home) (Apart-chain home))
        | inr e ↦ rw e (Agree-new (bucket h p) (Apart-chain p))
      ]);
    }

    added-IsKnown : All (IsKnown added (o ++ new_node ∷ [])) (o ++ new_node ∷ [])
    added-IsKnown =
        All-append _ o (new_node ∷ [])
          (All-map _ _ IsKnown-old o (All-zip _ _ o Apart-list t.known)) (IsKnown-new, tt)

    -- `hash_add` of an absent key succeeds, and the table then holds the new node too.
    pub hash_add-Holds :
        (hash_add (some a) h k v ≡ some (new_node, added)) × Holds added (o ++ new_node ∷ [])
    unfolding hash_add
    hash_add-Holds = (
      refl,
      record {
        width = length-set h.keyval home _ ∙ t.width;
        positive = t.positive;
        bounded = t.bounded;
        sized = omega (arith, t.sized, length-append o (new_node ∷ []));
        placed = added_placed;
        single = added_single;
        reads = added_reads;
        known = added-IsKnown;
      },
    )
