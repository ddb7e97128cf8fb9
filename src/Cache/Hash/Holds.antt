-- ===== src/Cache/Hash/Holds.antt =====
-- What a hash table of nodes means: it holds the nodes of a list, each in its home bucket, so that
-- a lookup in the table is a lookup in the list.
use libgpuarray.Base.{
  ℕ, ◌+◌, ◌-◌, ◌%◌, ◌^◌, ◌≤◌, ◌<◌, ◌≡◌, ◌∙◌, true, false, List, arith, ◌==◌, length,
}
use libgpuarray.Base.Bits.{bit_and-le}
use libgpuarray.Cache.Node.{Keys, Node, find}
use libgpuarray.Cache.Hash.{Hash, slot, bucket, hash_find}
use libgpuarray.Cache.Hash.Chain.{All, All-map, Agree, count, to_nat}

pub slot-lt : {K : Type 0} ⦃keys : Keys K⦄ (n : ℕ) (k : K) → 0 < n → n < 2 ^ 64 → slot n k < n
unfolding slot
slot-lt ⦃keys⦄ n k h w = omega (arith, bit_and-le (keys.khash k) ((n + 2 ^ 64 - 1) % 2 ^ 64))

pub slot_congr :
    {K : Type 0} ⦃keys : Keys K⦄ (n : ℕ) (a b : K) → keys.keq a b ≡ true → slot n a ≡ slot n b
unfolding slot
slot_congr ⦃keys⦄ n a b e = rw (keys.khash_congr a b e)

module _ {K V : Type 0} ⦃keys : Keys K⦄ where
  -- The node is told apart by address from all others, in the list and in the chains.
  pub record IsKnown (h : Hash K V) (o : List (Node K V)) (n : Node K V) : Type 0 where
    pub in_list : Agree o n
    pub in_chain : (p : ℕ) → Agree (bucket h p) n

  pub record Holds (h : Hash K V) (o : List (Node K V)) : Type 0 where
    pub width : length h.keyval ≡ h.nbuckets
    pub positive : 0 < h.nbuckets
    pub bounded : h.nbuckets < 2 ^ 64
    pub sized : h.size ≡ length o
    pub placed : (q : K) (p : ℕ) → count q (bucket h p) ≤ to_nat (slot h.nbuckets q == p)
    pub single : (q : K) → count q o ≤ 1
    pub reads : (q : K) → hash_find h q ≡ find q o
    pub known : All (IsKnown h o) o

  -- What `malloc` promises of an address: no live node has it.
  pub record IsFresh (h : Hash K V) (o : List (Node K V)) (a : ℕ) : Type 0 where
    pub off_list : All (λ m. (m.addr == a) ≡ false) o
    pub off_chain : (p : ℕ) → All (λ m. (m.addr == a) ≡ false) (bucket h p)

  -- Two orders of the same nodes.
  pub record SameNodes (a b : List (Node K V)) : Type 1 where
    pub same_length : length a ≡ length b
    pub same_count : (q : K) → count q a ≡ count q b
    pub same_find : (q : K) → find q a ≡ find q b
    pub same_all : (P : Node K V → Type 0) → All P a → All P b

  pub Holds-SameNodes :
      {h : Hash K V} {a b : List (Node K V)} → SameNodes a b → Holds h a → Holds h b
  Holds-SameNodes {h} {a} {b} s t = record {
    width = t.width;
    positive = t.positive;
    bounded = t.bounded;
    sized = t.sized ∙ s.same_length;
    placed = t.placed;
    single = λ q. rw (s.same_count q) at (t.single q);
    reads = λ q. t.reads q ∙ s.same_find q;
    known =
        All-map (IsKnown h a) (IsKnown h b)
          (λ n k. record { in_list = s.same_all _ k.in_list; in_chain = k.in_chain }) b
          (s.same_all _ t.known);
  }
