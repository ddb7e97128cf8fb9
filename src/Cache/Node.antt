-- ===== src/Cache/Node.antt =====
-- Nodes, recency lists and the callbacks on keys, which src/cache/lru.c and src/cache/twoq.c share.
-- A node is known by its address; `key` and `val` never change after `node_init`. A `struct _list`
-- is the sequence of its nodes from `head` to `tail` (the links `prev` and `next`) and its count.
use libgpuarray.Base.{
  ℕ, ◌+◌, ◌-◌, ◌≡◌, Bool, true, Option, none, some, List, [], ◌∷◌, ◌++◌, ◌==◌, if◌then◌else◌,
}

-- `keq` and `khash`, with what a hash table asks of them.
pub record Keys (K : Type 0) : Type 0 where
  pub keq : K → K → Bool
  pub khash : K → ℕ
  pub keq_refl : (a : K) → keq a a ≡ true
  pub keq_symm : (a b : K) → keq a b ≡ keq b a
  pub keq_trans : (a b c : K) → keq a b ≡ true → keq b c ≡ true → keq a c ≡ true
  pub khash_congr : (a b : K) → keq a b ≡ true → khash a ≡ khash b

pub record Node (K V : Type 0) : Type 0 where
  pub addr : ℕ
  pub key : K
  pub val : V

pub record NodeList (K V : Type 0) : Type 0 where
  pub nodes : List (Node K V)
  pub size : ℕ

module _ {K V : Type 0} where
  -- `node_alloc`, on the result of `malloc`.
  abbrev pub node_alloc : Option ℕ → K → V → Option (Node K V)
  node_alloc none key val = none
  node_alloc (some a) key val = some (record { addr = a; key = key; val = val })

  -- Takes the node out of its neighbours: `node_unlink`, with `head` and `tail` moved on.
  unfoldable pub unlink : ℕ → List (Node K V) → List (Node K V)
  unlink a [] = []
  unlink a (n ∷ l) = if n.addr == a then l else n ∷ unlink a l

  abbrev pub list_init : NodeList K V
  list_init = record { nodes = []; size = 0 }

  abbrev pub list_clear : NodeList K V → NodeList K V
  list_clear l = record { nodes = []; size = 0 }

  pop_nodes : ℕ → List (Node K V) → Option (Node K V × NodeList K V)
  pop_nodes size [] = none
  pop_nodes size (n ∷ rest) = some (n, record { nodes = rest; size = size - 1 })

  -- `none` is the NULL of an empty list.
  unfoldable pub list_pop : NodeList K V → Option (Node K V × NodeList K V)
  unfolding pop_nodes
  list_pop l = pop_nodes l.size l.nodes

  unfoldable pub list_remove : NodeList K V → Node K V → NodeList K V
  list_remove l n = record { nodes = unlink n.addr l.nodes; size = l.size - 1 }

  unfoldable pub list_push : NodeList K V → Node K V → NodeList K V
  list_push l n = record { nodes = l.nodes ++ n ∷ []; size = l.size + 1 }

module _ {K V : Type 0} ⦃keys : Keys K⦄ where
  -- The loop of `hash_find` over a chain.
  unfoldable pub find : K → List (Node K V) → Option (Node K V)
  find k [] = none
  find k (n ∷ l) = if keys.keq n.key k then some n else find k l
