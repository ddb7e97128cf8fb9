-- ===== src/Cache/Lru.antt =====
-- src/cache/lru.c: a cache that evicts the entries used least recently.
pub mod Refine
pub mod Prune
pub mod Insert
pub mod Laws
pub mod Init
mod Tests
use libgpuarray.Base.{
  ℕ, ◌+◌, ◌-◌, ◌%◌, ◌^◌, Bool, true, false, ◌&&◌, Option, none, some, List, [], ◌∷◌, ltb,
  if◌then◌else◌, ◌>>=◌,
}
use libgpuarray.Cache.Node.{
  Keys, Node, NodeList, list_init, list_clear, list_remove, list_push, list_pop,
}
use libgpuarray.Cache.Hash.{Hash, hash_init, hash_clear, hash_find, hash_add, hash_del}

pub record LruCache (K V : Type 0) : Type 0 where
  pub table : Hash K V
  pub order : NodeList K V
  pub max_size : ℕ
  pub elasticity : ℕ

module _ {K V : Type 0} where
  -- `cache_lru`, on whether `malloc` and `calloc` returned memory.
  unfoldable pub cache_lru : Bool → Bool → ℕ → ℕ → Option (LruCache K V)
  cache_lru false calloc_ok max_size elasticity = none
  cache_lru true calloc_ok max_size elasticity = do
    table ← hash_init calloc_ok ((max_size + elasticity) % 2 ^ 64)
    some (record { table = table; order = list_init; max_size = max_size; elasticity = elasticity })

  unfoldable pub lru_destroy : LruCache K V → LruCache K V
  lru_destroy c = record c { table = hash_clear c.table; order = list_clear c.order }

module _ {K V : Type 0} ⦃keys : Keys K⦄ where
  -- The loop of `lru_prune`: each round pops the head of the list, given here by its nodes and its
  -- count. `none` is the fault of `hash_del` on a NULL node.
  unfoldable pub prune_loop : ℕ → Hash K V → ℕ → List (Node K V) → Option (Hash K V × NodeList K V)
  prune_loop max h size [] =
      if ltb max h.size then none else some (h, record { nodes = []; size = size })
  prune_loop max h size (n ∷ rest) =
      if ltb max h.size
      then hash_del h n >>= (λ h'. prune_loop max h' (size - 1) rest)
      else some (h, record { nodes = n ∷ rest; size = size })

  unfoldable pub lru_prune : LruCache K V → Option (LruCache K V)
  lru_prune c =
      if ltb 0 c.max_size && ltb ((c.max_size + c.elasticity) % 2 ^ 64) c.table.size
      then (do
        (h, l) ← prune_loop c.max_size c.table c.order.size c.order.nodes
        some (record c { table = h; order = l }))
      else some c

  -- The result is 1 (`true`) if the key was there.
  unfoldable pub lru_del : LruCache K V → K → Option (Bool × LruCache K V)
  lru_del c k = elim (hash_find c.table k) [
    | none ↦ some (false, c)
    | some n ↦ do
      h ← hash_del c.table n
      some (true, record c { table = h; order = list_remove c.order n })
  ]

  -- `mem` is what `malloc` returns for the node. The result is 0 (`true`) or -1 (`false`).
  unfoldable pub lru_add : Option ℕ → LruCache K V → K → V → Option (Bool × LruCache K V)
  lru_add mem c key val = do
    (_, c') ← lru_del c key
    elim (hash_add mem c'.table key val) [
      | none ↦ some (false, c')
      | some (n, h) ↦ do
        c'' ← lru_prune (record c' { table = h; order = list_push c'.order n })
        some (true, c'')
    ]

  unfoldable pub lru_get : LruCache K V → K → Option V × LruCache K V
  lru_get c key = elim (hash_find c.table key) [
    | none ↦ (none, c)
    | some n ↦ (some n.val, record c { order = list_push (list_remove c.order n) n })
  ]
