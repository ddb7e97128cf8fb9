-- ===== src/Cache/Hash.antt =====
-- The chained hash table of src/cache/lru.c, of which src/cache/twoq.c has a copy.
-- A bucket is the chain of nodes along `h_next`. `freed` lists the nodes whose key and value went
-- to `kfree` and `vfree`. Counts of live nodes are plain numbers: memory holds fewer than 2 ^ 64.
pub mod Chain
pub mod Entries
pub mod Holds
pub mod Add
pub mod Del
pub mod Move
pub mod Init
pub mod Position
mod Tests
use libgpuarray.Base.{
  ℕ, zero, suc, ◌+◌, ◌-◌, ◌*◌, ◌/◌, ◌%◌, ◌^◌, Bool, Option, none, some, List, [], ◌∷◌, ◌++◌,
  bit_and, bit_or, ◌==◌, if◌then◌else◌, get_or, set, replicate,
}
use libgpuarray.Cache.Node.{Keys, Node, node_alloc, unlink, find}

pub record Hash (K V : Type 0) : Type 0 where
  pub keyval : List (List (Node K V))
  pub nbuckets : ℕ
  pub size : ℕ
  pub freed : List (Node K V)

-- `s |= s >> k` on 64 bits
abbrev pub smear : ℕ → ℕ → ℕ
smear k s = bit_or s (s / 2 ^ k)

unfoldable pub roundup2 : ℕ → ℕ
roundup2 s =
    (smear 32 (smear 16 (smear 8 (smear 4 (smear 2 (smear 1 ((s + 2 ^ 64 - 1) % 2 ^ 64)))))) + 1)
    % 2 ^ 64

module _ {K V : Type 0} where
  -- `calloc_ok` tells whether `calloc` returned memory.
  unfoldable pub hash_init : Bool → ℕ → Option (Hash K V)
  hash_init calloc_ok size =
      let n = roundup2 ((size + size / 6) % 2 ^ 64) in
      if calloc_ok
      then some (record { keyval = replicate n []; nbuckets = n; size = 0; freed = [] })
      else none

  flatten : List (List (Node K V)) → List (Node K V)
  flatten [] = []
  flatten (c ∷ cs) = c ++ flatten cs

  -- `node_free` on the head of each chain frees the whole chain.
  unfoldable pub hash_clear : Hash K V → Hash K V
  unfolding flatten
  hash_clear h = record { keyval = []; nbuckets = 0; size = 0; freed = h.freed ++ flatten h.keyval }

  -- Whether the walk over `h_next` meets the node.
  unfoldable pub meets : ℕ → List (Node K V) → Bool
  meets a [] = Bool.false
  meets a (n ∷ l) = if n.addr == a then Bool.true else meets a l

-- khash(key) & (h->nbuckets - 1)
unfoldable pub slot : {K : Type 0} ⦃keys : Keys K⦄ → ℕ → K → ℕ
slot ⦃keys⦄ nbuckets k = bit_and (keys.khash k) ((nbuckets + 2 ^ 64 - 1) % 2 ^ 64)

module _ {K V : Type 0} ⦃keys : Keys K⦄ where
  abbrev pub bucket : Hash K V → ℕ → List (Node K V)
  bucket h p = get_or h.keyval p []

  unfoldable pub hash_find : Hash K V → K → Option (Node K V)
  hash_find h k = find k (bucket h (slot h.nbuckets k))

  -- `mem` is the result of `malloc` in `node_alloc`.
  unfoldable pub hash_add : Option ℕ → Hash K V → K → V → Option (Node K V × Hash K V)
  hash_add mem h k v =
      let p = slot h.nbuckets k in
      elim (node_alloc mem k v) [
        | none ↦ none
        | some n ↦
            some (n, record h { keyval = set h.keyval p (n ∷ bucket h p); size = h.size + 1 })
      ]

  del_in : Hash K V → Node K V → ℕ → List (Node K V) → Option (Hash K V)
  del_in h n p [] = none
  del_in h n p (m ∷ c) =
      if meets n.addr (m ∷ c)
      then some (record h {
        keyval = set h.keyval p (unlink n.addr (m ∷ c));
        size = h.size - 1;
        freed = h.freed ++ n ∷ [];
      })
      else some h

  -- `none` is the fault of reading `h_next` through the NULL head of an empty bucket.
  unfoldable pub hash_del : Hash K V → Node K V → Option (Hash K V)
  unfolding del_in meets
  hash_del h n = let p = slot h.nbuckets n.key in del_in h n p (bucket h p)
