-- ===== src/Cache/Lru/Insert.antt =====
-- `lru_add`: the old entry under the key goes, the new one becomes the entry used last, and the
-- cache is pruned.
use libgpuarray.Base.{
  ℕ, ◌+◌, ◌%◌, ◌^◌, ◌≡◌, ◌∙◌, true, some, [], ◌∷◌, ◌++◌, ◌>>=◌, length, length-append, arith, none,
}
use libgpuarray.Cache.Node.{Keys, Node, find, list_push}
use libgpuarray.Cache.Hash.{Hash, hash_add}
use libgpuarray.Cache.Hash.Holds.{IsFresh}
use libgpuarray.Cache.Hash.Entries.{entries, entries-append}
use libgpuarray.Cache.Hash.Add
use libgpuarray.Cache.Hash.Add.{hash_add-Holds}
use libgpuarray.Cache.Spec.{Contents, evict, delete}
use libgpuarray.Cache.Lru.{LruCache, lru_add}
use libgpuarray.Cache.Lru.Refine.{IsValid, contents, Becomes, lru_del-Lacks}
use libgpuarray.Cache.Lru.Prune.{excess, lru_prune-refines}

module _ {K V : Type 0} where
  -- Appends an entry, then evicts what is over the limits.
  unfoldable pub append_and_evict : ℕ → ℕ → K × V → Contents K V → Contents K V
  append_and_evict max limit e s =
      let l = s.live ++ e ∷ [] in evict (excess max limit (length l)) (record s { live = l })

  -- `lru_add` on the abstract cache.
  unfoldable pub insert : ⦃keys : Keys K⦄ → ℕ → ℕ → K → V → Contents K V → Contents K V
  insert max limit k v s = append_and_evict max limit (k, v) (delete k s)

module _ {K V : Type 0} ⦃keys : Keys K⦄ where
  insert_path :
      {max max' el el' : ℕ} {s₁ s₂ : Contents K V} (s : Contents K V) (k : K) (x : V)
      → max' ≡ max
      → el' ≡ el
      → s₁ ≡ delete k s
      → s₂ ≡ record s₁ { live = s₁.live ++ (k, x) ∷ [] }
      → evict (excess max' ((max' + el') % 2 ^ 64) (length s₂.live)) s₂
        ≡ insert max ((max + el) % 2 ^ 64) k x s
  unfolding insert append_and_evict
  insert_path s k x p q d e = rw (p, q, e, d)

  pushed :
      {c : LruCache K V} (k : K) (x : V) (a : ℕ)
      → IsValid c
      → IsFresh c.table c.order.nodes a
      → find k c.order.nodes ≡ none
      → (n : Node K V) × (h : Hash K V) × (hash_add (some a) c.table k x ≡ some (n, h))
        × IsValid (record c { table = h; order = list_push c.order n })
        × (contents (record c { table = h; order = list_push c.order n })
            ≡ record (contents c) { live = (contents c).live ++ (k, x) ∷ [] })
  unfolding list_push
  pushed {c} k x a v fresh absent =
      let l = c.order.nodes in
      let (runs, t) = hash_add-Holds c.table l v.holds a k x fresh absent in
      let n = Add.new_node c.table l v.holds a k x fresh absent in
      (
        n,
        Add.added c.table l v.holds a k x fresh absent,
        runs,
        record { holds = t; counted = omega (arith, v.counted, length-append l (n ∷ [])) },
        λ i. record { live = entries-append l (n ∷ []) i; released = entries c.table.freed },
      )

  -- With memory for the node `lru_add` never faults, reports success, and is `insert`.
  pub lru_add-refines :
      {c : LruCache K V} (k : K) (x : V) (a : ℕ)
      → IsValid c
      → IsFresh c.table c.order.nodes a
      → (c' : LruCache K V) × (lru_add (some a) c k x ≡ some (true, c'))
        × Becomes c (insert c.max_size ((c.max_size + c.elasticity) % 2 ^ 64) k x (contents c)) c'
  unfolding lru_add
  lru_add-refines {c} k x a v fresh =
      let (c₁, run₁, b₁, lacks) = lru_del-Lacks k v in
      let (n, h, run₂, v₂, e) = pushed k x a b₁.valid (lacks.keeps_fresh a fresh) lacks.absent in
      let (c₃, run₃, b₃) = lru_prune-refines v₂ in
      (
        c₃,
        rw (run₁, ◌>>=◌, run₂, run₃),
        record {
          valid = b₃.valid;
          holding =
              b₃.holding ∙ insert_path (contents c) k x b₁.same_max b₁.same_elasticity b₁.holding e;
          same_max = b₃.same_max ∙ b₁.same_max;
          same_elasticity = b₃.same_elasticity ∙ b₁.same_elasticity;
        },
      )
