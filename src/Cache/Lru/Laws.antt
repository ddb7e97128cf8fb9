-- ===== src/Cache/Lru/Laws.antt =====
-- What a client of src/cache/lru.c sees after `lru_add` and `lru_del`.
use libgpuarray.Base.{
  ℕ, ◌+◌, ◌-◌, ◌%◌, ◌^◌, ◌≤◌, ◌<◌, ◌≡◌, ap, ◌∙◌, sym, true, false, none, some, [], ◌∷◌, ◌++◌, arith,
  length, length-append, length-drop, ◌>>=◌,
}
use mathlib.Core.Option
use mathlib.Core.Path.{subst}
use mathlib.Core.List.Perm
use mathlib.Core.List.{Perm}
use libgpuarray.Cache.Node.{Keys}
use libgpuarray.Cache.Hash.{hash_add}
use libgpuarray.Cache.Hash.Entries.{entry, lookup-entries, length-entries}
use libgpuarray.Cache.Hash.Holds.{IsFresh}
use libgpuarray.Cache.Spec.{Contents, lookup, delete, evict}
use libgpuarray.Cache.Spec.Laws.{
  lookup_last, lookup_congr, delete-Perm, evict-Perm, push-Perm, all_entries,
}
use libgpuarray.Cache.Lru.{LruCache, lru_add, lru_get}
use libgpuarray.Cache.Lru.Refine.{IsValid, contents, lru_del-Lacks, lru_get-refines}
use libgpuarray.Cache.Lru.Prune.{excess}
use libgpuarray.Cache.Lru.Insert.{insert, append_and_evict, lru_add-refines}

excess-le : (max limit n : ℕ) → excess max limit (n + 1) ≤ n
excess-le max limit n = ground arith

excess_bound : (max limit n : ℕ) → 0 < max → max ≤ limit → n - excess max limit n ≤ limit
excess_bound max limit n h k = ground arith

module _ {K V : Type 0} ⦃keys : Keys K⦄ where
  -- A key that was deleted is absent from the abstract cache.
  lookup-delete :
      {c : LruCache K V} (k : K) → IsValid c → lookup k (delete k (contents c)).live ≡ none
  lookup-delete {c} k v =
      let (c', runs, b, lacks) = lru_del-Lacks k v in
      subst (λ (s : Contents K V). lookup k s.live ≡ none) b.holding
        (lookup-entries k c'.order.nodes ∙ ap (Option.map entry) lacks.absent)

  lookup-insert :
      (max limit : ℕ) (k q : K) (x : V) (s : Contents K V)
      → lookup k (delete k s).live ≡ none
      → keys.keq k q ≡ true
      → lookup q (insert max limit k x s).live ≡ some (k, x)
  unfolding insert append_and_evict evict
  lookup-insert max limit k q x s gone e =
      let l = (delete k s).live in
      lookup_last q (k, x) _ l (sym (lookup_congr k q l e) ∙ gone) e
        (rw length-append (excess-le max limit (length l)))

  length-insert :
      (max limit : ℕ) (k : K) (x : V) (s : Contents K V)
      → 0 < max
      → max ≤ limit
      → length (insert max limit k x s).live ≤ limit
  unfolding insert append_and_evict evict
  length-insert max limit k x s h g =
      let l = (delete k s).live ++ (k, x) ∷ [] in
      rw (length-drop (excess max limit (length l)) l) (excess_bound max limit (length l) h g)

  insert-Perm :
      (max limit : ℕ) (k : K) (x : V) (s : Contents K V)
      → Perm (all_entries (insert max limit k x s)) ((k, x) ∷ all_entries s)
  unfolding insert append_and_evict
  insert-Perm max limit k x s =
      Perm.trans (evict-Perm _ _)
        (Perm.trans (push-Perm (k, x) (delete k s)) (Perm.cons (k, x) (delete-Perm k s)))

  -- The new entry is found right after `lru_add`, under every key equal to its key: pruning never
  -- evicts it.
  pub lru_get-lru_add :
      {c : LruCache K V} (k q : K) (x : V) (a : ℕ)
      → IsValid c
      → IsFresh c.table c.order.nodes a
      → keys.keq k q ≡ true
      → (c' : LruCache K V) × (lru_add (some a) c k x ≡ some (true, c'))
        × ((lru_get c' q).0 ≡ some x)
  lru_get-lru_add {c} k q x a v fresh e =
      let (c', runs, b) = lru_add-refines k x a v fresh in
      (
        c',
        runs,
        (lru_get-refines q b.valid).0
            ∙ ap (λ (s : Contents K V). Option.map (λ e. e.1) (lookup q s.live)) b.holding
            ∙ ap (Option.map (λ e. e.1))
                (lookup-insert _ _ k q x (contents c) (lookup-delete k v) e),
      )

  -- With a limit on the size, and limits whose sum fits `size_t`, a cache never holds more than
  -- `max_size + elasticity` entries after `lru_add`.
  pub lru_add_bounded :
      {c : LruCache K V} (k : K) (x : V) (a : ℕ)
      → IsValid c
      → IsFresh c.table c.order.nodes a
      → 0 < c.max_size
      → c.max_size + c.elasticity < 2 ^ 64
      → (c' : LruCache K V) × (lru_add (some a) c k x ≡ some (true, c'))
        × (c'.table.size ≤ c.max_size + c.elasticity)
  lru_add_bounded {c} k x a v fresh pos fits =
      let (c', runs, b) = lru_add-refines k x a v fresh in
      let limit = (c.max_size + c.elasticity) % 2 ^ 64 in
      (
        c',
        runs,
        omega (
          arith,
          b.valid.holds.sized,
          length-entries c'.order.nodes,
          ap (λ (s : Contents K V). length s.live) b.holding,
          length-insert c.max_size limit k x (contents c) pos (omega arith),
        ),
      )

  -- With memory for the node, at an address that no node of the cache has, `lru_add` loses no key or
  -- value and releases none twice: the live entries and the released ones are those before it and the
  -- new one, in some order.
  pub lru_add-Perm :
      {c : LruCache K V} (k : K) (x : V) (a : ℕ)
      → IsValid c
      → IsFresh c.table c.order.nodes a
      → (c' : LruCache K V) × (lru_add (some a) c k x ≡ some (true, c'))
        × Perm (all_entries (contents c')) ((k, x) ∷ all_entries (contents c))
  lru_add-Perm {c} k x a v fresh =
      let (c', runs, b) = lru_add-refines k x a v fresh in
      (
        c',
        runs,
        subst (λ s. Perm (all_entries s) ((k, x) ∷ all_entries (contents c))) (sym b.holding)
            (insert-Perm _ _ k x (contents c)),
      )

  -- Where `malloc` has no memory for the node, `lru_add` returns -1: the old entry under the key
  -- is gone, and the new key and value are not released.
  pub lru_add_no_memory :
      {c : LruCache K V} (k : K) (x : V)
      → IsValid c
      → (c' : LruCache K V) × (lru_add none c k x ≡ some (false, c'))
        × (contents c' ≡ delete k (contents c))
  unfolding lru_add hash_add
  lru_add_no_memory k x v =
      let (c', runs, b, lacks) = lru_del-Lacks k v in (c', rw (runs, ◌>>=◌), b.holding)
