-- ===== src/Cache/Lru/Refine.antt =====
-- The operations of src/cache/lru.c implement those of the abstract cache.
use libgpuarray.Base.{
  ℕ, ◌≡◌, refl, ap, ◌∙◌, inl, inr, true, none, none, some, [], ◌∷◌, ◌++◌, arith, ◌>>=◌, is_some,
  length, Option-cases, length-append, sym,
}
use mathlib.Core.Option
use libgpuarray.Cache.Node.{Keys, Node, unlink, find, list_remove, list_push}
use libgpuarray.Cache.Hash.{Hash, hash_find, hash_del}
use libgpuarray.Cache.Hash.Chain.{All-find, All-unlink, find-keq}
use libgpuarray.Cache.Hash.Holds.{Holds, IsKnown, IsFresh, Holds-SameNodes}
use libgpuarray.Cache.Hash.Entries.{entry, entries, entries-append, lookup-entries, entries-unlink}
use libgpuarray.Cache.Hash.Del
use libgpuarray.Cache.Hash.Del.{hash_del-Holds}
use libgpuarray.Cache.Hash.Move.{find_self, move_to_end}
use libgpuarray.Cache.Spec.{Contents, lookup, remove, delete, touch}
use libgpuarray.Cache.Lru.{LruCache, lru_del, lru_get}

module _ {K V : Type 0} ⦃keys : Keys K⦄ where
  pub record IsValid (c : LruCache K V) : Type 0 where
    pub holds : Holds c.table c.order.nodes
    pub counted : c.order.size ≡ length c.order.nodes

  abbrev pub contents : LruCache K V → Contents K V
  contents c = record { live = entries c.order.nodes; released = entries c.table.freed }

  -- `c` became the valid cache `c'` with the contents `s` and the same limits.
  pub record Becomes (c : LruCache K V) (s : Contents K V) (c' : LruCache K V) : Type 0 where
    pub valid : IsValid c'
    pub holding : contents c' ≡ s
    pub same_max : c'.max_size ≡ c.max_size
    pub same_elasticity : c'.elasticity ≡ c.elasticity

  -- The node of a hit: present under its own key, and known.
  found-IsKnown :
      {c : LruCache K V} (k : K) (n : Node K V)
      → IsValid c
      → hash_find c.table k ≡ some n
      → (find k c.order.nodes ≡ some n)
        × (find n.key c.order.nodes ≡ some n)
        × IsKnown c.table c.order.nodes n
        × (keys.keq n.key k ≡ true)
  found-IsKnown {c} k n v h =
      let l = c.order.nodes in
      let f : find k l ≡ some n = sym (v.holds.reads k) ∙ h in
      (f, find_self k l n f, All-find _ k l n f v.holds.known, find-keq k l n f)

  lookup_miss :
      {c : LruCache K V} (k : K)
      → IsValid c
      → hash_find c.table k ≡ none
      → lookup k (contents c).live ≡ none
  lookup_miss {c} k v h =
      lookup-entries k c.order.nodes ∙ ap (Option.map entry) (sym (v.holds.reads k) ∙ h)

  lookup_hit :
      {c : LruCache K V} (k : K) (n : Node K V)
      → IsValid c
      → hash_find c.table k ≡ some n
      → lookup k (contents c).live ≡ some (entry n)
  lookup_hit {c} k n v h =
      lookup-entries k c.order.nodes ∙ ap (Option.map entry) (sym (v.holds.reads k) ∙ h)

  pub unchanged : {c : LruCache K V} → IsValid c → Becomes c (contents c) c
  unchanged v = record { valid = v; holding = refl; same_max = refl; same_elasticity = refl }

  moved :
      {c : LruCache K V} (k : K) (n : Node K V)
      → IsValid c
      → hash_find c.table k ≡ some n
      → Becomes c
          (record (contents c) { live = remove k (contents c).live ++ entry n ∷ [] })
          (record c { order = list_push (list_remove c.order n) n })
  unfolding list_push list_remove
  moved {c} k n v h =
      let (f, g, known, e) = found-IsKnown k n v h in
      let l = c.order.nodes in
      let s = move_to_end n l known.in_list g v.holds.single in
      record {
        valid = record {
          holds = Holds-SameNodes s v.holds;
          counted =
              omega (arith, v.counted, s.same_length, length-append (unlink n.addr l) (n ∷ []));
        };
        holding = λ i. record {
          live =
              (entries-append (unlink n.addr l) (n ∷ [])
                  ∙ ap (λ t. t ++ entry n ∷ []) (entries-unlink n k l e known.in_list))
                i;
          released = entries c.table.freed;
        };
        same_max = refl;
        same_elasticity = refl;
      }

  -- A lookup moves a hit to the end of the order and returns its value; nothing is released.
  pub lru_get-refines :
      {c : LruCache K V} (k : K)
      → IsValid c
      → ((lru_get c k).0 ≡ Option.map (λ e. e.1) (lookup k (contents c).live))
        × Becomes c (record (contents c) { live = touch k (contents c).live }) (lru_get c k).1
  unfolding lru_get touch
  lru_get-refines {c} k v = elim (Option-cases (hash_find c.table k)) [
    | inl miss ↦ rw (miss, lru_get, lookup_miss k v miss, touch) (refl, unchanged v)
    | inr (n, hit) ↦ rw (hit, lru_get, lookup_hit k n v hit, touch) (refl, moved k n v hit)
  ]

  -- No node of `c'` is new, and none has the key.
  pub record Lacks (k : K) (c c' : LruCache K V) : Type 0 where
    pub absent : find k c'.order.nodes ≡ none
    pub keeps_fresh : (a : ℕ) → IsFresh c.table c.order.nodes a → IsFresh c'.table c'.order.nodes a

  removed :
      {c : LruCache K V} (k : K) (n : Node K V)
      → IsValid c
      → hash_find c.table k ≡ some n
      → (h : Hash K V) × (hash_del c.table n ≡ some h)
        × Becomes c
            (record {
              live = remove k (contents c).live;
              released = (contents c).released ++ entry n ∷ [];
            })
            (record c { table = h; order = list_remove c.order n })
        × Lacks k c (record c { table = h; order = list_remove c.order n })
  unfolding list_remove
  removed {c} k n v h =
      let (f, g, known, e) = found-IsKnown k n v h in
      let l = c.order.nodes in
      let (runs, t) = hash_del-Holds c.table l v.holds n g in
      (
        Del.deleted c.table l v.holds n g,
        runs,
        record {
          valid = record { holds = t; counted = omega (arith, v.counted, t.sized, v.holds.sized) };
          holding = λ i. record {
            live = entries-unlink n k l e known.in_list i;
            released = entries-append c.table.freed (n ∷ []) i;
          };
          same_max = refl;
          same_elasticity = refl;
        },
        record {
          absent = Del.absent_after c.table l v.holds n g k e;
          keeps_fresh = λ a s. record {
            off_list = All-unlink _ n.addr l s.off_list;
            off_chain = Del.All-deleted c.table l v.holds n g _ s.off_chain;
          };
        },
      )

  pub lru_del-Lacks :
      {c : LruCache K V} (k : K)
      → IsValid c
      → (c' : LruCache K V) × (lru_del c k ≡ some (is_some (lookup k (contents c).live), c'))
        × Becomes c (delete k (contents c)) c'
        × Lacks k c c'
  unfolding lru_del delete
  lru_del-Lacks {c} k v = elim (Option-cases (hash_find c.table k)) [
    | inl miss ↦ (
      c,
      rw (miss, lru_del, lookup_miss k v miss),
      rw (lookup_miss k v miss, delete) (unchanged v),
      record { absent = sym (v.holds.reads k) ∙ miss; keeps_fresh = λ a s. s },
    )
    | inr (n, hit) ↦
        let (h, runs, b, lacks) = removed k n v hit in
        (
          record c { table = h; order = list_remove c.order n },
          rw (hit, lru_del, lookup_hit k n v hit, runs, ◌>>=◌),
          rw (lookup_hit k n v hit, delete) b,
          lacks,
        )
  ]

  -- A deletion never faults; it tells whether the key was there, and releases its entry.
  pub lru_del-refines :
      {c : LruCache K V} (k : K)
      → IsValid c
      → (c' : LruCache K V) × (lru_del c k ≡ some (is_some (lookup k (contents c).live), c'))
        × Becomes c (delete k (contents c)) c'
  lru_del-refines k v = let (c', runs, b, lacks) = lru_del-Lacks k v in (c', runs, b)
