-- ===== src/Cache/Lru/Tests.antt =====
-- Runs of src/cache/lru.c on a cache for one entry, and the laws at that cache.
use libgpuarray.Base.{
  ℕ, suc, zero, ◌+◌, ◌%◌, ◌^◌, ◌≤◌, ◌≡◌, refl, ◌∙◌, sym, true, false, some, none, [], ◌∷◌, arith,
  ◌==◌, is_some,
}
use mathlib.Core.Path.{subst}
use mathlib.Core.List.{Perm}
use mathlib.Core.Option
use mathlib.Core.Option.{some-injective}
use libgpuarray.Cache.Node.{Node}
use libgpuarray.Cache.NatKeys.{nat_keys, node, same_result}
use libgpuarray.Cache.Hash.{bucket, hash_find, slot, hash_init, hash_add, roundup2, hash_del}
use libgpuarray.Cache.Hash.Chain.{All}
use libgpuarray.Cache.Hash.Holds.{IsFresh}
use libgpuarray.Cache.Spec.{lookup, delete, evict, touch}
use libgpuarray.Cache.Spec.Laws.{all_entries}
use libgpuarray.Cache.Lru.{
  LruCache, cache_lru, lru_add, lru_del, lru_get, lru_prune, Node, prune_loop,
}
use libgpuarray.Cache.Lru.Refine.{IsValid, contents, Becomes, lru_get-refines, lru_del-refines}
use libgpuarray.Cache.Lru.Prune.{excess, lru_prune-refines}
use libgpuarray.Cache.Lru.Insert.{insert, lru_add-refines}
use libgpuarray.Cache.Lru.Laws.{lru_get-lru_add, lru_add_bounded, lru_add-Perm, lru_add_no_memory}
use libgpuarray.Cache.Lru.Init.{cache_lru-IsValid}
use libgpuarray.Cache.Node.{unlink, list_push, find}

-- `cache_lru` with a limit of one entry.
abbrev empty : LruCache ℕ ℕ
empty = record {
  table = record { keyval = [] ∷ []; nbuckets = 1; size = 0; freed = [] };
  order = record { nodes = []; size = 0 };
  max_size = 1;
  elasticity = 0;
}

abbrev one : LruCache ℕ ℕ
one = record {
  table = record { keyval = (node 100 5 50 ∷ []) ∷ []; nbuckets = 1; size = 1; freed = [] };
  order = record { nodes = node 100 5 50 ∷ []; size = 1 };
  max_size = 1;
  elasticity = 0;
}

makes_empty : cache_lru {K = ℕ} {V = ℕ} true true 1 0 ≡ some empty
unfolding cache_lru hash_init roundup2
makes_empty = refl

makes_one : lru_add (some 100) empty 5 50 ≡ some (true, one)
unfolding lru_add lru_del hash_find find slot hash_add lru_prune list_push
makes_one = refl

-- The second entry evicts the first.
evicts :
    lru_add (some 200) one 6 60
    ≡ some (
      true,
      record {
        table = record {
          keyval = (node 200 6 60 ∷ []) ∷ [];
          nbuckets = 1;
          size = 1;
          freed = node 100 5 50 ∷ [];
        };
        order = record { nodes = node 200 6 60 ∷ []; size = 1 };
        max_size = 1;
        elasticity = 0;
      },
    )
unfolding lru_add lru_del hash_find find slot hash_add lru_prune prune_loop list_push hash_del
    unlink
evicts = refl

off_empty : (p : ℕ) → All (λ (m : Node ℕ ℕ). (m.addr == 100) ≡ false) (bucket empty.table p)
off_empty zero = tt
off_empty (suc p) = tt

empty-IsValid : IsValid empty
empty-IsValid =
    let (c, runs, v, s, m, l) = cache_lru-IsValid 1 0 (omega arith) (omega arith) in
    subst IsValid (some-injective c empty (sym runs ∙ makes_empty)) v

one-IsValid : IsValid one
one-IsValid =
    let (c, runs, b) =
      lru_add-refines 5 50 100 empty-IsValid (record { off_list = tt; off_chain = off_empty }) in
    subst IsValid (same_result runs makes_one) b.valid

off_one : (p : ℕ) → All (λ (m : Node ℕ ℕ). (m.addr == 200) ≡ false) (bucket one.table p)
off_one zero = (refl, tt)
off_one (suc p) = tt

one-IsFresh : IsFresh one.table one.order.nodes 200
one-IsFresh = record { off_list = (refl, tt); off_chain = off_one }

lru_add-refines_example :
    (c' : LruCache ℕ ℕ) × (lru_add (some 200) one 6 60 ≡ some (true, c'))
    × Becomes one (insert 1 ((1 + 0) % 2 ^ 64) 6 60 (contents one)) c'
lru_add-refines_example = lru_add-refines 6 60 200 one-IsValid one-IsFresh

lru_get-refines_example :
    ((lru_get one 5).0 ≡ Option.map (λ e. e.1) (lookup 5 (contents one).live))
    × Becomes one (record (contents one) { live = touch 5 (contents one).live }) (lru_get one 5).1
lru_get-refines_example = lru_get-refines 5 one-IsValid

lru_del-refines_example :
    (c' : LruCache ℕ ℕ) × (lru_del one 5 ≡ some (is_some (lookup 5 (contents one).live), c'))
    × Becomes one (delete 5 (contents one)) c'
lru_del-refines_example = lru_del-refines 5 one-IsValid

lru_prune-refines_example :
    (c' : LruCache ℕ ℕ) × (lru_prune one ≡ some c')
    × Becomes one (evict (excess 1 ((1 + 0) % 2 ^ 64) 1) (contents one)) c'
lru_prune-refines_example = lru_prune-refines one-IsValid

lru_get-lru_add_example :
    (c' : LruCache ℕ ℕ) × (lru_add (some 200) one 6 60 ≡ some (true, c'))
    × ((lru_get c' 6).0 ≡ some 60)
lru_get-lru_add_example = lru_get-lru_add 6 6 60 200 one-IsValid one-IsFresh refl

lru_add_bounded_example :
    (c' : LruCache ℕ ℕ) × (lru_add (some 200) one 6 60 ≡ some (true, c')) × (c'.table.size ≤ 1 + 0)
lru_add_bounded_example =
    lru_add_bounded 6 60 200 one-IsValid one-IsFresh (omega arith) (omega arith)

lru_add-Perm_example :
    (c' : LruCache ℕ ℕ) × (lru_add (some 200) one 6 60 ≡ some (true, c'))
    × Perm (all_entries (contents c')) ((6, 60) ∷ all_entries (contents one))
lru_add-Perm_example = lru_add-Perm 6 60 200 one-IsValid one-IsFresh

lru_add_no_memory_example :
    (c' : LruCache ℕ ℕ) × (lru_add none one 5 60 ≡ some (false, c'))
    × (contents c' ≡ delete 5 (contents one))
lru_add_no_memory_example = lru_add_no_memory 5 60 one-IsValid

cache_lru-IsValid_example :
    (c : LruCache ℕ ℕ) × (cache_lru true true 64 8 ≡ some c)
    × IsValid c
    × (contents c ≡ record { live = []; released = [] })
    × (c.max_size ≡ 64)
    × (c.elasticity ≡ 8)
cache_lru-IsValid_example = cache_lru-IsValid 64 8 (omega arith) (omega arith)
