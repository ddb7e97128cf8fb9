-- ===== src/Cache/Lru/Init.antt =====
-- `cache_lru`: the constructor of src/cache/lru.c.
use libgpuarray.Base.{ℕ, ◌+◌, ◌/◌, ◌^◌, ◌%◌, ◌≤◌, ◌<◌, ◌≡◌, refl, true, some, [], arith, ◌>>=◌}
use libgpuarray.Cache.Node.{Keys, list_init}
use libgpuarray.Cache.Hash.Entries.{entries}
use libgpuarray.Cache.Hash.Init.{hash_init-Holds}
use libgpuarray.Cache.Lru.{LruCache, cache_lru}
use libgpuarray.Cache.Lru.Refine.{IsValid, contents}

-- With memory, and sizes whose sum is positive and leaves `roundup2` room, `cache_lru` makes a
-- valid cache without entries and with the limits asked for.
pub cache_lru-IsValid :
    {K V : Type 0} ⦃keys : Keys K⦄ (max_size elasticity : ℕ)
    → 0 < max_size + elasticity
    → (max_size + elasticity) + (max_size + elasticity) / 6 ≤ 2 ^ 63
    → (c : LruCache K V) × (cache_lru true true max_size elasticity ≡ some c)
      × IsValid c
      × (contents c ≡ record { live = []; released = [] })
      × (c.max_size ≡ max_size)
      × (c.elasticity ≡ elasticity)
unfolding cache_lru
cache_lru-IsValid max_size elasticity pos fits =
    let s = max_size + elasticity in
    let same : s % 2 ^ 64 ≡ s = omega arith in
    let (h, runs, t, none_freed, big) = hash_init-Holds s pos fits in
    (
      record { table = h; order = list_init; max_size = max_size; elasticity = elasticity },
      rw (same, runs, ◌>>=◌),
      record { holds = t; counted = refl },
      (λ i. record { live = []; released = entries (none_freed i) }),
      refl,
      refl,
    )
