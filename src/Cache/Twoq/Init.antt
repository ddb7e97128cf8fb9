-- ===== src/Cache/Twoq/Init.antt =====
-- `cache_twoq`: the constructor of src/cache/twoq.c.
use libgpuarray.Base.{
  ℕ, ◌+◌, ◌/◌, ◌^◌, ◌%◌, ◌≤◌, ◌<◌, ◌≡◌, refl, true, false, some, [], arith, ◌>>=◌, ◌||◌, ◌==◌,
}
use libgpuarray.Cache.Node.{Keys, list_init}
use libgpuarray.Cache.Hash.{Hash, hash_init}
use libgpuarray.Cache.Hash.Entries.{entries}
use libgpuarray.Cache.Hash.Init.{hash_init-Holds}
use libgpuarray.Cache.Twoq.{TwoqCache, hot, cache_twoq}
use libgpuarray.Cache.Twoq.Get.{IsValid, contents}

abbrev made : {K V : Type 0} → Hash K V → ℕ → ℕ → ℕ → ℕ → TwoqCache K V
made table h w k el = record {
  table = table;
  hot = list_init;
  warm = list_init;
  cold = list_init;
  hot_size = h;
  warm_size = w;
  cold_size = k;
  elasticity = el;
  temp = λ a. hot;
}

cache_twoq-made :
    {K V : Type 0} (h w k el : ℕ) (table : Hash K V)
    → 0 < h
    → 0 < w
    → 0 < k
    → h + w + k + el < 2 ^ 64
    → hash_init true (h + w + k + el) ≡ some table
    → cache_twoq true true h w k el ≡ some (made table h w k el)
unfolding cache_twoq
cache_twoq-made h w k el table ph pw pk fits runs =
    let same : (h + w + k + el) % 2 ^ 64 ≡ h + w + k + el = omega arith in
    let ok : (h == 0 || w == 0 || k == 0) ≡ false = ground arith in rw (ok, same, runs, ◌>>=◌)

-- With memory, and positive sizes whose sum leaves `roundup2` room, `cache_twoq` makes a valid
-- cache without entries, with the three sizes and the elasticity that it was asked for.
pub cache_twoq-IsValid :
    {K V : Type 0} ⦃keys : Keys K⦄ (h w k el : ℕ)
    → 0 < h
    → 0 < w
    → 0 < k
    → (h + w + k + el) + (h + w + k + el) / 6 ≤ 2 ^ 63
    → (c : TwoqCache K V) × (cache_twoq true true h w k el ≡ some c)
      × IsValid c
      × (contents c ≡ record { live = []; released = [] })
      × ((c.hot_size ≡ h) × (c.warm_size ≡ w) × (c.cold_size ≡ k) × (c.elasticity ≡ el))
cache_twoq-IsValid h w k el ph pw pk fits =
    let (table, runs, t, none_freed, big) = hash_init-Holds (h + w + k + el) (omega arith) fits in
    (
      made table h w k el,
      cache_twoq-made h w k el table ph pw pk (omega arith) runs,
      record {
        placed = record {
          holds = t;
          sorted = record {
            hot_counted = refl;
            warm_counted = refl;
            cold_counted = refl;
            hot_temp = tt;
            warm_temp = tt;
            cold_temp = tt;
          };
        };
        hot_fits = omega arith;
        warm_fits = omega arith;
        hot_positive = ph;
        warm_positive = pw;
      },
      (λ i. record { live = []; released = entries (none_freed i) }),
      (refl, refl, refl, refl),
    )
