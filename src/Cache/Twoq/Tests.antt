-- ===== src/Cache/Twoq/Tests.antt =====
-- Runs of src/cache/twoq.c with one entry in each section, and the laws at that cache.
use libgpuarray.Base.{
  ℕ, suc, zero, ◌+◌, ◌%◌, ◌^◌, ◌≤◌, ◌≡◌, ◌==◌, refl, ◌∙◌, sym, true, false, some, none, [], ◌∷◌,
  arith, is_some,
}
use mathlib.Core.Option
use mathlib.Core.Option.{some-injective}
use mathlib.Core.Path.{subst}
use mathlib.Core.List.{Perm}
use libgpuarray.Cache.Node.{Node, find, list_push}
use libgpuarray.Cache.NatKeys.{nat_keys, node, same_result}
use libgpuarray.Cache.Hash.{bucket, hash_add, hash_find, slot, roundup2, hash_init}
use libgpuarray.Cache.Hash.Chain.{All}
use libgpuarray.Cache.Hash.Holds.{IsFresh}
use libgpuarray.Cache.Spec.{lookup, delete}
use libgpuarray.Cache.Spec.Laws.{all_entries}
use libgpuarray.Cache.Twoq.{
  TwoqCache, hot, cold, set_temp, cache_twoq, twoq_add, twoq_del, twoq_get, twoq_prune, drop_cold,
  cool_loop,
}
use libgpuarray.Cache.Twoq.Sections.{nodes}
use libgpuarray.Cache.Twoq.Get.{IsValid, contents}
use libgpuarray.Cache.Twoq.Del.{Without, twoq_del_lem}
use libgpuarray.Cache.Twoq.Parts.{parts, shrink}
use libgpuarray.Cache.Twoq.Prune.{Shrinks, twoq_prune-Shrinks}
use libgpuarray.Cache.Twoq.Insert.{Inserts, twoq_add-Inserts}
use libgpuarray.Cache.Twoq.Laws.{
  twoq_get-twoq_add, twoq_add_bounded, twoq_add-Perm, twoq_add_no_memory,
}
use libgpuarray.Cache.Twoq.Init.{cache_twoq-IsValid}

abbrev empty : TwoqCache ℕ ℕ
empty = record {
  table = record { keyval = [] ∷ [] ∷ [] ∷ [] ∷ []; nbuckets = 4; size = 0; freed = [] };
  hot = record { nodes = []; size = 0 };
  warm = record { nodes = []; size = 0 };
  cold = record { nodes = []; size = 0 };
  hot_size = 1;
  warm_size = 1;
  cold_size = 1;
  elasticity = 0;
  temp = λ a. hot;
}

abbrev one : TwoqCache ℕ ℕ
one = record empty {
  table = record {
    keyval = [] ∷ (node 100 5 50 ∷ []) ∷ [] ∷ [] ∷ [];
    nbuckets = 4;
    size = 1;
    freed = [];
  };
  hot = record { nodes = node 100 5 50 ∷ []; size = 1 };
  temp = set_temp (λ a. hot) 100 hot;
}

-- The second entry makes the first one cold.
abbrev two : TwoqCache ℕ ℕ
two = record empty {
  table = record {
    keyval = [] ∷ (node 100 5 50 ∷ []) ∷ (node 200 6 60 ∷ []) ∷ [] ∷ [];
    nbuckets = 4;
    size = 2;
    freed = [];
  };
  hot = record { nodes = node 200 6 60 ∷ []; size = 1 };
  cold = record { nodes = node 100 5 50 ∷ []; size = 1 };
  temp = set_temp (set_temp (set_temp (λ a. hot) 100 hot) 200 hot) 100 cold;
}

makes_empty : cache_twoq {K = ℕ} {V = ℕ} true true 1 1 1 0 ≡ some empty
unfolding cache_twoq hash_init roundup2
makes_empty = refl

makes_one : twoq_add (some 100) empty 5 50 ≡ some (true, one)
unfolding twoq_add twoq_del hash_find find slot hash_add twoq_prune cool_loop list_push drop_cold
makes_one = refl

makes_two : twoq_add (some 200) one 6 60 ≡ some (true, two)
unfolding twoq_add twoq_del hash_find find slot hash_add twoq_prune cool_loop list_push drop_cold
makes_two = refl

abbrev Off : ℕ → TwoqCache ℕ ℕ → Type 0
Off a c = (p : ℕ) → All (λ (m : Node ℕ ℕ). (m.addr == a) ≡ false) (bucket c.table p)

Off-empty : Off 100 empty
Off-empty zero = tt
Off-empty (suc zero) = tt
Off-empty (suc (suc zero)) = tt
Off-empty (suc (suc (suc zero))) = tt
Off-empty (suc (suc (suc (suc p)))) = tt

Off-one : Off 200 one
Off-one zero = tt
Off-one (suc zero) = (refl, tt)
Off-one (suc (suc zero)) = tt
Off-one (suc (suc (suc zero))) = tt
Off-one (suc (suc (suc (suc p)))) = tt

Off-two : Off 300 two
Off-two zero = tt
Off-two (suc zero) = (refl, tt)
Off-two (suc (suc zero)) = (refl, tt)
Off-two (suc (suc (suc zero))) = tt
Off-two (suc (suc (suc (suc p)))) = tt

empty-IsValid : IsValid empty
empty-IsValid =
    let (c, runs, v, s, sizes) =
      cache_twoq-IsValid 1 1 1 0 (omega arith) (omega arith) (omega arith) (omega arith) in
    subst IsValid (some-injective c empty (sym runs ∙ makes_empty)) v

one-IsFresh : IsFresh one.table (nodes one) 200
one-IsFresh = record { off_list = (refl, tt); off_chain = Off-one }

two-IsFresh : IsFresh two.table (nodes two) 300
two-IsFresh = record { off_list = (refl, (refl, tt)); off_chain = Off-two }

one-IsValid : IsValid one
one-IsValid =
    let (c, runs, v, b, b', b'') =
      twoq_add_bounded 5 50 100 empty-IsValid (record { off_list = tt; off_chain = Off-empty })
        (omega arith) in
    subst IsValid (same_result runs makes_one) v

two-IsValid : IsValid two
two-IsValid =
    let (c, runs, v, b, b', b'') =
      twoq_add_bounded 6 60 200 one-IsValid one-IsFresh (omega arith) in
    subst IsValid (same_result runs makes_two) v

twoq_del_lem_example :
    (c' : TwoqCache ℕ ℕ) × (twoq_del two 5 ≡ some (is_some (lookup 5 (contents two).live), c'))
    × IsValid c'
    × (contents c' ≡ delete 5 (contents two))
twoq_del_lem_example = twoq_del_lem 5 two-IsValid

twoq_prune-Shrinks_example :
    (c' : TwoqCache ℕ ℕ) × (twoq_prune two ≡ some c')
    × Shrinks two (shrink 1 1 ((1 + 0) % 2 ^ 64) (parts two)) c'
twoq_prune-Shrinks_example = twoq_prune-Shrinks two-IsValid.placed

twoq_add-Inserts_example :
    (c₁ c₂ : TwoqCache ℕ ℕ) × (twoq_del two 7 ≡ some (is_some (lookup 7 (contents two).live), c₁))
    × Without 7 two c₁
    × (twoq_add (some 300) two 7 70 ≡ some (true, c₂))
    × Inserts (7, 70) c₁ c₂
twoq_add-Inserts_example = twoq_add-Inserts 7 70 300 two-IsValid two-IsFresh

twoq_get-twoq_add_example :
    (c' c'' : TwoqCache ℕ ℕ) × (twoq_add (some 300) two 7 70 ≡ some (true, c'))
    × (twoq_get c' 7 ≡ some (some 70, c''))
twoq_get-twoq_add_example = twoq_get-twoq_add 7 7 70 300 two-IsValid two-IsFresh refl

twoq_add_bounded_example :
    (c' : TwoqCache ℕ ℕ) × (twoq_add (some 300) two 7 70 ≡ some (true, c'))
    × IsValid c'
    × (c'.hot.size ≤ 1)
    × (c'.warm.size ≤ 1)
    × (c'.cold.size ≤ 1 + 0)
twoq_add_bounded_example = twoq_add_bounded 7 70 300 two-IsValid two-IsFresh (omega arith)

twoq_add-Perm_example :
    (c' : TwoqCache ℕ ℕ) × (twoq_add (some 300) two 7 70 ≡ some (true, c'))
    × Perm (all_entries (contents c')) ((7, 70) ∷ all_entries (contents two))
twoq_add-Perm_example = twoq_add-Perm 7 70 300 two-IsValid two-IsFresh

twoq_add_no_memory_example :
    (c' : TwoqCache ℕ ℕ) × (twoq_add none two 5 70 ≡ some (false, c'))
    × IsValid c'
    × (contents c' ≡ delete 5 (contents two))
twoq_add_no_memory_example = twoq_add_no_memory 5 70 two-IsValid

cache_twoq-IsValid_example :
    (c : TwoqCache ℕ ℕ) × (cache_twoq true true 64 128 64 8 ≡ some c)
    × IsValid c
    × (contents c ≡ record { live = []; released = [] })
    × ((c.hot_size ≡ 64) × (c.warm_size ≡ 128) × (c.cold_size ≡ 64) × (c.elasticity ≡ 8))
cache_twoq-IsValid_example =
    cache_twoq-IsValid 64 128 64 8 (omega arith) (omega arith) (omega arith) (omega arith)
