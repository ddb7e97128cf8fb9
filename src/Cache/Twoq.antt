-- ===== src/Cache/Twoq.antt =====
-- src/cache/twoq.c: a cache in three sections. New entries are hot, entries that leave the hot
-- section are cold, cold entries that are used again become warm, and cold entries are evicted.
pub mod Sections
pub mod Cool
pub mod Use
pub mod Get
pub mod Del
pub mod Evict
pub mod Parts
pub mod Prune
pub mod Insert
pub mod Laws
pub mod Init
mod Tests
use libgpuarray.Base.{
  ℕ, ◌+◌, ◌-◌, ◌%◌, ◌^◌, Bool, true, false, ◌||◌, Option, none, some, List, [], ◌∷◌, ltb, ◌==◌,
  if◌then◌else◌, ◌>>=◌,
}
use libgpuarray.Cache.Node.{
  Keys, Node, NodeList, list_init, list_clear, list_remove, list_push, list_pop,
}
use libgpuarray.Cache.Hash.{Hash, hash_init, hash_clear, hash_find, hash_add, hash_del}

-- The field `temp` of a node.
pub data Temp : Type 0 where
  hot warm cold : Temp

-- `temp` gives the temperature of a node by its address.
pub record TwoqCache (K V : Type 0) : Type 0 where
  pub table : Hash K V
  pub hot : NodeList K V
  pub warm : NodeList K V
  pub cold : NodeList K V
  pub hot_size : ℕ
  pub warm_size : ℕ
  pub cold_size : ℕ
  pub elasticity : ℕ
  pub temp : ℕ → Temp

abbrev pub set_temp : (ℕ → Temp) → ℕ → Temp → ℕ → Temp
set_temp f a t b = if b == a then t else f b

module _ {K V : Type 0} where
  -- `cache_twoq`, on whether `malloc` and `calloc` returned memory. `none` is the NULL result.
  unfoldable pub cache_twoq : Bool → Bool → ℕ → ℕ → ℕ → ℕ → Option (TwoqCache K V)
  cache_twoq malloc_ok calloc_ok hot_size warm_size cold_size elasticity =
      if hot_size == 0 || warm_size == 0 || cold_size == 0
      then none
      else if malloc_ok
      then (do
        table ← hash_init calloc_ok ((hot_size + warm_size + cold_size + elasticity) % 2 ^ 64)
        some (record {
          table = table;
          hot = list_init;
          warm = list_init;
          cold = list_init;
          hot_size = hot_size;
          warm_size = warm_size;
          cold_size = cold_size;
          elasticity = elasticity;
          temp = λ a. Temp.hot;
        }))
      else none

  unfoldable pub twoq_destroy : TwoqCache K V → TwoqCache K V
  twoq_destroy c = record c {
    table = hash_clear c.table;
    hot = list_clear c.hot;
    warm = list_clear c.warm;
    cold = list_clear c.cold;
  }

  -- The first loop of `twoq_prune`, over the nodes and the count of the hot list. `none` is the
  -- fault of writing through a NULL node.
  unfoldable pub cool_loop :
      ℕ
      → ℕ
      → List (Node K V)
      → NodeList K V
      → (ℕ → Temp)
      → Option (NodeList K V × NodeList K V × (ℕ → Temp))
  cool_loop max size [] cold' temp =
      if ltb max size then none else some (record { nodes = []; size = size }, cold', temp)
  cool_loop max size (n ∷ rest) cold' temp =
      if ltb max size
      then cool_loop max (size - 1) rest (list_push cold' n) (set_temp temp n.addr cold)
      else some (record { nodes = n ∷ rest; size = size }, cold', temp)

  -- The `switch` of `twoq_del`.
  unfoldable pub leave : TwoqCache K V → Node K V → TwoqCache K V
  leave c n = elim (c.temp n.addr) [
    | Temp.hot ↦ record c { hot = list_remove c.hot n }
    | Temp.warm ↦ record c { warm = list_remove c.warm n }
    | Temp.cold ↦ record c { cold = list_remove c.cold n }
  ]

  -- The warm list gave up its oldest node if it grew too long.
  unfoldable pub cool_warm : TwoqCache K V → Option (TwoqCache K V)
  cool_warm c =
      if ltb c.warm_size c.warm.size
      then list_pop c.warm >>= (λ (nn, warm'). some (record c {
        warm = warm';
        cold = list_push c.cold nn;
        temp = set_temp c.temp nn.addr Temp.cold;
      }))
      else some c

  -- The `switch` of `twoq_get`. `none` is the fault of writing through a NULL node.
  unfoldable pub use_node : TwoqCache K V → Node K V → Option (TwoqCache K V)
  use_node c n = elim (c.temp n.addr) [
    | Temp.hot ↦ some (record c { hot = list_push (list_remove c.hot n) n })
    | Temp.warm ↦ some (record c { warm = list_push (list_remove c.warm n) n })
    | Temp.cold ↦ cool_warm (record c {
      cold = list_remove c.cold n;
      temp = set_temp c.temp n.addr Temp.warm;
      warm = list_push c.warm n;
    })
  ]

module _ {K V : Type 0} ⦃keys : Keys K⦄ where
  -- The second loop of `twoq_prune`, over the nodes and the count of the cold list.
  unfoldable pub drop_loop : ℕ → Hash K V → ℕ → List (Node K V) → Option (Hash K V × NodeList K V)
  drop_loop max h size [] =
      if ltb max size then none else some (h, record { nodes = []; size = size })
  drop_loop max h size (n ∷ rest) =
      if ltb max size
      then hash_del h n >>= (λ h'. drop_loop max h' (size - 1) rest)
      else some (h, record { nodes = n ∷ rest; size = size })

  unfoldable pub drop_cold : TwoqCache K V → Option (TwoqCache K V)
  drop_cold c =
      if ltb ((c.cold_size + c.elasticity) % 2 ^ 64) c.cold.size
      then (do
        (h, l) ← drop_loop c.cold_size c.table c.cold.size c.cold.nodes
        some (record c { table = h; cold = l }))
      else some c

  unfoldable pub twoq_prune : TwoqCache K V → Option (TwoqCache K V)
  twoq_prune c = do
    (hot', cold', temp') ← cool_loop c.hot_size c.hot.size c.hot.nodes c.cold c.temp
    drop_cold (record c { hot = hot'; cold = cold'; temp = temp' })

  -- The result is 1 (`true`) if the key was there.
  unfoldable pub twoq_del : TwoqCache K V → K → Option (Bool × TwoqCache K V)
  twoq_del c k = elim (hash_find c.table k) [
    | none ↦ some (false, c)
    | some n ↦ do h ← hash_del c.table n; some (true, record (leave c n) { table = h })
  ]

  -- `mem` is what `malloc` returns for the node. The result is 0 (`true`) or -1 (`false`).
  unfoldable pub twoq_add : Option ℕ → TwoqCache K V → K → V → Option (Bool × TwoqCache K V)
  twoq_add mem c key val = do
    (_, c') ← twoq_del c key
    elim (hash_add mem c'.table key val) [
      | none ↦ some (false, c')
      | some (n, h) ↦ do
        c'' ← twoq_prune (record c' {
          table = h;
          hot = list_push c'.hot n;
          temp = set_temp c'.temp n.addr Temp.hot;
        })
        some (true, c'')
    ]

  unfoldable pub twoq_get : TwoqCache K V → K → Option (Option V × TwoqCache K V)
  twoq_get c key = elim (hash_find c.table key) [
    | none ↦ some (none, c)
    | some n ↦ do c' ← use_node c n; some (some n.val, c')
  ]
