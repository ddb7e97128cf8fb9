-- ===== src/Cache/Lru/Prune.antt =====
-- `lru_prune` evicts the entries used least recently, and only them.
use libgpuarray.Base.{
  ℕ, zero, suc, ◌+◌, ◌-◌, ◌%◌, ◌^◌, ◌≡◌, refl, ap, ◌∙◌, inl, inr, Bool, true, false, ◌&&◌, Option,
  some, List, [], ◌∷◌, ◌++◌, arith, ltb, if◌then◌else◌, ◌>>=◌, length, Bool-cases, sym, take, drop,
  length-drop,
}
use mathlib.Core.Path.{subst}
use mathlib.Core.List.{append_assoc, append-nil}
use libgpuarray.Cache.Node.{Keys, Node, NodeList, unlink, find}
use libgpuarray.Cache.Hash.{Hash}
use libgpuarray.Cache.Hash.Holds.{Holds}
use libgpuarray.Cache.Hash.Entries.{entry, entries, entries-append, length-entries, entries-drop}
use libgpuarray.Cache.Hash.Del.{hash_del-Holds, deleted}
use libgpuarray.Cache.Spec.{Contents, evict}
use libgpuarray.Cache.Lru.{LruCache, prune_loop, lru_prune}
use libgpuarray.Cache.Lru.Refine.{IsValid, contents, Becomes, unchanged}

-- The number of entries that `lru_prune` evicts out of `n`.
abbrev pub excess : ℕ → ℕ → ℕ → ℕ
excess max limit n = if ltb 0 max && ltb limit n then n - max else 0

module _ {K V : Type 0} ⦃keys : Keys K⦄ where
  find_head : (n : Node K V) (l : List (Node K V)) → find n.key (n ∷ l) ≡ some n
  unfolding find
  find_head n l = rw (keys.keq_refl n.key)

  unlink_head : (n : Node K V) (l : List (Node K V)) → unlink n.addr (n ∷ l) ≡ l
  unfolding unlink
  unlink_head n l = ground arith

  -- The loop evicts the first `m` nodes, frees them in order and keeps the others; no fault.
  pub record Pruned (m : ℕ) (h : Hash K V) (l : List (Node K V))
      (result : Option (Hash K V × NodeList K V)) : Type 0 where
    pub table : Hash K V
    pub returns : result ≡ some (table, record { nodes = drop m l; size = length l - m })
    pub holds : Holds table (drop m l)
    pub released : entries table.freed ≡ entries h.freed ++ take m (entries l)

  Pruned-zero :
      {h : Hash K V} {l : List (Node K V)} (size : ℕ)
      → Holds h l
      → size ≡ length l
      → Pruned 0 h l (some (h, record { nodes = l; size = size }))
  Pruned-zero {h} {l} size t e = record {
    table = h;
    returns = ap (λ s. some (h, record { nodes = l; size = s })) (omega arith);
    holds = t;
    released = sym (append-nil (entries h.freed));
  }

  Pruned-suc :
      {m : ℕ} {h h' : Hash K V} {l : List (Node K V)} (n : Node K V)
      {result : Option (Hash K V × NodeList K V)}
      → h'.freed ≡ h.freed ++ n ∷ []
      → Pruned m h' l result
      → Pruned (suc m) h (n ∷ l) result
  Pruned-suc {m} {h} {h'} {l} n e r = record {
    table = r.table;
    returns =
        r.returns ∙ ap (λ s. some (r.table, record { nodes = drop m l; size = s })) (omega arith);
    holds = r.holds;
    released =
        r.released
        ∙ ap (λ t. t ++ take m (entries l)) (ap entries e ∙ entries-append h.freed (n ∷ []))
        ∙ append_assoc (entries h.freed) (entry n ∷ []) (take m (entries l));
  }

  module _ (max : ℕ) where
    pub prune_loop-Pruned :
        (h : Hash K V) (size : ℕ) (l : List (Node K V)) (m : ℕ)
        → Holds h l
        → size ≡ length l
        → length l - max ≡ m
        → Pruned m h l (prune_loop max h size l)
    unfolding prune_loop
    prune_loop-Pruned h size [] zero t e d =
        let stop : ltb max h.size ≡ false = ground (arith, t.sized) in
        rw stop (Pruned-zero size t e)
    prune_loop-Pruned h size [] (suc m) t e d = absurd (omega arith)
    prune_loop-Pruned h size (n ∷ l) zero t e d =
        let stop : ltb max h.size ≡ false = ground (arith, t.sized) in
        rw stop (Pruned-zero size t e)
    prune_loop-Pruned h size (n ∷ l) (suc m) t e d =
        let go : ltb max h.size ≡ true = ground (arith, t.sized) in
        let (runs, t') = hash_del-Holds h (n ∷ l) t n (find_head n l) in
        let t'' = rw unlink_head at t' in
        rw (go, runs)
          (Pruned-suc n refl (
            prune_loop-Pruned (deleted h (n ∷ l) t n (find_head n l)) (size - 1) l m t''
              (omega arith) (omega arith)))

  evict_zero : (s : Contents K V) → evict 0 s ≡ s
  unfolding evict
  evict_zero s = λ i. record { live = s.live; released = append-nil s.released i }

  abbrev over : LruCache K V → Bool
  over c = ltb 0 c.max_size && ltb ((c.max_size + c.elasticity) % 2 ^ 64) c.table.size

  Pruned-becomes :
      {c : LruCache K V}
      → IsValid c
      → (m : ℕ) → {result : Option (Hash K V × NodeList K V)}
      → Pruned m c.table c.order.nodes result
      → (c' : LruCache K V) × ((result >>= (λ r. some (record c { table = r.0; order = r.1 })))
          ≡ some c')
        × Becomes c (evict m (contents c)) c'
  unfolding evict
  Pruned-becomes {c} v m r = (
    record c {
      table = r.table;
      order = record { nodes = drop m c.order.nodes; size = length c.order.nodes - m };
    },
    rw r.returns,
    record {
      valid = record { holds = r.holds; counted = omega (arith, length-drop m c.order.nodes) };
      holding = λ i. record { live = entries-drop m c.order.nodes i; released = r.released i };
      same_max = refl;
      same_elasticity = refl;
    },
  )

  -- `lru_prune` is `evict`, by the number of entries over the limits.
  pub lru_prune-refines :
      {c : LruCache K V}
      → IsValid c
      → (c' : LruCache K V) × (lru_prune c ≡ some c')
        × Becomes c
            (evict
              (excess c.max_size ((c.max_size + c.elasticity) % 2 ^ 64) (length (contents c).live))
              (contents c))
            c'
  unfolding lru_prune evict
  lru_prune-refines {c} v =
      let n : length (contents c).live ≡ c.table.size =
        length-entries c.order.nodes ∙ sym v.holds.sized in
      elim (Bool-cases (over c)) [
        | inl e ↦
            let (c', runs, b) = Pruned-becomes v (c.table.size - c.max_size) (
              prune_loop-Pruned c.max_size c.table c.order.size c.order.nodes _ v.holds v.counted
                (ap (λ k. k - c.max_size) (sym v.holds.sized))) in
            (c', rw (e, runs), rw (n, e) b)
        | inr e ↦ (
          c,
          rw e,
          rw (n, e) (subst (λ s. Becomes c s c) (sym (evict_zero (contents c))) (unchanged v)),
        )
      ]
