-- ===== src/Cache/Twoq/Evict.antt =====
-- The second loop of `twoq_prune` of src/cache/twoq.c: the oldest cold nodes are evicted.
use libgpuarray.Base.{
  ℕ, zero, suc, ◌-◌, ◌≡◌, refl, ap, ◌∙◌, sym, true, false, Option, some, List, [], ◌∷◌, ◌++◌, arith,
  ltb, length, take, drop,
}
use mathlib.Core.List.{append_assoc, append-nil}
use libgpuarray.Cache.Node.{Keys, Node, NodeList}
use libgpuarray.Cache.Hash.{Hash}
use libgpuarray.Cache.Hash.Holds.{Holds}
use libgpuarray.Cache.Hash.Entries.{entry, entries, entries-append}
use libgpuarray.Cache.Hash.Del.{hash_del-Holds, deleted}
use libgpuarray.Cache.Hash.Position.{find_at, unlink_at}
use libgpuarray.Cache.Twoq.{drop_loop}

module _ {K V : Type 0} ⦃keys : Keys K⦄ where
  -- The first `m` of the nodes `l` behind `p` left the table `h` and were freed in order.
  pub record Dropped (p : List (Node K V)) (m : ℕ) (h : Hash K V) (l : List (Node K V))
      (result : Option (Hash K V × NodeList K V)) : Type 0 where
    pub table : Hash K V
    pub returns : result ≡ some (table, record { nodes = drop m l; size = length l - m })
    pub holds : Holds table (p ++ drop m l)
    pub released : entries table.freed ≡ entries h.freed ++ take m (entries l)

  Dropped-zero :
      {p : List (Node K V)} {h : Hash K V} {l : List (Node K V)} (size : ℕ)
      → Holds h (p ++ l)
      → size ≡ length l
      → Dropped p 0 h l (some (h, record { nodes = l; size = size }))
  Dropped-zero {p} {h} {l} size t e = record {
    table = h;
    returns = ap (λ s. some (h, record { nodes = l; size = s })) (omega arith);
    holds = t;
    released = sym (append-nil (entries h.freed));
  }

  Dropped-suc :
      {p : List (Node K V)} {m : ℕ} {h h' : Hash K V} {l : List (Node K V)} (n : Node K V)
      {result : Option (Hash K V × NodeList K V)}
      → h'.freed ≡ h.freed ++ n ∷ []
      → Dropped p m h' l result
      → Dropped p (suc m) h (n ∷ l) result
  Dropped-suc {p} {m} {h} {h'} {l} n e r = record {
    table = r.table;
    returns =
        r.returns ∙ ap (λ s. some (r.table, record { nodes = drop m l; size = s })) (omega arith);
    holds = r.holds;
    released =
        r.released
        ∙ ap (λ t. t ++ take m (entries l)) (ap entries e ∙ entries-append h.freed (n ∷ []))
        ∙ append_assoc (entries h.freed) (entry n ∷ []) (take m (entries l));
  }

  module _ (max : ℕ) (p : List (Node K V)) where
    pub drop_loop-Dropped :
        (h : Hash K V) (size : ℕ) (l : List (Node K V)) (m : ℕ)
        → Holds h (p ++ l)
        → size ≡ length l
        → length l - max ≡ m
        → Dropped p m h l (drop_loop max h size l)
    unfolding drop_loop
    drop_loop-Dropped h size [] zero t e d =
        let stop : ltb max size ≡ false = ground arith in rw stop (Dropped-zero size t e)
    drop_loop-Dropped h size [] (suc m) t e d = absurd (omega arith)
    drop_loop-Dropped h size (n ∷ l) zero t e d =
        let stop : ltb max size ≡ false = ground arith in rw stop (Dropped-zero size t e)
    drop_loop-Dropped h size (n ∷ l) (suc m) t e d =
        let go : ltb max size ≡ true = ground arith in
        let f = find_at p n l t in
        let (runs, t') = hash_del-Holds h (p ++ n ∷ l) t n f in
        let t'' = rw (unlink_at p n l t) at t' in
        rw (go, runs)
          (Dropped-suc n refl (
            drop_loop-Dropped (deleted h (p ++ n ∷ l) t n f) (size - 1) l m t'' (omega arith)
              (omega arith)))
