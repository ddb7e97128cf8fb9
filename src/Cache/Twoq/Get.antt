-- ===== src/Cache/Twoq/Get.antt =====
-- `twoq_get`: a hit moves its node, and changes no lookup.
use libgpuarray.Base.{
  ◌∷◌, [], ◌+◌, ◌≤◌, ◌<◌, ◌≡◌, refl, ap, ◌∙◌, sym, none, some, arith, inl, inr, Option-cases, ◌++◌,
}
use mathlib.Core.Option
use mathlib.Core.Option.{Option}
use libgpuarray.Cache.Node.{Keys, Node, find, list_push, list_remove}
use libgpuarray.Cache.Hash.{Hash, hash_find}
use libgpuarray.Cache.Hash.Chain.{All-find, meets-find}
use libgpuarray.Cache.Hash.Entries.{entry, entries, lookup-entries}
use libgpuarray.Cache.Hash.Move.{find_self}
use libgpuarray.Cache.Spec.{Contents, lookup}
use libgpuarray.Cache.Twoq.{TwoqCache, Temp, hot, warm, cold, leave, use_node, twoq_get}
use libgpuarray.Cache.Twoq.Sections.{nodes, leave-Left}
use libgpuarray.Cache.Twoq.Use.{
  IsPlaced, Reorders, Reorders-trans, IsHit, back_hot, back_warm, to_warm, warmed,
  cool_warm-Reorders,
}

module _ {K V : Type 0} ⦃keys : Keys K⦄ where
  pub record IsValid (c : TwoqCache K V) : Type 0 where
    pub placed : IsPlaced c
    pub hot_fits : c.hot.size ≤ c.hot_size
    pub warm_fits : c.warm.size ≤ c.warm_size
    pub hot_positive : 0 < c.hot_size
    pub warm_positive : 0 < c.warm_size

  abbrev pub contents : TwoqCache K V → Contents K V
  contents c = record { live = entries (nodes c); released = entries c.table.freed }

  pub IsHit-of :
      {c : TwoqCache K V} (k : K) (n : Node K V)
      → IsPlaced c
      → hash_find c.table k ≡ some n
      → IsHit c n
  IsHit-of {c} k n t h =
      let f : find k (nodes c) ≡ some n = sym (t.holds.reads k) ∙ h in
      record {
        present = find_self k (nodes c) n f;
        agree = (All-find _ k (nodes c) n f t.holds.known).in_list;
        met = meets-find k n (nodes c) f;
      }

  -- What `use_node` makes of a cache with a hit.
  record Used (c : TwoqCache K V) (n : Node K V) : Type 1 where
    after : TwoqCache K V
    runs : use_node c n ≡ some after
    reorders : Reorders c after
    hot_kept : after.hot.size ≤ c.hot_size
    warm_kept : after.warm.size ≤ c.warm_size

  use_at :
      {c : TwoqCache K V} (v : IsValid c) (n : Node K V) (hit : IsHit c n) (u : Temp)
      → c.temp n.addr ≡ u
      → Used c n
  unfolding use_node list_push list_remove leave
  use_at {c} v n hit hot e =
      let l = rw (e, leave) at (leave-Left v.placed.sorted n hit.met) in
      record {
        after = record c { hot = list_push (list_remove c.hot n) n };
        runs = rw (e, use_node);
        reorders = back_hot v.placed n hit l e;
        hot_kept = omega (arith, v.hot_fits, v.hot_positive);
        warm_kept = v.warm_fits;
      }
  use_at {c} v n hit warm e =
      let l = rw (e, leave) at (leave-Left v.placed.sorted n hit.met) in
      record {
        after = record c { warm = list_push (list_remove c.warm n) n };
        runs = rw (e, use_node);
        reorders = back_warm v.placed n hit l e;
        hot_kept = v.hot_fits;
        warm_kept = omega (arith, v.warm_fits, v.warm_positive);
      }
  use_at {c} v n hit cold e =
      let l = rw (e, leave) at (leave-Left v.placed.sorted n hit.met) in
      let r = to_warm v.placed n hit l in
      let (c', runs, r', w, h) =
        cool_warm-Reorders (warmed v.placed n hit) (c.warm.nodes ++ n ∷ []) (c.warm.size + 1)
          r.placed (omega (arith, v.warm_fits)) in
      record {
        after = c';
        runs = rw (e, use_node) runs;
        reorders = Reorders-trans r r';
        hot_kept = omega (arith, v.hot_fits);
        warm_kept = w;
      }

  pub lookup-nodes :
      {c : TwoqCache K V} (k : K) (o : Option (Node K V))
      → IsPlaced c
      → hash_find c.table k ≡ o
      → lookup k (contents c).live ≡ Option.map entry o
  lookup-nodes {c} k o t h =
      lookup-entries k (nodes c) ∙ ap (Option.map entry) (sym (t.holds.reads k) ∙ h)

  pub twoq_get_lem :
      {c : TwoqCache K V} (k : K)
      → IsValid c
      → (c' : TwoqCache K V) × (twoq_get c k
          ≡ some (Option.map (λ e. e.1) (lookup k (contents c).live), c'))
        × IsValid c'
        × ((q : K) → lookup q (contents c').live ≡ lookup q (contents c).live)
        × ((contents c').released ≡ (contents c).released)
  unfolding twoq_get
  twoq_get_lem {c} k v = elim (Option-cases (hash_find c.table k)) [
    | inl miss ↦ (c, rw (miss, twoq_get, lookup-nodes k none v.placed miss), v, (λ q. refl), refl)
    | inr (n, hit) ↦
        let u = use_at v n (IsHit-of k n v.placed hit) (c.temp n.addr) refl in
        let r = u.reorders in
        (
          u.after,
          rw (hit, twoq_get, u.runs, lookup-nodes k (some n) v.placed hit),
          record {
            placed = r.placed;
            hot_fits = omega (arith, u.hot_kept, r.hot_size);
            warm_fits = omega (arith, u.warm_kept, r.warm_size);
            hot_positive = omega (arith, v.hot_positive, r.hot_size);
            warm_positive = omega (arith, v.warm_positive, r.warm_size);
          },
          (λ q.
              lookup-entries q (nodes u.after)
              ∙ ap (Option.map entry) (sym (r.same.same_find q))
              ∙ sym (lookup-entries q (nodes c))),
          ap (λ (h : Hash K V). entries h.freed) r.table,
        )
  ]
