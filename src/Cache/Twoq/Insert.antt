-- ===== src/Cache/Twoq/Insert.antt =====
-- `twoq_add` of src/cache/twoq.c: the old entry under the key goes, the new one becomes the
-- youngest hot entry, and the sections are pruned.
use libgpuarray.Base.{
  ℕ, ◌+◌, ◌%◌, ◌^◌, ◌≡◌, refl, ap, ◌∙◌, sym, true, some, none, [], ◌∷◌, ◌++◌, ◌>>=◌, arith,
  length-append, List, is_some,
}
use mathlib.Core.Path.{subst}
use mathlib.Core.List.{append_assoc, append-nil}
use libgpuarray.Cache.Node.{Keys, Node, find, list_push}
use libgpuarray.Cache.Hash.{Hash, hash_add}
use libgpuarray.Cache.Hash.Chain.{All-append, All-append_split}
use libgpuarray.Cache.Hash.Holds.{Holds, IsFresh, SameNodes, Holds-SameNodes}
use libgpuarray.Cache.Hash.Entries.{entries, entries-append}
use libgpuarray.Cache.Hash.Add
use libgpuarray.Cache.Hash.Add.{hash_add-Holds}
use libgpuarray.Cache.Hash.Move.{relocate}
use libgpuarray.Cache.Hash.Position.{IsKnown-at, find_at, unlink_at}
use libgpuarray.Cache.Twoq.{TwoqCache, hot, warm, cold, set_temp, twoq_del, twoq_add}
use libgpuarray.Cache.Twoq.Sections.{nodes, HasTemp-set}
use libgpuarray.Cache.Twoq.Use.{IsPlaced}
use libgpuarray.Cache.Twoq.Get.{IsValid, contents}
use libgpuarray.Cache.Twoq.Del.{twoq_del-Without, Without, SameLimits}
use libgpuarray.Cache.Twoq.Parts.{parts, push_hot, shrink}
use libgpuarray.Cache.Twoq.Prune.{Shrinks, twoq_prune-Shrinks}
use libgpuarray.Cache.Spec.{lookup}

module _ {K V : Type 0} ⦃keys : Keys K⦄ where
  -- The node added last may stand anywhere.
  from_end :
      {h : Hash K V} (n : Node K V) (a b : List (Node K V))
      → Holds h ((a ++ b) ++ n ∷ [])
      → Holds h ((a ++ n ∷ []) ++ b)
  from_end {h} n a b t =
      let l = (a ++ b) ++ n ∷ [] in
      let g = (IsKnown-at (a ++ b) n [] t).in_list in
      let e = unlink_at (a ++ b) n [] t ∙ append-nil (a ++ b) in
      let s = relocate n l a b g (find_at (a ++ b) n [] t) t.single e in
      Holds-SameNodes (subst (SameNodes l) (sym (append_assoc a (n ∷ []) b)) s) t

  pushed :
      {c : TwoqCache K V} (k : K) (x : V) (a : ℕ)
      → IsPlaced c
      → IsFresh c.table (nodes c) a
      → find k (nodes c) ≡ none
      → (n : Node K V) × (h : Hash K V) × (hash_add (some a) c.table k x ≡ some (n, h))
        × Shrinks c
            (push_hot (k, x) (parts c))
            (record c { table = h; hot = list_push c.hot n; temp = set_temp c.temp n.addr hot })
  unfolding list_push
  pushed {c} k x a t fresh absent =
      let l = nodes c in
      let s = t.sorted in
      let r = c.warm.nodes ++ c.cold.nodes in
      let n = Add.new_node c.table l t.holds a k x fresh absent in
      let (runs, t') = hash_add-Holds c.table l t.holds a k x fresh absent in
      let (off_h, off_r) = All-append_split _ c.hot.nodes r fresh.off_list in
      let (off_w, off_k) = All-append_split _ c.warm.nodes c.cold.nodes off_r in
      (
        n,
        Add.added c.table l t.holds a k x fresh absent,
        runs,
        record {
          placed = record {
            holds = from_end n c.hot.nodes r t';
            sorted = record {
              hot_counted = omega (arith, s.hot_counted, length-append c.hot.nodes (n ∷ []));
              warm_counted = s.warm_counted;
              cold_counted = s.cold_counted;
              hot_temp =
                  All-append _ c.hot.nodes (n ∷ [])
                    (HasTemp-set c.temp hot a hot c.hot.nodes s.hot_temp off_h) (ground arith, tt);
              warm_temp = HasTemp-set c.temp warm a hot c.warm.nodes s.warm_temp off_w;
              cold_temp = HasTemp-set c.temp cold a hot c.cold.nodes s.cold_temp off_k;
            };
          };
          holding = λ i. record {
            hot = entries-append c.hot.nodes (n ∷ []) i;
            warm = entries c.warm.nodes;
            cold = entries c.cold.nodes;
            released = entries c.table.freed;
          };
          limits = record {
            hot_size = refl;
            warm_size = refl;
            cold_size = refl;
            elasticity = refl;
          };
        },
      )

  -- `c` took in the entry `e`.
  pub record Inserts (e : K × V) (c c' : TwoqCache K V) : Type 0 where
    pub placed : IsPlaced c'
    pub holding :
        parts c'
        ≡ shrink c.hot_size c.cold_size
            ((c.cold_size + c.elasticity) % 2 ^ 64)
            (push_hot e (parts c))
    pub limits : SameLimits c c'

  -- With memory for the node, `twoq_add` never faults and reports success. It is `twoq_del`, after
  -- which the new entry joins the hot section and the sections shrink to their sizes: the oldest
  -- hot entries become cold, and the oldest cold ones are released.
  pub twoq_add-Inserts :
      {c : TwoqCache K V} (k : K) (x : V) (a : ℕ)
      → IsValid c
      → IsFresh c.table (nodes c) a
      → (c₁ c₂ : TwoqCache K V) × (twoq_del c k ≡ some (is_some (lookup k (contents c).live), c₁))
        × Without k c c₁
        × (twoq_add (some a) c k x ≡ some (true, c₂))
        × Inserts (k, x) c₁ c₂
  unfolding twoq_add
  twoq_add-Inserts {c} k x a v fresh =
      let (c₁, run₁, w) = twoq_del-Without k v in
      let (n, h, run₂, s) = pushed k x a w.valid.placed (w.keeps_fresh a fresh) w.absent in
      let (c₃, run₃, r) = twoq_prune-Shrinks s.placed in
      (
        c₁,
        c₃,
        run₁,
        w,
        rw (run₁, ◌>>=◌, run₂, run₃),
        record {
          placed = r.placed;
          holding =
              r.holding
              ∙ ap (shrink c₁.hot_size c₁.cold_size ((c₁.cold_size + c₁.elasticity) % 2 ^ 64))
                  s.holding;
          limits = record {
            hot_size = r.limits.hot_size;
            warm_size = r.limits.warm_size;
            cold_size = r.limits.cold_size;
            elasticity = r.limits.elasticity;
          };
        },
      )
