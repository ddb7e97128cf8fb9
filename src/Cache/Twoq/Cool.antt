-- ===== src/Cache/Twoq/Cool.antt =====
-- The moves of src/cache/twoq.c from the hot and the warm section to the cold one.
use libgpuarray.Base.{
  ℕ, zero, suc, ◌-◌, ◌≤◌, ◌≡◌, refl, ap, ◌∙◌, sym, ◌==◌, true, false, some, List, [], ◌∷◌, ◌++◌,
  arith, length, length-append, Option, drop, take, ltb,
}
use mathlib.Core.Path.{subst}
use mathlib.Core.List.{append_assoc, append-nil}
use libgpuarray.Cache.Node.{Keys, Node, NodeList, list_push}
use libgpuarray.Cache.Hash.{Hash}
use libgpuarray.Cache.Hash.Chain.{All, All-append, All-append_split}
use libgpuarray.Cache.Hash.Holds.{Holds, Holds-SameNodes, SameNodes}
use libgpuarray.Cache.Hash.Move.{move_to_end}
use libgpuarray.Cache.Hash.Position.{IsKnown-at, find_at, unlink_at, unlink-off}
use libgpuarray.Cache.Twoq.{Temp, hot, warm, cold, set_temp, cool_loop}
use libgpuarray.Cache.Twoq.Sections.{HasTemp, HasTemp-set}

module _ {K V : Type 0} ⦃keys : Keys K⦄ (h : Hash K V) where
  -- The node at a position may go to the end; its address is then nowhere else.
  pub to_end :
      (p : List (Node K V)) (n : Node K V) (l : List (Node K V))
      → Holds h (p ++ n ∷ l)
      → SameNodes (p ++ n ∷ l) ((p ++ l) ++ n ∷ []) × All (λ m. (m.addr == n.addr) ≡ false) (p ++ l)
  to_end p n l t =
      let g = (IsKnown-at p n l t).in_list in
      (
        rw (unlink_at p n l t) at (move_to_end n (p ++ n ∷ l) g (find_at p n l t) t.single),
        rw (unlink_at p n l t) at (unlink-off n (p ++ n ∷ l) g (t.single n.key)),
      )

  -- The hot list of `l` gave its first nodes to the end of the cold list.
  pub record Cooled (max m : ℕ) (w l k : List (Node K V))
      (result : Option (NodeList K V × NodeList K V × (ℕ → Temp))) : Type 1 where
    pub hot' : NodeList K V
    pub cold' : NodeList K V
    pub temp' : ℕ → Temp
    pub returns : result ≡ some (hot', cold', temp')
    pub kept : hot'.nodes ≡ drop m l
    pub moved : cold'.nodes ≡ k ++ take m l
    pub small : hot'.size ≤ max
    pub holds : Holds h (hot'.nodes ++ (w ++ cold'.nodes))
    pub hot_counted : hot'.size ≡ length hot'.nodes
    pub cold_counted : cold'.size ≡ length cold'.nodes
    pub hot_temp : HasTemp temp' hot hot'.nodes
    pub warm_temp : HasTemp temp' warm w
    pub cold_temp : HasTemp temp' cold cold'.nodes

  module _ (max : ℕ) (w : List (Node K V)) where
    Cooled-zero :
        (l : List (Node K V)) (k : NodeList K V) (size : ℕ) (f : ℕ → Temp)
        → Holds h (l ++ (w ++ k.nodes))
        → size ≡ length l
        → k.size ≡ length k.nodes
        → HasTemp f hot l
        → HasTemp f warm w
        → HasTemp f cold k.nodes
        → size ≤ max
        → Cooled max 0 w l k.nodes (some (record { nodes = l; size = size }, k, f))
    Cooled-zero l k size f t e d hh hw hc s = record {
      hot' = record { nodes = l; size = size };
      cold' = k;
      temp' = f;
      returns = refl;
      kept = refl;
      moved = sym (append-nil k.nodes);
      small = s;
      holds = t;
      hot_counted = e;
      cold_counted = d;
      hot_temp = hh;
      warm_temp = hw;
      cold_temp = hc;
    }

    pub cool_loop-Cooled :
        (l : List (Node K V)) (k : NodeList K V) (size : ℕ) (f : ℕ → Temp) (m : ℕ)
        → Holds h (l ++ (w ++ k.nodes))
        → size ≡ length l
        → k.size ≡ length k.nodes
        → HasTemp f hot l
        → HasTemp f warm w
        → HasTemp f cold k.nodes
        → length l - max ≡ m
        → Cooled max m w l k.nodes (cool_loop max size l k f)
    unfolding cool_loop list_push
    cool_loop-Cooled [] k size f zero t e d hh hw hc x =
        let stop : ltb max size ≡ false = ground arith in
        rw stop (Cooled-zero [] k size f t e d hh hw hc (omega arith))
    cool_loop-Cooled [] k size f (suc m) t e d hh hw hc x = absurd (omega arith)
    cool_loop-Cooled (n ∷ l) k size f zero t e d hh hw hc x =
        let stop : ltb max size ≡ false = ground arith in
        rw stop (Cooled-zero (n ∷ l) k size f t e d hh hw hc (omega arith))
    cool_loop-Cooled (n ∷ l) k size f (suc m) t e d hh hw hc x =
        let go : ltb max size ≡ true = ground arith in
        let (same, off) = to_end [] n (l ++ (w ++ k.nodes)) t in
        let (off_l, off_wk) = All-append_split _ l (w ++ k.nodes) off in
        let (off_w, off_k) = All-append_split _ w k.nodes off_wk in
        let a : (l ++ (w ++ k.nodes)) ++ n ∷ [] ≡ l ++ (w ++ (k.nodes ++ n ∷ [])) =
          append_assoc l (w ++ k.nodes) (n ∷ [])
          ∙ ap (λ r. l ++ r) (append_assoc w k.nodes (n ∷ [])) in
        let r =
          cool_loop-Cooled l (list_push k n) (size - 1) (set_temp f n.addr cold) m
            (subst (Holds h) a (Holds-SameNodes same t)) (omega arith)
            (omega (arith, length-append k.nodes (n ∷ [])))
            (HasTemp-set f hot n.addr cold l hh.1 off_l) (HasTemp-set f warm n.addr cold w hw off_w)
            (All-append _ k.nodes (n ∷ []) (HasTemp-set f cold n.addr cold k.nodes hc off_k)
              (ground arith, tt))
            (omega arith) in
        rw go (record {
          hot' = r.hot';
          cold' = r.cold';
          temp' = r.temp';
          returns = r.returns;
          kept = r.kept;
          moved = r.moved ∙ append_assoc k.nodes (n ∷ []) (take m l);
          small = r.small;
          holds = r.holds;
          hot_counted = r.hot_counted;
          cold_counted = r.cold_counted;
          hot_temp = r.hot_temp;
          warm_temp = r.warm_temp;
          cold_temp = r.cold_temp;
        })
