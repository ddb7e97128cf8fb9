-- ===== src/Cache/Twoq/Use.antt =====
-- The moves of `twoq_get` between the sections of src/cache/twoq.c keep every node.
use libgpuarray.Base.{
  ℕ, ◌+◌, ◌-◌, ◌≤◌, ◌≡◌, refl, ap, ◌∙◌, sym, ◌==◌, true, false, some, List, [], ◌∷◌, ◌++◌, arith,
  Bool-cases, inl, inr, length-append, ltb,
}
use mathlib.Core.Path.{subst}
use mathlib.Core.List.{append_assoc}
use libgpuarray.Cache.Node.{Keys, Node, unlink, find, list_push, list_remove, list_pop}
use libgpuarray.Cache.Hash.{meets}
use libgpuarray.Cache.Hash.Chain.{All, All-append, All-append_split, Agree}
use libgpuarray.Cache.Hash.Holds.{Holds, Holds-SameNodes, SameNodes}
use libgpuarray.Cache.Hash.Move.{relocate}
use libgpuarray.Cache.Hash.Position.{unlink-off}
use libgpuarray.Cache.Twoq.{TwoqCache, hot, warm, cold, set_temp, cool_warm}
use libgpuarray.Cache.Twoq.Sections.{nodes, HasTemp-set, IsSorted, Left}
use libgpuarray.Cache.Twoq.Cool.{to_end}

module _ {K V : Type 0} ⦃keys : Keys K⦄ where
  pub record IsPlaced (c : TwoqCache K V) : Type 0 where
    pub holds : Holds c.table (nodes c)
    pub sorted : IsSorted c

  -- `c'` has the nodes of `c` in some order, and the same table and limits.
  pub record Reorders (c c' : TwoqCache K V) : Type 1 where
    pub placed : IsPlaced c'
    pub same : SameNodes (nodes c) (nodes c')
    pub table : c'.table ≡ c.table
    pub hot_size : c'.hot_size ≡ c.hot_size
    pub warm_size : c'.warm_size ≡ c.warm_size
    pub cold_size : c'.cold_size ≡ c.cold_size
    pub elasticity : c'.elasticity ≡ c.elasticity

  pub Reorders-refl : {c : TwoqCache K V} → IsPlaced c → Reorders c c
  Reorders-refl t = record {
    placed = t;
    same = record {
      same_length = refl;
      same_count = λ q. refl;
      same_find = λ q. refl;
      same_all = λ P h. h;
    };
    table = refl;
    hot_size = refl;
    warm_size = refl;
    cold_size = refl;
    elasticity = refl;
  }

  pub Reorders-trans : {c d e : TwoqCache K V} → Reorders c d → Reorders d e → Reorders c e
  Reorders-trans r s = record {
    placed = s.placed;
    same = record {
      same_length = r.same.same_length ∙ s.same.same_length;
      same_count = λ q. r.same.same_count q ∙ s.same.same_count q;
      same_find = λ q. r.same.same_find q ∙ s.same.same_find q;
      same_all = λ P h. s.same.same_all P (r.same.same_all P h);
    };
    table = s.table ∙ r.table;
    hot_size = s.hot_size ∙ r.hot_size;
    warm_size = s.warm_size ∙ r.warm_size;
    cold_size = s.cold_size ∙ r.cold_size;
    elasticity = s.elasticity ∙ r.elasticity;
  }

  -- Moving the head `n` of the warm list `n ∷ l` to the end of the cold one.
  cool_head :
      (c : TwoqCache K V) (n : Node K V) (l : List (Node K V)) (size : ℕ)
      → IsPlaced (record c { warm = record { nodes = n ∷ l; size = size } })
      → Reorders
          (record c { warm = record { nodes = n ∷ l; size = size } })
          (record c {
            warm = record { nodes = l; size = size - 1 };
            cold = list_push c.cold n;
            temp = set_temp c.temp n.addr cold;
          })
  unfolding list_push
  cool_head c n l size t =
      let h = c.hot.nodes in
      let k = c.cold.nodes in
      let s = t.sorted in
      let (same, off) = to_end c.table h n (l ++ k) t.holds in
      let (off_h, off_lk) = All-append_split _ h (l ++ k) off in
      let (off_l, off_k) = All-append_split _ l k off_lk in
      let a : (h ++ (l ++ k)) ++ n ∷ [] ≡ h ++ (l ++ (k ++ n ∷ [])) =
        append_assoc h (l ++ k) (n ∷ []) ∙ ap (λ r. h ++ r) (append_assoc l k (n ∷ [])) in
      let same' = subst (SameNodes (h ++ ((n ∷ l) ++ k))) a same in
      record {
        placed = record {
          holds = Holds-SameNodes same' t.holds;
          sorted = record {
            hot_counted = s.hot_counted;
            warm_counted = omega (arith, s.warm_counted);
            cold_counted = omega (arith, s.cold_counted, length-append k (n ∷ []));
            hot_temp = HasTemp-set c.temp hot n.addr cold h s.hot_temp off_h;
            warm_temp = HasTemp-set c.temp warm n.addr cold l s.warm_temp.1 off_l;
            cold_temp =
                All-append _ k (n ∷ []) (HasTemp-set c.temp cold n.addr cold k s.cold_temp off_k)
                  (ground arith, tt);
          };
        };
        same = same';
        table = refl;
        hot_size = refl;
        warm_size = refl;
        cold_size = refl;
        elasticity = refl;
      }

  abbrev pub with_warm : TwoqCache K V → List (Node K V) → ℕ → TwoqCache K V
  with_warm c x size = record c { warm = record { nodes = x; size = size } }

  -- `cool_warm` cannot fault, and leaves at most `warm_size` warm nodes of one more.
  pub cool_warm-Reorders :
      (c : TwoqCache K V) (x : List (Node K V)) (size : ℕ)
      → IsPlaced (with_warm c x size)
      → size ≤ c.warm_size + 1
      → (c' : TwoqCache K V) × (cool_warm (with_warm c x size) ≡ some c')
        × Reorders (with_warm c x size) c'
        × (c'.warm.size ≤ c.warm_size)
        × (c'.hot.size ≡ c.hot.size)
  unfolding cool_warm list_pop
  cool_warm-Reorders c [] size t b =
      let stop : ltb c.warm_size size ≡ false = ground (arith, t.sorted.warm_counted) in
      (with_warm c [] size, rw stop, Reorders-refl t, ground arith, refl)
  cool_warm-Reorders c (n ∷ x) size t b = elim (Bool-cases (ltb c.warm_size size)) [
    | inr stop ↦ (with_warm c (n ∷ x) size, rw stop, Reorders-refl t, ground arith, refl)
    | inl go ↦ (_, rw go, cool_head c n x size t, omega arith, refl)
  ]

  -- The node of a hit.
  pub record IsHit (c : TwoqCache K V) (n : Node K V) : Type 0 where
    pub present : find n.key (nodes c) ≡ some n
    pub agree : Agree (nodes c) n
    pub met : meets n.addr (nodes c) ≡ true

  module _ {c : TwoqCache K V} (t : IsPlaced c) (n : Node K V) (hit : IsHit c n) where
    off-Left :
        {d : TwoqCache K V} → Left n.addr c d → All (λ m. (m.addr == n.addr) ≡ false) (nodes d)
    off-Left l = rw l.rest (unlink-off n (nodes c) hit.agree (t.holds.single n.key))

    put_back :
        {d : TwoqCache K V} (a b : List (Node K V))
        → Left n.addr c d
        → nodes d ≡ a ++ b
        → SameNodes (nodes c) (a ++ n ∷ b)
    put_back a b l e =
        relocate n (nodes c) a b hit.agree hit.present t.holds.single (sym l.rest ∙ e)

    pub back_hot :
        Left n.addr c (record c { hot = list_remove c.hot n })
        → c.temp n.addr ≡ hot
        → Reorders c (record c { hot = list_push (list_remove c.hot n) n })
    unfolding list_push list_remove
    back_hot l e =
        let h = unlink n.addr c.hot.nodes in
        let r = c.warm.nodes ++ c.cold.nodes in
        let same =
          subst (SameNodes (nodes c)) (sym (append_assoc h (n ∷ []) r)) (put_back h r l refl) in
        let s = l.sorted in
        record {
          placed = record {
            holds = Holds-SameNodes same t.holds;
            sorted = record {
              hot_counted = omega (arith, s.hot_counted, length-append h (n ∷ []));
              warm_counted = s.warm_counted;
              cold_counted = s.cold_counted;
              hot_temp = All-append _ h (n ∷ []) s.hot_temp (e, tt);
              warm_temp = s.warm_temp;
              cold_temp = s.cold_temp;
            };
          };
          same = same;
          table = refl;
          hot_size = refl;
          warm_size = refl;
          cold_size = refl;
          elasticity = refl;
        }

    pub back_warm :
        Left n.addr c (record c { warm = list_remove c.warm n })
        → c.temp n.addr ≡ warm
        → Reorders c (record c { warm = list_push (list_remove c.warm n) n })
    unfolding list_push list_remove
    back_warm l e =
        let h = c.hot.nodes in
        let w = unlink n.addr c.warm.nodes in
        let k = c.cold.nodes in
        let a : (h ++ w) ++ n ∷ k ≡ h ++ ((w ++ n ∷ []) ++ k) =
          append_assoc h w (n ∷ k) ∙ ap (λ r. h ++ r) (sym (append_assoc w (n ∷ []) k)) in
        let same =
          subst (SameNodes (nodes c)) a (put_back (h ++ w) k l (sym (append_assoc h w k))) in
        let s = l.sorted in
        record {
          placed = record {
            holds = Holds-SameNodes same t.holds;
            sorted = record {
              hot_counted = s.hot_counted;
              warm_counted = omega (arith, s.warm_counted, length-append w (n ∷ []));
              cold_counted = s.cold_counted;
              hot_temp = s.hot_temp;
              warm_temp = All-append _ w (n ∷ []) s.warm_temp (e, tt);
              cold_temp = s.cold_temp;
            };
          };
          same = same;
          table = refl;
          hot_size = refl;
          warm_size = refl;
          cold_size = refl;
          elasticity = refl;
        }

    -- A cold node that is used becomes warm.
    abbrev pub warmed : TwoqCache K V
    warmed = record c {
      cold = list_remove c.cold n;
      temp = set_temp c.temp n.addr warm;
      warm = list_push c.warm n;
    }

    pub to_warm : Left n.addr c (record c { cold = list_remove c.cold n }) → Reorders c warmed
    unfolding list_push list_remove
    to_warm l =
        let h = c.hot.nodes in
        let w = c.warm.nodes in
        let k = unlink n.addr c.cold.nodes in
        let a : (h ++ w) ++ n ∷ k ≡ h ++ ((w ++ n ∷ []) ++ k) =
          append_assoc h w (n ∷ k) ∙ ap (λ r. h ++ r) (sym (append_assoc w (n ∷ []) k)) in
        let same =
          subst (SameNodes (nodes c)) a (put_back (h ++ w) k l (sym (append_assoc h w k))) in
        let s = l.sorted in
        let (off_h, off_wk) = All-append_split _ h (w ++ k) (off-Left l) in
        let (off_w, off_k) = All-append_split _ w k off_wk in
        record {
          placed = record {
            holds = Holds-SameNodes same t.holds;
            sorted = record {
              hot_counted = s.hot_counted;
              warm_counted = omega (arith, s.warm_counted, length-append w (n ∷ []));
              cold_counted = s.cold_counted;
              hot_temp = HasTemp-set c.temp hot n.addr warm h s.hot_temp off_h;
              warm_temp =
                  All-append _ w (n ∷ []) (HasTemp-set c.temp warm n.addr warm w s.warm_temp off_w)
                    (ground arith, tt);
              cold_temp = HasTemp-set c.temp cold n.addr warm k s.cold_temp off_k;
            };
          };
          same = same;
          table = refl;
          hot_size = refl;
          warm_size = refl;
          cold_size = refl;
          elasticity = refl;
        }
