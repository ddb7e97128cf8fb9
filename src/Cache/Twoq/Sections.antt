-- ===== src/Cache/Twoq/Sections.antt =====
-- The three sections of src/cache/twoq.c: their nodes carry the temperature of the section, and
-- together they are the nodes of the hash table.
use libgpuarray.Base.{
  ℕ, ◌≤◌, ◌≡◌, ◌≢◌, refl, ap, ◌∙◌, sym, ◌==◌, true, false, List, [], ◌∷◌, ◌++◌, arith, length,
  Bool-cases, inl, inr,
}
use libgpuarray.Cache.Node.{Node, unlink, list_remove}
use libgpuarray.Cache.Hash.{meets}
use libgpuarray.Cache.Hash.Chain.{
  All, All-map, All-zip, All-unlink, meets-append, unlink-append_in, unlink-append_out,
}
use libgpuarray.Cache.Hash.Position.{length-unlink_met}
use libgpuarray.Cache.Twoq.{TwoqCache, Temp, hot, warm, cold, set_temp, leave}

module _ {K V : Type 0} where
  abbrev pub nodes : TwoqCache K V → List (Node K V)
  nodes c = c.hot.nodes ++ (c.warm.nodes ++ c.cold.nodes)

  -- All nodes of the list have the temperature.
  abbrev pub HasTemp : (ℕ → Temp) → Temp → List (Node K V) → Type 0
  HasTemp f t = All (λ m. f m.addr ≡ t)

  pub record IsSorted (c : TwoqCache K V) : Type 0 where
    pub hot_counted : c.hot.size ≡ length c.hot.nodes
    pub warm_counted : c.warm.size ≡ length c.warm.nodes
    pub cold_counted : c.cold.size ≡ length c.cold.nodes
    pub hot_temp : HasTemp c.temp Temp.hot c.hot.nodes
    pub warm_temp : HasTemp c.temp Temp.warm c.warm.nodes
    pub cold_temp : HasTemp c.temp Temp.cold c.cold.nodes

  abbrev Off : ℕ → List (Node K V) → Type 0
  Off a = All (λ m. (m.addr == a) ≡ false)

  -- A new temperature for another node leaves those of a list alone.
  pub HasTemp-set :
      (f : ℕ → Temp) (t : Temp) (a : ℕ) (u : Temp) (l : List (Node K V))
      → HasTemp f t l
      → Off a l
      → HasTemp (set_temp f a u) t l
  HasTemp-set f t a u l h off =
      All-map _ _ (λ m (d : (f m.addr ≡ t) × ((m.addr == a) ≡ false)). rw d.1 d.0) l
        (All-zip _ _ l h off)

  -- A node of another temperature is not in the list.
  meets-HasTemp :
      (f : ℕ → Temp) (t : Temp) (a : ℕ) (l : List (Node K V))
      → HasTemp f t l
      → f a ≢ t
      → meets a l ≡ false
  unfolding meets
  meets-HasTemp f t a [] h d = refl
  meets-HasTemp f t a (m ∷ l) h d = elim (Bool-cases (m.addr == a)) [
    | inl e ↦ let s : m.addr ≡ a = ground arith in absurd (d (rw (← s) h.0))
    | inr e ↦ rw e (meets-HasTemp f t a l h.1 d)
  ]

  -- `c'` is `c` without the node at the address.
  pub record Left (a : ℕ) (c c' : TwoqCache K V) : Type 0 where
    pub sorted : IsSorted c'
    pub rest : nodes c' ≡ unlink a (nodes c)
    pub hot_shrinks : c'.hot.size ≤ c.hot.size
    pub warm_shrinks : c'.warm.size ≤ c.warm.size

  module _ {c : TwoqCache K V} (s : IsSorted c) (n : Node K V)
      (met : meets n.addr (nodes c) ≡ true) where
    not_in :
        {t u : Temp} (l : List (Node K V))
        → HasTemp c.temp u l
        → c.temp n.addr ≡ t
        → t ≢ u
        → meets n.addr l ≡ false
    not_in {u = u} l h e d = meets-HasTemp c.temp u n.addr l h (rw e d)

    leave_at : (t : Temp) → c.temp n.addr ≡ t → Left n.addr c (leave c n)
    unfolding list_remove leave
    leave_at hot e =
        let w = not_in c.warm.nodes s.warm_temp e (λ p. cc) in
        let k = not_in c.cold.nodes s.cold_temp e (λ p. cc) in
        let m : meets n.addr c.hot.nodes ≡ true = ground (
          arith,
          met,
          meets-append n.addr c.hot.nodes (c.warm.nodes ++ c.cold.nodes),
          meets-append n.addr c.warm.nodes c.cold.nodes,
        ) in
        rw (e, leave)
          (record {
            sorted = record {
              hot_counted = omega (arith, s.hot_counted, length-unlink_met n.addr c.hot.nodes m);
              warm_counted = s.warm_counted;
              cold_counted = s.cold_counted;
              hot_temp = All-unlink _ n.addr c.hot.nodes s.hot_temp;
              warm_temp = s.warm_temp;
              cold_temp = s.cold_temp;
            };
            rest = sym (unlink-append_in n.addr c.hot.nodes (c.warm.nodes ++ c.cold.nodes) m);
            hot_shrinks = omega arith;
            warm_shrinks = omega arith;
          })
    leave_at warm e =
        let h = not_in c.hot.nodes s.hot_temp e (λ p. cc) in
        let k = not_in c.cold.nodes s.cold_temp e (λ p. cc) in
        let m : meets n.addr c.warm.nodes ≡ true = ground (
          arith,
          met,
          meets-append n.addr c.hot.nodes (c.warm.nodes ++ c.cold.nodes),
          meets-append n.addr c.warm.nodes c.cold.nodes,
        ) in
        rw (e, leave)
          (record {
            sorted = record {
              hot_counted = s.hot_counted;
              warm_counted = omega (arith, s.warm_counted, length-unlink_met n.addr c.warm.nodes m);
              cold_counted = s.cold_counted;
              hot_temp = s.hot_temp;
              warm_temp = All-unlink _ n.addr c.warm.nodes s.warm_temp;
              cold_temp = s.cold_temp;
            };
            rest = sym (
                unlink-append_out n.addr c.hot.nodes (c.warm.nodes ++ c.cold.nodes) h
                ∙ ap (λ r. c.hot.nodes ++ r) (unlink-append_in n.addr c.warm.nodes c.cold.nodes m));
            hot_shrinks = omega arith;
            warm_shrinks = omega arith;
          })
    leave_at cold e =
        let h = not_in c.hot.nodes s.hot_temp e (λ p. cc) in
        let w = not_in c.warm.nodes s.warm_temp e (λ p. cc) in
        let m : meets n.addr c.cold.nodes ≡ true = ground (
          arith,
          met,
          meets-append n.addr c.hot.nodes (c.warm.nodes ++ c.cold.nodes),
          meets-append n.addr c.warm.nodes c.cold.nodes,
        ) in
        rw (e, leave)
          (record {
            sorted = record {
              hot_counted = s.hot_counted;
              warm_counted = s.warm_counted;
              cold_counted = omega (arith, s.cold_counted, length-unlink_met n.addr c.cold.nodes m);
              hot_temp = s.hot_temp;
              warm_temp = s.warm_temp;
              cold_temp = All-unlink _ n.addr c.cold.nodes s.cold_temp;
            };
            rest = sym (
                unlink-append_out n.addr c.hot.nodes (c.warm.nodes ++ c.cold.nodes) h
                ∙ ap (λ r. c.hot.nodes ++ r)
                    (unlink-append_out n.addr c.warm.nodes c.cold.nodes w));
            hot_shrinks = omega arith;
            warm_shrinks = omega arith;
          })

    -- The `switch` of `twoq_del` takes a node out of the section that it is in.
    pub leave-Left : Left n.addr c (leave c n)
    leave-Left = leave_at (c.temp n.addr) refl
