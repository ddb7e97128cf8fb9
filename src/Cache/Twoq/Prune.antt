-- ===== src/Cache/Twoq/Prune.antt =====
-- `twoq_prune` of src/cache/twoq.c.
use libgpuarray.Base.{
  ℕ, zero, suc, ◌+◌, ◌-◌, ◌%◌, ◌^◌, ◌≡◌, refl, ap, ◌∙◌, sym, Option, some, List, [], ◌∷◌, ◌++◌,
  arith, inl, inr, Bool-cases, ltb, ◌>>=◌, length, take, drop, length-drop,
}
use mathlib.Core.Path.{subst}
use mathlib.Core.List.{append_assoc, append-nil}
use libgpuarray.Cache.Node.{Keys, NodeList}
use libgpuarray.Cache.Hash.{Hash}
use libgpuarray.Cache.Hash.Chain.{All}
use libgpuarray.Cache.Hash.Holds.{Holds}
use libgpuarray.Cache.Hash.Entries.{
  entries, entries-append, entries-drop, length-entries, entries-take,
}
use libgpuarray.Cache.Twoq.{TwoqCache, drop_cold, twoq_prune, Temp}
use libgpuarray.Cache.Twoq.Cool.{Cooled, cool_loop-Cooled}
use libgpuarray.Cache.Twoq.Use.{IsPlaced}
use libgpuarray.Cache.Twoq.Del.{SameLimits}
use libgpuarray.Cache.Twoq.Evict.{Dropped, drop_loop-Dropped}
use libgpuarray.Cache.Twoq.Parts.{Parts, parts, cool, expire, shrink, surplus}

All-drop {ℓ κ} : {A : Type ℓ} (P : A → Type κ) (n : ℕ) (l : List A) → All P l → All P (drop n l)
All-drop P zero l h = h
All-drop P (suc n) [] h = tt
All-drop P (suc n) (x ∷ l) h = All-drop P n l h.1

module _ {K V : Type 0} ⦃keys : Keys K⦄ where
  -- `c` became `c'` with the sections `s`.
  pub record Shrinks (c : TwoqCache K V) (s : Parts K V) (c' : TwoqCache K V) : Type 0 where
    pub placed : IsPlaced c'
    pub holding : parts c' ≡ s
    pub limits : SameLimits c c'

  expire_zero : (s : Parts K V) → expire 0 s ≡ s
  expire_zero s =
      λ i. record { hot = s.hot; warm = s.warm; cold = s.cold; released = append-nil s.released i }

  expired :
      {c : TwoqCache K V} (m : ℕ)
      → IsPlaced c
      → {result : Option (Hash K V × NodeList K V)}
      → Dropped (c.hot.nodes ++ c.warm.nodes) m c.table c.cold.nodes result
      → (c' : TwoqCache K V) × ((result >>= (λ r. some (record c { table = r.0; cold = r.1 })))
          ≡ some c')
        × Shrinks c (expire m (parts c)) c'
  expired {c} m t r = (
    record c {
      table = r.table;
      cold = record { nodes = drop m c.cold.nodes; size = length c.cold.nodes - m };
    },
    rw r.returns,
    record {
      placed = record {
        holds =
            subst (Holds r.table) (append_assoc c.hot.nodes c.warm.nodes (drop m c.cold.nodes))
              r.holds;
        sorted = record {
          hot_counted = t.sorted.hot_counted;
          warm_counted = t.sorted.warm_counted;
          cold_counted = omega (arith, length-drop m c.cold.nodes);
          hot_temp = t.sorted.hot_temp;
          warm_temp = t.sorted.warm_temp;
          cold_temp = All-drop _ m c.cold.nodes t.sorted.cold_temp;
        };
      };
      holding = λ i. record {
        hot = entries c.hot.nodes;
        warm = entries c.warm.nodes;
        cold = entries-drop m c.cold.nodes i;
        released = r.released i;
      };
      limits = record { hot_size = refl; warm_size = refl; cold_size = refl; elasticity = refl };
    },
  )

  abbrev limit : TwoqCache K V → ℕ
  limit c = (c.cold_size + c.elasticity) % 2 ^ 64

  drop_cold-Shrinks :
      {c : TwoqCache K V}
      → IsPlaced c
      → (c' : TwoqCache K V) × (drop_cold c ≡ some c')
        × Shrinks c (expire (surplus c.cold_size (limit c) (length (parts c).cold)) (parts c)) c'
  unfolding drop_cold
  drop_cold-Shrinks {c} t =
      let n : length (parts c).cold ≡ c.cold.size =
        length-entries c.cold.nodes ∙ sym t.sorted.cold_counted in
      elim (Bool-cases (ltb (limit c) c.cold.size)) [
        | inl e ↦
            let h =
              subst (Holds c.table) (sym (append_assoc c.hot.nodes c.warm.nodes c.cold.nodes))
                t.holds in
            let (c', runs, s) = expired (c.cold.size - c.cold_size) t (
              drop_loop-Dropped c.cold_size (c.hot.nodes ++ c.warm.nodes) c.table c.cold.size
                c.cold.nodes _ h t.sorted.cold_counted
                (ap (λ k. k - c.cold_size) (sym t.sorted.cold_counted))) in
            (c', rw (e, runs), rw (n, e) s)
        | inr e ↦ (
          c,
          rw e,
          rw (n, e)
              (subst (λ s. Shrinks c s c) (sym (expire_zero (parts c)))
                (record {
                  placed = t;
                  holding = refl;
                  limits = record {
                    hot_size = refl;
                    warm_size = refl;
                    cold_size = refl;
                    elasticity = refl;
                  };
                })),
        )
      ]

  cooled :
      {c : TwoqCache K V} (m : ℕ)
      → IsPlaced c
      → {result : Option (NodeList K V × NodeList K V × (ℕ → Temp))}
      → Cooled c.table c.hot_size m c.warm.nodes c.hot.nodes c.cold.nodes result
      → (c₁ : TwoqCache K V) × ((result
            >>= (λ (h', k', f). drop_cold (record c { hot = h'; cold = k'; temp = f })))
          ≡ drop_cold c₁)
        × Shrinks c (cool m (parts c)) c₁
  cooled {c} m t r = (
    record c { hot = r.hot'; cold = r.cold'; temp = r.temp' },
    rw r.returns,
    record {
      placed = record {
        holds = r.holds;
        sorted = record {
          hot_counted = r.hot_counted;
          warm_counted = t.sorted.warm_counted;
          cold_counted = r.cold_counted;
          hot_temp = r.hot_temp;
          warm_temp = r.warm_temp;
          cold_temp = r.cold_temp;
        };
      };
      holding = λ i. record {
        hot = (ap entries r.kept ∙ entries-drop m c.hot.nodes) i;
        warm = entries c.warm.nodes;
        cold =
            (ap entries r.moved
                ∙ entries-append c.cold.nodes (take m c.hot.nodes)
                ∙ ap (λ l. entries c.cold.nodes ++ l) (entries-take m c.hot.nodes))
              i;
        released = entries c.table.freed;
      };
      limits = record { hot_size = refl; warm_size = refl; cold_size = refl; elasticity = refl };
    },
  )

  shrink_path :
      {cold_size cold_size' el el' : ℕ} (hot_size : ℕ) (s : Parts K V) {t u : Parts K V}
      → cold_size' ≡ cold_size
      → el' ≡ el
      → t ≡ cool (length s.hot - hot_size) s
      → u ≡ expire (surplus cold_size' ((cold_size' + el') % 2 ^ 64) (length t.cold)) t
      → u ≡ shrink hot_size cold_size ((cold_size + el) % 2 ^ 64) s
  unfolding shrink
  shrink_path hot_size s p q d e = rw (e, d, p, q)

  SameLimits-trans : {c d e : TwoqCache K V} → SameLimits c d → SameLimits d e → SameLimits c e
  SameLimits-trans r s = record {
    hot_size = s.hot_size ∙ r.hot_size;
    warm_size = s.warm_size ∙ r.warm_size;
    cold_size = s.cold_size ∙ r.cold_size;
    elasticity = s.elasticity ∙ r.elasticity;
  }

  -- `twoq_prune` never faults: it makes the oldest hot entries cold until `hot_size` are left, and
  -- where more than `cold_size + elasticity` entries are cold, releases the oldest until
  -- `cold_size` are left; the limits stay, and so do the counts and the temperatures right.
  pub twoq_prune-Shrinks :
      {c : TwoqCache K V}
      → IsPlaced c
      → (c' : TwoqCache K V) × (twoq_prune c ≡ some c')
        × Shrinks c
            (shrink c.hot_size c.cold_size ((c.cold_size + c.elasticity) % 2 ^ 64) (parts c))
            c'
  unfolding twoq_prune
  twoq_prune-Shrinks {c} t =
      let n : length (parts c).hot ≡ length c.hot.nodes = length-entries c.hot.nodes in
      let s = t.sorted in
      let (c₁, run₁, r₁) = cooled (length c.hot.nodes - c.hot_size) t (
        cool_loop-Cooled c.table c.hot_size c.warm.nodes c.hot.nodes c.cold c.hot.size c.temp _
          t.holds s.hot_counted s.cold_counted s.hot_temp s.warm_temp s.cold_temp refl) in
      let (c₂, run₂, r₂) = drop_cold-Shrinks r₁.placed in
      let l = r₁.limits in
      (
        c₂,
        run₁ ∙ run₂,
        record {
          placed = r₂.placed;
          holding =
              shrink_path c.hot_size (parts c) l.cold_size l.elasticity (rw n r₁.holding)
                r₂.holding;
          limits = SameLimits-trans l r₂.limits;
        },
      )
