-- ===== src/Cache/Twoq/Del.antt =====
-- `twoq_del` of src/cache/twoq.c takes the node of a key out of its section and out of the table.
use libgpuarray.Base.{
  ℕ, ◌≡◌, refl, ap, ◌∙◌, sym, none, some, [], ◌∷◌, arith, inl, inr, Option-cases, ◌>>=◌, is_some,
  ◌++◌,
}
use mathlib.Core.Path.{subst}
use libgpuarray.Cache.Node.{Keys, Node, find}
use libgpuarray.Cache.Hash.{Hash, hash_find, hash_del}
use libgpuarray.Cache.Hash.Chain.{All-unlink, find-keq}
use libgpuarray.Cache.Hash.Holds.{Holds, IsFresh}
use libgpuarray.Cache.Hash.Entries.{entry, entries-append, entries-unlink, entries}
use libgpuarray.Cache.Hash.Del
use libgpuarray.Cache.Hash.Del.{hash_del-Holds}
use libgpuarray.Cache.Spec.{lookup, remove, delete}
use libgpuarray.Cache.Twoq.{TwoqCache, Temp, hot, warm, cold, leave, twoq_del}
use libgpuarray.Cache.Twoq.Sections.{nodes, leave-Left}
use libgpuarray.Cache.Twoq.Get.{IsValid, contents, IsHit-of, lookup-nodes}

module _ {K V : Type 0} where
  pub record SameLimits (c c' : TwoqCache K V) : Type 0 where
    pub hot_size : c'.hot_size ≡ c.hot_size
    pub warm_size : c'.warm_size ≡ c.warm_size
    pub cold_size : c'.cold_size ≡ c.cold_size
    pub elasticity : c'.elasticity ≡ c.elasticity

  leave_at :
      (c : TwoqCache K V) (n : Node K V) (t : Temp) → c.temp n.addr ≡ t → SameLimits c (leave c n)
  unfolding leave
  leave_at c n hot e =
      rw (e, leave)
        (record { hot_size = refl; warm_size = refl; cold_size = refl; elasticity = refl })
  leave_at c n warm e =
      rw (e, leave)
        (record { hot_size = refl; warm_size = refl; cold_size = refl; elasticity = refl })
  leave_at c n cold e =
      rw (e, leave)
        (record { hot_size = refl; warm_size = refl; cold_size = refl; elasticity = refl })

  leave-SameLimits : (c : TwoqCache K V) (n : Node K V) → SameLimits c (leave c n)
  leave-SameLimits c n = leave_at c n (c.temp n.addr) refl

module _ {K V : Type 0} ⦃keys : Keys K⦄ where
  -- `c'` is the valid cache `c` without the key.
  pub record Without (k : K) (c c' : TwoqCache K V) : Type 0 where
    pub valid : IsValid c'
    pub limits : SameLimits c c'
    pub holding : contents c' ≡ delete k (contents c)
    pub absent : find k (nodes c') ≡ none
    pub keeps_fresh : (a : ℕ) → IsFresh c.table (nodes c) a → IsFresh c'.table (nodes c') a

  gone :
      (c : TwoqCache K V) (k : K) (n : Node K V) (h : Hash K V)
      → lookup k (contents c).live ≡ some (entry n)
      → entries (nodes (leave c n)) ≡ remove k (entries (nodes c))
      → entries h.freed ≡ entries c.table.freed ++ entry n ∷ []
      → contents (record (leave c n) { table = h }) ≡ delete k (contents c)
  unfolding delete
  gone c k n h e p q = rw (e, delete) (λ i. record { live = p i; released = q i })

  removed :
      {c : TwoqCache K V} (k : K) (n : Node K V)
      → IsValid c
      → hash_find c.table k ≡ some n
      → (h : Hash K V) × (hash_del c.table n ≡ some h)
        × Without k c (record (leave c n) { table = h })
  removed {c} k n v e =
      let t = v.placed.holds in
      let hit = IsHit-of k n v.placed e in
      let l = leave-Left v.placed.sorted n hit.met in
      let m = leave-SameLimits c n in
      let q = find-keq k (nodes c) n (sym (t.reads k) ∙ e) in
      let (runs, t') = hash_del-Holds c.table (nodes c) t n hit.present in
      let h = Del.deleted c.table (nodes c) t n hit.present in
      (
        h,
        runs,
        record {
          valid = record {
            placed = record {
              holds = subst (Holds h) (sym l.rest) t';
              sorted = record {
                hot_counted = l.sorted.hot_counted;
                warm_counted = l.sorted.warm_counted;
                cold_counted = l.sorted.cold_counted;
                hot_temp = l.sorted.hot_temp;
                warm_temp = l.sorted.warm_temp;
                cold_temp = l.sorted.cold_temp;
              };
            };
            hot_fits = omega (arith, v.hot_fits, l.hot_shrinks, m.hot_size);
            warm_fits = omega (arith, v.warm_fits, l.warm_shrinks, m.warm_size);
            hot_positive = omega (arith, v.hot_positive, m.hot_size);
            warm_positive = omega (arith, v.warm_positive, m.warm_size);
          };
          limits = record {
            hot_size = m.hot_size;
            warm_size = m.warm_size;
            cold_size = m.cold_size;
            elasticity = m.elasticity;
          };
          holding =
              gone c k n h (lookup-nodes k (some n) v.placed e)
                (ap entries l.rest ∙ entries-unlink n k (nodes c) q hit.agree)
                (entries-append c.table.freed (n ∷ []));
          absent =
              subst (λ x. find k x ≡ none) (sym l.rest)
                (Del.absent_after c.table (nodes c) t n hit.present k q);
          keeps_fresh = λ a s. record {
            off_list = rw l.rest (All-unlink _ n.addr (nodes c) s.off_list);
            off_chain = Del.All-deleted c.table (nodes c) t n hit.present _ s.off_chain;
          };
        },
      )

  -- `twoq_del`, with what an insertion needs of it.
  pub twoq_del-Without :
      {c : TwoqCache K V} (k : K)
      → IsValid c
      → (c' : TwoqCache K V) × (twoq_del c k ≡ some (is_some (lookup k (contents c).live), c'))
        × Without k c c'
  unfolding twoq_del delete
  twoq_del-Without {c} k v = elim (Option-cases (hash_find c.table k)) [
    | inl miss ↦
        let z = lookup-nodes k none v.placed miss in
        (
          c,
          rw (miss, twoq_del, z),
          record {
            valid = v;
            limits = record {
              hot_size = refl;
              warm_size = refl;
              cold_size = refl;
              elasticity = refl;
            };
            holding = rw (z, delete);
            absent = sym (v.placed.holds.reads k) ∙ miss;
            keeps_fresh = λ a s. s;
          },
        )
    | inr (n, hit) ↦
        let (h, runs, w) = removed k n v hit in
        (
          record (leave c n) { table = h },
          rw (hit, twoq_del, lookup-nodes k (some n) v.placed hit, runs, ◌>>=◌),
          w,
        )
  ]

  -- `twoq_del` never faults: it tells whether the key was there, takes its entry out and releases
  -- it, and leaves every other entry where it was.
  pub twoq_del_lem :
      {c : TwoqCache K V} (k : K)
      → IsValid c
      → (c' : TwoqCache K V) × (twoq_del c k ≡ some (is_some (lookup k (contents c).live), c'))
        × IsValid c'
        × (contents c' ≡ delete k (contents c))
  twoq_del_lem k v = let (c', runs, w) = twoq_del-Without k v in (c', runs, w.valid, w.holding)
