-- ===== src/Cache/Twoq/Laws.antt =====
-- What a client of src/cache/twoq.c sees after `twoq_add`.
use libgpuarray.Base.{
  ℕ, ◌+◌, ◌-◌, ◌%◌, ◌^◌, ◌≤◌, ◌<◌, ◌≡◌, refl, ap, ◌∙◌, sym, true, false, none, some, List, [], ◌∷◌,
  ◌++◌, arith, length, take, drop, length-append, length-drop, take-append-drop, ◌>>=◌,
}
use mathlib.Core.Option
use mathlib.Core.Path.{subst}
use mathlib.Core.List.Perm
use mathlib.Core.List.{Perm, perm_append_singleton, perm_append_comm, append_assoc}
use libgpuarray.Cache.Node.{Keys, find}
use libgpuarray.Cache.Hash.{hash_add}
use libgpuarray.Cache.Hash.Entries.{entry, entries, entries-append, length-entries, lookup-entries}
use libgpuarray.Cache.Hash.Holds.{IsFresh}
use libgpuarray.Cache.Spec.{lookup, delete}
use libgpuarray.Cache.Spec.Laws.{lookup_last, lookup_congr, delete-Perm, all_entries}
use libgpuarray.Cache.Twoq.{TwoqCache, twoq_add, twoq_get}
use libgpuarray.Cache.Twoq.Sections.{nodes}
use libgpuarray.Cache.Twoq.Use.{IsPlaced}
use libgpuarray.Cache.Twoq.Get.{IsValid, contents, twoq_get_lem}
use libgpuarray.Cache.Twoq.Del.{twoq_del-Without}
use libgpuarray.Cache.Twoq.Parts.{Parts, parts, cool, expire, push_hot, shrink, surplus}
use libgpuarray.Cache.Twoq.Insert.{Inserts, twoq_add-Inserts}

surplus_bound : (max limit n : ℕ) → max ≤ limit → n - surplus max limit n ≤ limit
surplus_bound max limit n h = ground arith

module _ {K V : Type 0} where
  shrink_hot :
      (h k limit : ℕ) (s : Parts K V)
      → (length (shrink h k limit s).hot ≤ h) × ((shrink h k limit s).warm ≡ s.warm)
  unfolding shrink
  shrink_hot h k limit s = (omega (arith, length-drop (length s.hot - h) s.hot), refl)

  shrink_cold :
      (h k limit : ℕ) (s : Parts K V) → k ≤ limit → length (shrink h k limit s).cold ≤ limit
  unfolding shrink
  shrink_cold h k limit s e =
      let l = s.cold ++ take (length s.hot - h) s.hot in
      rw (length-drop (surplus k limit (length l)) l) (surplus_bound k limit (length l) e)

  all_parts : Parts K V → List (K × V)
  all_parts s = s.hot ++ (s.warm ++ (s.cold ++ s.released))

  move_front : (a t b : List (K × V)) → Perm (a ++ (t ++ b)) (t ++ (a ++ b))
  move_front a t b =
      rw (← append_assoc a t b, ← append_assoc t a b) (Perm.append_right b (perm_append_comm a t))

  cool-Perm : (m : ℕ) (s : Parts K V) → Perm (all_parts (cool m s)) (all_parts s)
  unfolding all_parts
  cool-Perm m s =
      let t = take m s.hot in
      let d = drop m s.hot in
      let r = s.cold ++ s.released in
      Perm.trans
        (Perm.append_left d (
          Perm.append_left s.warm
            (rw (append_assoc s.cold t s.released) (move_front s.cold t s.released))))
        (Perm.trans (Perm.append_left d (move_front s.warm t r)) (
          Perm.trans (move_front d t (s.warm ++ r)) (
            rw (← append_assoc t d (s.warm ++ r), take-append-drop m s.hot)
              (Perm.refl (s.hot ++ (s.warm ++ r))))))

  expire-Perm : (m : ℕ) (s : Parts K V) → Perm (all_parts (expire m s)) (all_parts s)
  unfolding all_parts
  expire-Perm m s =
      let t = take m s.cold in
      let d = drop m s.cold in
      Perm.append_left s.hot (
        Perm.append_left s.warm (
          Perm.trans (Perm.append_left d (perm_append_comm s.released t)) (
            Perm.trans (move_front d t s.released) (
              rw (← append_assoc t d s.released, take-append-drop m s.cold)
                (Perm.refl (s.cold ++ s.released))))))

  shrink-Perm :
      (h k limit : ℕ) (e : K × V) (s : Parts K V)
      → Perm (all_parts (shrink h k limit (push_hot e s))) (e ∷ all_parts s)
  unfolding shrink all_parts
  shrink-Perm h k limit e s =
      let t = push_hot e s in
      let c = cool (length t.hot - h) t in
      Perm.trans (expire-Perm (surplus k limit (length c.cold)) c) (
        Perm.trans (cool-Perm (length t.hot - h) t)
          (Perm.append_right (s.warm ++ (s.cold ++ s.released)) (perm_append_singleton e s.hot)))

module _ {K V : Type 0} ⦃keys : Keys K⦄ where
  -- The sections of a cache and its contents have the same entries.
  contents-parts : (c : TwoqCache K V) → all_entries (contents c) ≡ all_parts (parts c)
  unfolding all_parts
  contents-parts c =
      let h = entries c.hot.nodes in
      let w = entries c.warm.nodes in
      let k = entries c.cold.nodes in
      let r = entries c.table.freed in
      ap (λ l. l ++ r)
        (entries-append c.hot.nodes (c.warm.nodes ++ c.cold.nodes)
          ∙ ap (λ l. h ++ l) (entries-append c.warm.nodes c.cold.nodes))
      ∙ append_assoc h (w ++ k) r
      ∙ ap (λ l. h ++ l) (append_assoc w k r)

  -- With memory for the node, at an address that no node of the cache has, `twoq_add` loses no key or
  -- value and releases none twice: the live entries and the released ones are those before it and the
  -- new one, in some order.
  pub twoq_add-Perm :
      {c : TwoqCache K V} (k : K) (x : V) (a : ℕ)
      → IsValid c
      → IsFresh c.table (nodes c) a
      → (c' : TwoqCache K V) × (twoq_add (some a) c k x ≡ some (true, c'))
        × Perm (all_entries (contents c')) ((k, x) ∷ all_entries (contents c))
  twoq_add-Perm {c} k x a v fresh =
      let (c₁, c₂, run₁, w, runs, r) = twoq_add-Inserts k x a v fresh in
      (
        c₂,
        runs,
        rw (contents-parts c₂, r.holding)
            (Perm.trans (shrink-Perm _ _ _ (k, x) (parts c₁)) (
              Perm.cons (k, x)
                (subst (λ l. Perm l (all_entries (contents c)))
                  (ap all_entries (sym w.holding) ∙ contents-parts c₁)
                  (delete-Perm k (contents c))))),
      )

  -- The counts of the sections are the numbers of their entries.
  section_counts :
      {c : TwoqCache K V}
      → IsPlaced c
      → (c.hot.size ≡ length (parts c).hot)
        × (c.warm.size ≡ length (parts c).warm)
        × (c.cold.size ≡ length (parts c).cold)
  section_counts {c} t = (
    t.sorted.hot_counted ∙ sym (length-entries c.hot.nodes),
    t.sorted.warm_counted ∙ sym (length-entries c.warm.nodes),
    t.sorted.cold_counted ∙ sym (length-entries c.cold.nodes),
  )

  inserted-IsValid : {e : K × V} {c c' : TwoqCache K V} → IsValid c → Inserts e c c' → IsValid c'
  inserted-IsValid {e} {c} v r =
      let limit = (c.cold_size + c.elasticity) % 2 ^ 64 in
      let (bh, bw) = shrink_hot c.hot_size c.cold_size limit (push_hot e (parts c)) in
      let (nh, nw, nc) = section_counts r.placed in
      let l = r.limits in
      record {
        placed = r.placed;
        hot_fits =
            omega (arith, nh, bh, l.hot_size, ap (λ (s : Parts K V). length s.hot) r.holding);
        warm_fits = omega (
          arith,
          nw,
          ap length bw,
          (section_counts v.placed).1,
          v.warm_fits,
          l.warm_size,
          ap (λ (s : Parts K V). length s.warm) r.holding,
        );
        hot_positive = omega (arith, v.hot_positive, l.hot_size);
        warm_positive = omega (arith, v.warm_positive, l.warm_size);
      }

  inserted_cold :
      {e : K × V} {c c' : TwoqCache K V}
      → Inserts e c c'
      → c.cold_size + c.elasticity < 2 ^ 64
      → c'.cold.size ≤ c.cold_size + c.elasticity
  inserted_cold {e} {c} r fits =
      let limit = (c.cold_size + c.elasticity) % 2 ^ 64 in
      let b = shrink_cold c.hot_size c.cold_size limit (push_hot e (parts c)) (omega arith) in
      let (nh, nw, nc) = section_counts r.placed in
      omega (arith, nc, b, ap (λ (s : Parts K V). length s.cold) r.holding)

  -- After `twoq_add` no section is over its size: the hot section has at most `hot_size` entries,
  -- the warm one at most `warm_size`, and the cold one at most `cold_size + elasticity` where that
  -- sum fits `size_t`.
  pub twoq_add_bounded :
      {c : TwoqCache K V} (k : K) (x : V) (a : ℕ)
      → IsValid c
      → IsFresh c.table (nodes c) a
      → c.cold_size + c.elasticity < 2 ^ 64
      → (c' : TwoqCache K V) × (twoq_add (some a) c k x ≡ some (true, c'))
        × IsValid c'
        × (c'.hot.size ≤ c.hot_size)
        × (c'.warm.size ≤ c.warm_size)
        × (c'.cold.size ≤ c.cold_size + c.elasticity)
  twoq_add_bounded {c} k x a v fresh fits =
      let (c₁, c₂, run₁, w, runs, r) = twoq_add-Inserts k x a v fresh in
      let l = w.limits in
      let m = r.limits in
      let valid = inserted-IsValid w.valid r in
      let b = inserted_cold r (omega (arith, l.cold_size, l.elasticity)) in
      (
        c₂,
        runs,
        valid,
        omega (arith, valid.hot_fits, l.hot_size, m.hot_size),
        omega (arith, valid.warm_fits, l.warm_size, m.warm_size),
        omega (arith, b, l.cold_size, l.elasticity),
      )

  lookup-append_some :
      (q : K) (e : K × V) (a b : List (K × V)) → lookup q a ≡ some e → lookup q (a ++ b) ≡ some e
  unfolding lookup
  lookup-append_some q e [] b h = cc
  lookup-append_some q e (d ∷ a) b h = ground (arith, lookup-append_some q e a b)

  lookup-append_none : (q : K) (a b : List (K × V)) → lookup q (a ++ b) ≡ none → lookup q a ≡ none
  unfolding lookup
  lookup-append_none q [] b h = refl
  lookup-append_none q (d ∷ a) b h = ground (arith, lookup-append_none q a b)

  inserted_found :
      {c c' : TwoqCache K V} (k q : K) (x : V)
      → Inserts (k, x) c c'
      → 0 < c.hot_size
      → find k (nodes c) ≡ none
      → keys.keq k q ≡ true
      → lookup q (contents c').live ≡ some (k, x)
  unfolding shrink
  inserted_found {c} {c'} k q x r pos absent e =
      let h = entries c.hot.nodes in
      let rest = c.warm.nodes ++ c.cold.nodes in
      let gone : lookup q h ≡ none = lookup-append_none q h (entries rest) (
        ap (lookup q) (sym (entries-append c.hot.nodes rest))
        ∙ sym (lookup_congr k q (entries (nodes c)) e)
        ∙ lookup-entries k (nodes c)
        ∙ ap (Option.map entry) absent) in
      let found : lookup q (entries c'.hot.nodes) ≡ some (k, x) =
        ap (λ (s : Parts K V). lookup q s.hot) r.holding
        ∙ lookup_last q (k, x) _ h gone e (omega (arith, length-append h ((k, x) ∷ []))) in
      ap (lookup q) (entries-append c'.hot.nodes (c'.warm.nodes ++ c'.cold.nodes))
      ∙ lookup-append_some q (k, x) (entries c'.hot.nodes) _ found

  -- The new entry is found right after `twoq_add`, under every key equal to its key.
  pub twoq_get-twoq_add :
      {c : TwoqCache K V} (k q : K) (x : V) (a : ℕ)
      → IsValid c
      → IsFresh c.table (nodes c) a
      → keys.keq k q ≡ true
      → (c' c'' : TwoqCache K V) × (twoq_add (some a) c k x ≡ some (true, c'))
        × (twoq_get c' q ≡ some (some x, c''))
  twoq_get-twoq_add {c} k q x a v fresh e =
      let (c₁, c₂, run₁, w, runs, r) = twoq_add-Inserts k x a v fresh in
      let valid = inserted-IsValid w.valid r in
      let (c₃, run₃, v₃, same, released) = twoq_get_lem q valid in
      (
        c₂,
        c₃,
        runs,
        run₃
            ∙ ap (λ o. some (Option.map (λ e. e.1) o, c₃))
                (inserted_found k q x r w.valid.hot_positive w.absent e),
      )

  -- Where `malloc` has no memory for the node, `twoq_add` returns -1: the old entry under the key
  -- is gone, and the new key and value are not released.
  pub twoq_add_no_memory :
      {c : TwoqCache K V} (k : K) (x : V)
      → IsValid c
      → (c' : TwoqCache K V) × (twoq_add none c k x ≡ some (false, c'))
        × IsValid c'
        × (contents c' ≡ delete k (contents c))
  unfolding twoq_add hash_add
  twoq_add_no_memory k x v =
      let (c', runs, w) = twoq_del-Without k v in (c', rw (runs, ◌>>=◌), w.valid, w.holding)
