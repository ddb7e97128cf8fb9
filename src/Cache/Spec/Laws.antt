-- ===== src/Cache/Spec/Laws.antt =====
-- The abstract cache: what a lookup sees, how many entries stay, and that no entry is lost.
use libgpuarray.Base.{
  ℕ, zero, suc, ◌≤◌, ◌≡◌, refl, true, none, some, List, [], ◌∷◌, ◌++◌, arith, length, take, drop,
  take-append-drop, Option-cases, Bool-cases, inl, inr,
}
use mathlib.Core.List.Perm
use mathlib.Core.List.{Perm, perm_append_singleton, perm_append_comm, append_assoc}
use libgpuarray.Cache.Node.{Keys}
use libgpuarray.Cache.Hash.Chain.{keq_congr}
use libgpuarray.Cache.Spec.{Contents, lookup, remove, delete, evict}

module _ {K V : Type 0} ⦃keys : Keys K⦄ where
  pub lookup_last :
      (q : K) (e : K × V) (m : ℕ) (l : List (K × V))
      → lookup q l ≡ none
      → keys.keq e.0 q ≡ true
      → m ≤ length l
      → lookup q (drop m (l ++ e ∷ [])) ≡ some e
  unfolding lookup
  lookup_last q e zero [] n h k = rw h
  lookup_last q e (suc m) [] n h k = absurd (omega arith)
  lookup_last q e zero (d ∷ l) n h k = ground (arith, lookup_last q e zero l)
  lookup_last q e (suc m) (d ∷ l) n h k = lookup_last q e m l (ground arith) h (omega arith)

  pub lookup_congr : (a b : K) (l : List (K × V)) → keys.keq a b ≡ true → lookup a l ≡ lookup b l
  unfolding lookup
  lookup_congr a b [] e = refl
  lookup_congr a b (d ∷ l) e = ground (arith, lookup_congr a b l e, keq_congr a b d.0 e)

  remove-Perm :
      (k : K) (l : List (K × V)) (e : K × V) → lookup k l ≡ some e → Perm (e ∷ remove k l) l
  unfolding lookup remove
  remove-Perm k [] e h = cc
  remove-Perm k (d ∷ l) e h = elim (Bool-cases (keys.keq d.0 k)) [
    | inl here ↦ let same : d ≡ e = ground arith in rw (here, same) (Perm.refl (e ∷ l))
    | inr there ↦
        rw there
          (Perm.trans (Perm.swap d e (remove k l)) (Perm.cons d (remove-Perm k l e (ground arith))))
  ]

-- Every entry that was ever added, live or released.
abbrev pub all_entries : {K V : Type 0} → Contents K V → List (K × V)
all_entries s = s.live ++ s.released

module _ {K V : Type 0} ⦃keys : Keys K⦄ where
  pub delete-Perm : (k : K) (s : Contents K V) → Perm (all_entries (delete k s)) (all_entries s)
  unfolding delete
  delete-Perm k s = elim (Option-cases (lookup k s.live)) [
    | inl miss ↦ rw (miss, delete) (Perm.refl (all_entries s))
    | inr (e, hit) ↦
        rw (hit, delete, ← append_assoc (remove k s.live) s.released (e ∷ []))
          (Perm.trans (perm_append_singleton e (remove k s.live ++ s.released))
            (Perm.append_right s.released (remove-Perm k s.live e hit)))
  ]

module _ {K V : Type 0} where
  pub evict-Perm : (m : ℕ) (s : Contents K V) → Perm (all_entries (evict m s)) (all_entries s)
  unfolding evict
  evict-Perm m s =
      let kept = drop m s.live in
      let gone = take m s.live in
      rw (← append_assoc kept s.released gone) (
        Perm.trans (perm_append_comm (kept ++ s.released) gone) (
          rw (← append_assoc gone kept s.released, take-append-drop m s.live)
            (Perm.refl (all_entries s))))

  pub push-Perm :
      (e : K × V) (s : Contents K V)
      → Perm (all_entries (record s { live = s.live ++ e ∷ [] })) (e ∷ all_entries s)
  push-Perm e s = Perm.append_right s.released (perm_append_singleton e s.live)
