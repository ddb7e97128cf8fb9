-- ===== src/Cache/Hash/Entries.antt =====
-- The entries of a list of nodes, without the addresses.
use libgpuarray.Base.{
  ℕ, zero, suc, ◌≡◌, refl, ap, true, List, [], ◌∷◌, ◌++◌, arith, length, take, drop,
}
use mathlib.Core.Option
use libgpuarray.Cache.Node.{Keys, Node, unlink, find}
use libgpuarray.Cache.Spec.{lookup, remove}
use libgpuarray.Cache.Hash.Chain.{Agree, keq_congr}

abbrev pub entry : {K V : Type 0} → Node K V → K × V
entry n = (n.key, n.val)

abbrev pub entries : {K V : Type 0} → List (Node K V) → List (K × V)
entries [] = []
entries (n ∷ l) = entry n ∷ entries l

module _ {K V : Type 0} where
  pub length-entries : (l : List (Node K V)) → length (entries l) ≡ length l
  length-entries [] = refl
  length-entries (n ∷ l) = ap suc (length-entries l)

  pub entries-append : (a b : List (Node K V)) → entries (a ++ b) ≡ entries a ++ entries b
  entries-append [] b = refl
  entries-append (n ∷ a) b = ap (◌∷◌ (entry n)) (entries-append a b)

  pub entries-drop : (n : ℕ) (l : List (Node K V)) → entries (drop n l) ≡ drop n (entries l)
  entries-drop zero l = refl
  entries-drop (suc n) [] = refl
  entries-drop (suc n) (x ∷ l) = entries-drop n l

  pub entries-take : (n : ℕ) (l : List (Node K V)) → entries (take n l) ≡ take n (entries l)
  entries-take zero l = refl
  entries-take (suc n) [] = refl
  entries-take (suc n) (x ∷ l) = ap (◌∷◌ (entry x)) (entries-take n l)

module _ {K V : Type 0} ⦃keys : Keys K⦄ where
  pub lookup-entries :
      (k : K) (l : List (Node K V)) → lookup k (entries l) ≡ Option.map entry (find k l)
  unfolding lookup find
  lookup-entries k [] = refl
  lookup-entries k (n ∷ l) = ground (arith, lookup-entries k l)

  -- To unlink a node by its address is to remove the entry under its key.
  pub entries-unlink :
      (n : Node K V) (k : K) (l : List (Node K V))
      → keys.keq n.key k ≡ true
      → Agree l n
      → entries (unlink n.addr l) ≡ remove k (entries l)
  unfolding unlink remove
  entries-unlink n k [] e g = refl
  entries-unlink n k (m ∷ l) e g = ground (arith, entries-unlink n k l e, keq_congr n.key k m.key e)
