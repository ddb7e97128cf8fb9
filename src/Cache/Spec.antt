-- ===== src/Cache/Spec.antt =====
-- What a cache of src/cache.h promises: the live entries in order of use, the one used last at the
-- end, and the entries whose key and value were released, in order of release.
pub mod Laws
use libgpuarray.Base.{ℕ, Option, none, some, List, [], ◌∷◌, ◌++◌, if◌then◌else◌, take, drop}
use libgpuarray.Cache.Node.{Keys}

pub record Contents (K V : Type 0) : Type 0 where
  pub live : List (K × V)
  pub released : List (K × V)

module _ {K V : Type 0} ⦃keys : Keys K⦄ where
  unfoldable pub lookup : K → List (K × V) → Option (K × V)
  lookup k [] = none
  lookup k (e ∷ l) = if keys.keq e.0 k then some e else lookup k l

  unfoldable pub remove : K → List (K × V) → List (K × V)
  remove k [] = []
  remove k (e ∷ l) = if keys.keq e.0 k then l else e ∷ remove k l

  -- Deletes the entry under the key, if there is one, and releases it.
  unfoldable pub delete : K → Contents K V → Contents K V
  delete k s = elim (lookup k s.live) [
    | none ↦ s
    | some e ↦ record { live = remove k s.live; released = s.released ++ e ∷ [] }
  ]

  -- A hit becomes the entry used last.
  unfoldable pub touch : K → List (K × V) → List (K × V)
  touch k l = elim (lookup k l) [ none ↦ l | some e ↦ remove k l ++ e ∷ [] ]

-- Releases the `n` entries used least recently.
unfoldable pub evict : {K V : Type 0} → ℕ → Contents K V → Contents K V
evict n s = record { live = drop n s.live; released = s.released ++ take n s.live }
