-- ===== src/Cache/Twoq/Parts.antt =====
-- What src/cache/twoq.c promises of its sections: the entries of each, oldest first, and the
-- entries released, in order.
use libgpuarray.Base.{ℕ, ◌-◌, ltb, if◌then◌else◌, List, [], ◌∷◌, ◌++◌, length, take, drop}
use libgpuarray.Cache.Hash.Entries.{entries}
use libgpuarray.Cache.Twoq.{TwoqCache}

pub record Parts (K V : Type 0) : Type 0 where
  pub hot : List (K × V)
  pub warm : List (K × V)
  pub cold : List (K × V)
  pub released : List (K × V)

-- How many of `n` cold entries are evicted.
abbrev pub surplus : ℕ → ℕ → ℕ → ℕ
surplus max limit n = if ltb limit n then n - max else 0

module _ {K V : Type 0} where
  abbrev pub parts : TwoqCache K V → Parts K V
  parts c = record {
    hot = entries c.hot.nodes;
    warm = entries c.warm.nodes;
    cold = entries c.cold.nodes;
    released = entries c.table.freed;
  }

  -- The `m` oldest hot entries become cold.
  abbrev pub cool : ℕ → Parts K V → Parts K V
  cool m s = record s { hot = drop m s.hot; cold = s.cold ++ take m s.hot }

  -- The `m` oldest cold entries are released.
  abbrev pub expire : ℕ → Parts K V → Parts K V
  expire m s = record s { cold = drop m s.cold; released = s.released ++ take m s.cold }

  -- `twoq_prune` on the sections.
  unfoldable pub shrink : ℕ → ℕ → ℕ → Parts K V → Parts K V
  shrink hot_size cold_size limit s =
      let t = cool (length s.hot - hot_size) s in expire (surplus cold_size limit (length t.cold)) t

  -- A new entry is the youngest hot one.
  abbrev pub push_hot : K × V → Parts K V → Parts K V
  push_hot e s = record s { hot = s.hot ++ e ∷ [] }
