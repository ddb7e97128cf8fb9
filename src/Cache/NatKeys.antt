-- ===== src/Cache/NatKeys.antt =====
-- Numbers as keys, for the tests of the caches of src/cache.
use mathlib.Core.Option.{some-injective}
use libgpuarray.Base.{Option, some, ap, sym, ◌∙◌, ℕ, ◌%◌, ◌^◌, ◌≡◌, arith, ◌==◌}
use libgpuarray.Cache.Node.{Keys, Node}

instance abbrev pub nat_keys : Keys ℕ
nat_keys = record {
  keq = λ a b. a == b;
  khash = λ a. a % 2 ^ 32;
  keq_refl = λ a. ground arith;
  keq_symm = λ a b. ground arith;
  keq_trans = λ a b c p q. ground arith;
  khash_congr = λ a b p. let s : a ≡ b = ground arith in rw s;
}

abbrev pub node : ℕ → ℕ → ℕ → Node ℕ ℕ
node addr key val = record { addr = addr; key = key; val = val }

-- Two accounts of one run end in the same state.
pub same_result :
    {A B : Type 0} {r : Option (A × B)} {x y : A} {a b : B}
    → r ≡ some (x, a)
    → r ≡ some (y, b)
    → a ≡ b
same_result p q = ap (λ t. t.1) (some-injective _ _ (sym p ∙ q))
