-- ===== src/Cache/Hash/Init.antt =====
-- `roundup2`, and the empty table that `hash_init` makes.
use libgpuarray.Base.{
  ℕ, zero, suc, ◌+◌, ◌-◌, ◌/◌, ◌%◌, ◌^◌, ◌≤◌, ◌<◌, ◌≡◌, refl, true, some, [], arith, replicate,
  length-replicate, get_or,
}
use native.Mathlib.Nat.{div-le_self}
use libgpuarray.Base.Bits.{le-bit_or, bit_or-lt_pow}
use libgpuarray.Cache.Node.{Keys, find}
use libgpuarray.Cache.Hash.{Hash, roundup2, smear, hash_init, hash_find}
use libgpuarray.Cache.Hash.Chain.{count}
use libgpuarray.Cache.Hash.Holds.{Holds}

smear_bounds : (k x : ℕ) → x < 2 ^ 63 → (x ≤ smear k x) × (smear k x < 2 ^ 63)
smear_bounds k x h = (
  (le-bit_or x (x / 2 ^ k)).0,
  bit_or-lt_pow 63 x (x / 2 ^ k) h (omega (arith, div-le_self x (2 ^ k))),
)

smears_bounds :
    (x : ℕ)
    → x < 2 ^ 63
    → let y = smear 32 (smear 16 (smear 8 (smear 4 (smear 2 (smear 1 x))))) in
      (x ≤ y) × (y < 2 ^ 63)
smears_bounds x h =
    let (l₁, u₁) = smear_bounds 1 x h in
    let (l₂, u₂) = smear_bounds 2 _ u₁ in
    let (l₃, u₃) = smear_bounds 4 _ u₂ in
    let (l₄, u₄) = smear_bounds 8 _ u₃ in
    let (l₅, u₅) = smear_bounds 16 _ u₄ in let (l₆, u₆) = smear_bounds 32 _ u₅ in omega arith

-- Between 1 and 2 ^ 63, `roundup2` does not lower its argument and stays within 64 bits.
pub roundup2_bounds : (s : ℕ) → 0 < s → s ≤ 2 ^ 63 → (s ≤ roundup2 s) × (roundup2 s ≤ 2 ^ 63)
unfolding roundup2
roundup2_bounds s pos fits =
    let less : (s + 2 ^ 64 - 1) % 2 ^ 64 ≡ s - 1 = omega arith in
    let (lo, hi) = smears_bounds (s - 1) (omega arith) in rw less (omega arith)

module _ {ℓ} {A : Type ℓ} where
  get_or-replicate : (n p : ℕ) (d : A) → get_or (replicate n d) p d ≡ d
  get_or-replicate zero p d = refl
  get_or-replicate (suc n) zero d = refl
  get_or-replicate (suc n) (suc p) d = get_or-replicate n p d

-- A fresh table has a bucket for every node it was asked to hold, and holds none.
pub hash_init-Holds :
    {K V : Type 0} ⦃keys : Keys K⦄ (s : ℕ)
    → 0 < s
    → s + s / 6 ≤ 2 ^ 63
    → (h : Hash K V) × (hash_init true s ≡ some h)
      × Holds h []
      × (h.freed ≡ [])
      × (s + s / 6 ≤ h.nbuckets)
unfolding hash_init hash_find find count
hash_init-Holds s pos fits =
    let t = (s + s / 6) % 2 ^ 64 in
    let n = roundup2 t in
    let same : t ≡ s + s / 6 = omega arith in
    let (lo, hi) = roundup2_bounds t (omega arith) (omega arith) in
    (
      record { keyval = replicate n []; nbuckets = n; size = 0; freed = [] },
      refl,
      record {
        width = length-replicate n [];
        positive = omega arith;
        bounded = omega arith;
        sized = refl;
        placed = λ q p. rw get_or-replicate (omega arith);
        single = λ q. omega arith;
        reads = λ q. rw get_or-replicate;
        known = tt;
      },
      refl,
      omega arith,
    )
