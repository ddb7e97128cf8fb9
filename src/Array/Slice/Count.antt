-- ===== src/Array/Slice/Count.antt =====
-- One dimension of a slice: the indices that it counts name elements of the source.
use libgpuarray.Base.{
  ℕ, zero, suc, ◌+◌, ◌-◌, ◌*◌, ◌/◌, ◌≤◌, ◌<◌, ◌≡◌, refl, ap, Bool, true, false, ◌||◌, not, arith,
  inl, inr, Bool-cases, ℤ, pos, negsuc, pos_part, neg_part, ltb_ℤ, ◌==ℤ◌, ◌+ℤ◌, ◌-ℤ◌, ◌*ℤ◌, quot,
  to_size, Rep, Rep-add, Rep-sub, Rep-mul, quot_pos, quot_neg, quot_pos_negative, quot_neg_negative,
  Below, Rep-Below, ◌⊎◌,
}
use native.Mathlib.Nat.{le-div_iff_mul-le}
use libgpuarray.Array.Slice.{Slice, is_invalid, slice_count, out_of_range}

-- A slice that starts where its first element is: the code also lets a slice start right before
-- the dimension and go up, or right behind it and go down.
pub record IsProper (d : ℕ) (s : Slice) : Type 0 where
  pub up : ltb_ℤ (pos 0) s.step ≡ true → neg_part s.start ≡ 0
  pub down : ltb_ℤ s.step (pos 0) ≡ true → ltb_ℤ s.start (pos d) ≡ true

-- A bound in range is one less than a number up to one over the dimension.
bound : (d : ℕ) (i : ℤ) → out_of_range d i ≡ false → (e : ℕ) × Rep i e 1 × (e ≤ d + 1)
unfolding out_of_range
bound d (pos n) h = (n + 1, omega arith, ground arith)
bound d (negsuc zero) h = (0, omega arith, omega arith)
bound d (negsuc (suc n)) h = ground arith

div_bound : (j n k : ℕ) → j < n / suc k → suc j * suc k ≤ n
div_bound j n k h =
    (le-div_iff_mul-le {k = suc k} {x = suc j} {y = n} (omega arith)).0 (omega arith)

true≢false' : {b : Bool} {A : Type 0} → b ≡ true → b ≡ false → A
true≢false' p q = cc

all_false : (a b : Bool) → (a || b) ≡ false → (a ≡ false) × (b ≡ false)
all_false a b h = ground arith

-- What the checks leave of a slice whose step is not 0.
checked :
    (d : ℕ) (s : Slice)
    → (s.step ==ℤ pos 0) ≡ false
    → is_invalid d s ≡ false
    → (out_of_range d s.start ≡ false)
      × (out_of_range d s.stop ≡ false)
      × (ltb_ℤ (quot (s.stop -ℤ s.start) s.step) (pos 0) ≡ false)
unfolding is_invalid
checked d s z h = elim (Bool-cases (out_of_range d s.start)) [
  | inl bad ↦ true≢false' refl (rw bad at h)
  | inr good ↦ let (v, n) = all_false _ _ (rw (good, z) at h) in (good, v, n)
]

order : (a b : ℕ) → (a ≤ b) ⊎ (b < a)
order a b = omega arith

up_within :
    (d k a e : ℕ) (start stop i : ℤ)
    → Rep start a 0
    → Rep stop e 1
    → e ≤ d + 1
    → ltb_ℤ (quot (stop -ℤ start) (pos (suc k))) (pos 0) ≡ false
    → Below i (to_size (quot (stop -ℤ start +ℤ pos (suc k) -ℤ pos 1) (pos (suc k))))
    → Below (start +ℤ pos (suc k) *ℤ i) d
up_within d k a e start stop i p q h n (b, c) =
    let step = pos (suc k) in
    let z = stop -ℤ start in
    let rz : Rep z (e + 0) (1 + a) = Rep-sub stop start e 1 a 0 q p in
    elim (order (e + 0 + suc k) (1 + a)) [
      | inl far ↦ true≢false' (quot_pos_negative z (e + 0) (1 + a) k rz far) n
      | inr near ↦
          let rs : Rep (z +ℤ step) (e + 0 + suc k) (1 + a + 0) =
            Rep-add z step (e + 0) (1 + a) (suc k) 0 rz (omega arith) in
          let rw' : Rep (z +ℤ step -ℤ pos 1) (e + k) (a + 1) =
            omega (
              arith,
              Rep-sub (z +ℤ step) (pos 1) (e + 0 + suc k) (1 + a + 0) 1 0 rs (omega arith),
            ) in
          let count = quot_pos (z +ℤ step -ℤ pos 1) (e + k) (a + 1) k rw' (omega arith) in
          let j = pos_part i in
          let lt : suc j * suc k ≤ e + k - (a + 1) =
            div_bound j (e + k - (a + 1)) k (omega (arith, c, ap to_size count)) in
          let rm : Rep (step *ℤ i) (suc k * j + 0 * 0) (suc k * 0 + 0 * j) =
            Rep-mul step i (suc k) 0 j 0 (omega arith) (omega arith) in
          Rep-Below (start +ℤ step *ℤ i) (a + suc k * j) 0 d
            (omega (arith, Rep-add start (step *ℤ i) a 0 _ _ p rm)) (omega arith) (omega arith)
    ]

down_within :
    (d k f e : ℕ) (start stop i : ℤ)
    → Rep start f 1
    → f ≤ d
    → Rep stop e 1
    → ltb_ℤ (quot (stop -ℤ start) (negsuc k)) (pos 0) ≡ false
    → Below i (to_size (quot (stop -ℤ start +ℤ negsuc k -ℤ negsuc 0) (negsuc k)))
    → Below (start +ℤ negsuc k *ℤ i) d
down_within d k f e start stop i p g q n (b, c) =
    let step = negsuc k in
    let z = stop -ℤ start in
    let rz : Rep z (e + 1) (1 + f) = Rep-sub stop start e 1 f 1 q p in
    elim (order (1 + f + suc k) (e + 1)) [
      | inl far ↦ true≢false' (quot_neg_negative z (e + 1) (1 + f) k rz far) n
      | inr near ↦
          let rs : Rep (z +ℤ step) (e + 1 + 0) (1 + f + suc k) =
            Rep-add z step (e + 1) (1 + f) 0 (suc k) rz (omega arith) in
          let rd : Rep (z +ℤ step -ℤ negsuc 0) e (f + k) = omega (
            arith,
            Rep-sub (z +ℤ step) (negsuc 0) (e + 1 + 0) (1 + f + suc k) 0 1 rs (omega arith),
          ) in
          let count = quot_neg (z +ℤ step -ℤ negsuc 0) e (f + k) k rd (omega arith) in
          let j = pos_part i in
          let lt : suc j * suc k ≤ f + k - e =
            div_bound j (f + k - e) k (omega (arith, c, ap to_size count)) in
          let rm : Rep (step *ℤ i) (0 * j + suc k * 0) (0 * 0 + suc k * j) =
            Rep-mul step i 0 (suc k) j 0 (omega arith) (omega arith) in
          Rep-Below (start +ℤ step *ℤ i) f (1 + suc k * j) d
            (omega (arith, Rep-add start (step *ℤ i) f 1 _ _ p rm)) (omega arith) (omega arith)
    ]

within_at :
    (d : ℕ) (start stop step i : ℤ)
    → (step ==ℤ pos 0) ≡ false
    → out_of_range d start ≡ false
    → out_of_range d stop ≡ false
    → ltb_ℤ (quot (stop -ℤ start) step) (pos 0) ≡ false
    → (ltb_ℤ (pos 0) step ≡ true → neg_part start ≡ 0)
    → (ltb_ℤ step (pos 0) ≡ true → ltb_ℤ start (pos d) ≡ true)
    → Below i (slice_count (record { start = start; stop = stop; step = step }))
    → Below (start +ℤ step *ℤ i) d
unfolding slice_count
within_at d start stop (pos zero) i z u v n up down below = ground arith
within_at d start stop (pos (suc k)) i z u v n up down below =
    let (e, re, he) = bound d stop v in
    let s : neg_part start ≡ 0 = up (ground arith) in
    let w : ltb_ℤ (pos (suc k)) (pos 0) ≡ false = ground arith in
    up_within d k (pos_part start) e start stop i (omega arith) re he n (rw w at below)
within_at d start stop (negsuc k) i z u v n up down below =
    let (e, re, he) = bound d stop v in
    let (f, rf, hf) = bound d start u in
    let s : ltb_ℤ start (pos d) ≡ true = down (ground arith) in
    let w : ltb_ℤ (negsuc k) (pos 0) ≡ true = ground arith in
    down_within d k f e start stop i rf (ground arith) re n (rw w at below)

-- Each index that a slice counts names an index of the dimension.
pub slice_within :
    (d : ℕ) (s : Slice) (i : ℤ)
    → (s.step ==ℤ pos 0) ≡ false
    → is_invalid d s ≡ false
    → IsProper d s
    → Below i (slice_count s)
    → Below (s.start +ℤ s.step *ℤ i) d
slice_within d s i z h proper below =
    let (u, v, n) = checked d s z h in
    within_at d s.start s.stop s.step i z u v n proper.up proper.down below

start_within :
    (d : ℕ) (i : ℤ)
    → out_of_range d i ≡ false
    → ((i ==ℤ negsuc 0) || not (ltb_ℤ i (pos d))) ≡ false
    → Below i d
unfolding out_of_range
start_within d (pos n) h g = ground arith
start_within d (negsuc n) h g = ground arith

-- An index instead of a slice names an index of the dimension.
pub point_within :
    (d : ℕ) (s : Slice) → (s.step ==ℤ pos 0) ≡ true → is_invalid d s ≡ false → Below s.start d
unfolding is_invalid
point_within d s z h = elim (Bool-cases (out_of_range d s.start)) [
  | inl bad ↦ true≢false' refl (rw bad at h)
  | inr good ↦ start_within d s.start good (rw (good, z) at h)
]
