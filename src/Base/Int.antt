-- ===== src/Base/Int.antt =====
-- Signed integers over the native numbers, under the library's names. An integer is the difference
-- of its two parts, which are numbers that `omega` reads.
use Prim.Native.Nat.{ℕ, suc, ◌+◌, ◌-◌, ◌*◌, ◌/◌, ◌%◌, ◌^◌, ◌≤◌, ◌<◌}
use mathlib.Core.Path.{◌≡◌}
use mathlib.Core.Bool.{Bool, true}
use native.Mathlib.Omega.{arith}
use native.Mathlib.Nat.{zero-div, le-div_iff_mul-le}
use libgpuarray.Base.Tests.{ltb, leb, ◌==◌, if◌then◌else◌}

-- `negsuc n` is -(n + 1).
pub data ℤ : Type 0 where
  pos : ℕ → ℤ
  negsuc : ℕ → ℤ

abbrev pub pos_part : ℤ → ℕ
pos_part (pos n) = n
pos_part (negsuc n) = 0

abbrev pub neg_part : ℤ → ℕ
neg_part (pos n) = 0
neg_part (negsuc n) = suc n

-- a - b, as an integer.
abbrev pub sub_ℕ : ℕ → ℕ → ℤ
sub_ℕ a b = if leb b a then pos (a - b) else negsuc (b - a - 1)

infixl 65 ◌+ℤ◌ ◌-ℤ◌
infixl 70 ◌*ℤ◌
infix 50 ◌≤ℤ◌ ◌==ℤ◌
unfoldable pub ◌+ℤ◌ : ℤ → ℤ → ℤ
a +ℤ b = sub_ℕ (pos_part a + pos_part b) (neg_part a + neg_part b)

unfoldable pub ◌-ℤ◌ : ℤ → ℤ → ℤ
a -ℤ b = sub_ℕ (pos_part a + neg_part b) (neg_part a + pos_part b)

unfoldable pub ◌*ℤ◌ : ℤ → ℤ → ℤ
a *ℤ b =
    sub_ℕ (pos_part a * pos_part b + neg_part a * neg_part b)
      (pos_part a * neg_part b + neg_part a * pos_part b)

abbrev pub ◌≤ℤ◌ : ℤ → ℤ → Type 0
a ≤ℤ b = pos_part a + neg_part b ≤ pos_part b + neg_part a

abbrev pub ltb_ℤ : ℤ → ℤ → Bool
ltb_ℤ a b = ltb (pos_part a + neg_part b) (pos_part b + neg_part a)

abbrev pub ◌==ℤ◌ : ℤ → ℤ → Bool
a ==ℤ b = pos_part a + neg_part b == pos_part b + neg_part a

-- The quotient of C, which rounds to zero.
unfoldable pub quot : ℤ → ℤ → ℤ
quot a b =
    let q = (pos_part a + neg_part a) / (pos_part b + neg_part b) in
    if ltb_ℤ a (pos 0)
    then (if ltb_ℤ b (pos 0) then pos q else sub_ℕ 0 q)
    else (if ltb_ℤ b (pos 0) then sub_ℕ 0 q else pos q)

-- The conversions between `ssize_t` and `size_t`.
abbrev pub to_size : ℤ → ℕ
to_size a = (pos_part a % 2 ^ 64 + (2 ^ 64 - neg_part a % 2 ^ 64)) % 2 ^ 64

abbrev pub to_ssize : ℕ → ℤ
to_ssize n = if ltb n (2 ^ 63) then pos n else negsuc (2 ^ 64 - 1 - n)

-- `a` is the difference of `x` and `y`.
abbrev pub Rep : ℤ → ℕ → ℕ → Type 0
Rep a x y = pos_part a + y ≡ neg_part a + x

pub Rep-self : (a : ℤ) → Rep a (pos_part a) (neg_part a)
Rep-self a = omega arith

sub_parts : (a b : ℕ) → Rep (sub_ℕ a b) a b
sub_parts a b = ground arith

pub Rep-eq : (a b : ℤ) (x y u v : ℕ) → Rep a x y → Rep b u v → x + v ≡ u + y → a ≡ b
Rep-eq a b x y u v p q r = ground arith

pub Rep-add : (a b : ℤ) (x y u v : ℕ) → Rep a x y → Rep b u v → Rep (a +ℤ b) (x + u) (y + v)
unfolding ◌+ℤ◌
Rep-add a b x y u v p q =
    omega (arith, sub_parts (pos_part a + pos_part b) (neg_part a + neg_part b))

pub Rep-sub : (a b : ℤ) (x y u v : ℕ) → Rep a x y → Rep b u v → Rep (a -ℤ b) (x + v) (y + u)
unfolding ◌-ℤ◌
Rep-sub a b x y u v p q =
    omega (arith, sub_parts (pos_part a + neg_part b) (neg_part a + pos_part b))

pub Rep-mul :
    (a b : ℤ) (x y u v : ℕ) → Rep a x y → Rep b u v → Rep (a *ℤ b) (x * u + y * v) (x * v + y * u)
unfolding ◌*ℤ◌
Rep-mul (pos n) (pos m) x y u v p q =
    let e : x ≡ n + y = omega arith in
    let f : u ≡ m + v = omega arith in
    rw (e, f) (omega (arith, sub_parts (n * m + 0 * 0) (n * 0 + 0 * m)))
Rep-mul (pos n) (negsuc m) x y u v p q =
    let e : x ≡ n + y = omega arith in
    let f : v ≡ suc m + u = omega arith in
    rw (e, f) (omega (arith, sub_parts (n * 0 + 0 * suc m) (n * suc m + 0 * 0)))
Rep-mul (negsuc n) (pos m) x y u v p q =
    let e : y ≡ suc n + x = omega arith in
    let f : u ≡ m + v = omega arith in
    rw (e, f) (omega (arith, sub_parts (0 * m + suc n * 0) (0 * 0 + suc n * m)))
Rep-mul (negsuc n) (negsuc m) x y u v p q =
    let e : y ≡ suc n + x = omega arith in
    let f : v ≡ suc m + u = omega arith in
    rw (e, f) (omega (arith, sub_parts (0 * 0 + suc n * suc m) (0 * suc m + suc n * 0)))

pub to_size-Rep :
    (a : ℤ) (x y : ℕ) → Rep a x y → to_size a ≡ (x % 2 ^ 64 + (2 ^ 64 - y % 2 ^ 64)) % 2 ^ 64
to_size-Rep a x y p = omega arith

-- The conversion to `size_t` takes sums to sums modulo 2 ^ 64.
pub to_size-add : (a b : ℤ) → to_size (a +ℤ b) ≡ (to_size a + to_size b) % 2 ^ 64
to_size-add a b =
    let r =
      Rep-add a b (pos_part a) (neg_part a) (pos_part b) (neg_part b) (Rep-self a) (Rep-self b) in
    omega (arith, to_size-Rep (a +ℤ b) (pos_part a + pos_part b) (neg_part a + neg_part b) r)

-- The offset of an element of a slice, in two ways.
pub slice_offset : (s k j t : ℤ) → (s +ℤ k *ℤ j) *ℤ t ≡ s *ℤ t +ℤ j *ℤ (k *ℤ t)
slice_offset s k j t =
    let kj = Rep-mul k j _ _ _ _ (Rep-self k) (Rep-self j) in
    let sum = Rep-add s (k *ℤ j) _ _ _ _ (Rep-self s) kj in
    let left = Rep-mul (s +ℤ k *ℤ j) t _ _ _ _ sum (Rep-self t) in
    let st = Rep-mul s t _ _ _ _ (Rep-self s) (Rep-self t) in
    let kt = Rep-mul k t _ _ _ _ (Rep-self k) (Rep-self t) in
    let ktj = Rep-mul j (k *ℤ t) _ _ _ _ (Rep-self j) kt in
    let right = Rep-add (s *ℤ t) (j *ℤ (k *ℤ t)) _ _ _ _ st ktj in
    Rep-eq ((s +ℤ k *ℤ j) *ℤ t) (s *ℤ t +ℤ j *ℤ (k *ℤ t)) _ _ _ _ left right (omega arith)

-- The quotient of C by a positive and by a negative number.
pub quot_pos :
    (z : ℤ) (x y k : ℕ) → Rep z x y → y ≤ x → quot z (pos (suc k)) ≡ pos ((x - y) / suc k)
unfolding quot
quot_pos z x y k r h = let e : z ≡ pos (x - y) = ground arith in rw e (ground arith)

pub quot_neg : (z : ℤ) (x y k : ℕ) → Rep z x y → x ≤ y → quot z (negsuc k) ≡ pos ((y - x) / suc k)
unfolding quot
quot_neg (pos n) x y k r h =
    let e : n ≡ 0 = omega arith in
    let f : y - x ≡ 0 = omega arith in rw (e, f) (ground (arith, zero-div (suc k)))
quot_neg (negsuc n) x y k r h = let e : y - x ≡ suc n = omega arith in rw e (ground arith)

-- A quotient of numbers of different signs is negative from the divisor on.
pub quot_pos_negative :
    (z : ℤ) (x y k : ℕ) → Rep z x y → x + suc k ≤ y → ltb_ℤ (quot z (pos (suc k))) (pos 0) ≡ true
unfolding quot
quot_pos_negative z x y k r h =
    let e : z ≡ negsuc (y - x - 1) = ground arith in
    let f : 1 ≤ suc (y - x - 1) / suc k =
      (le-div_iff_mul-le {k = suc k} {x = 1} {y = suc (y - x - 1)} (omega arith)).1 (omega arith) in
    rw e (ground (arith, f))

pub quot_neg_negative :
    (z : ℤ) (x y k : ℕ) → Rep z x y → y + suc k ≤ x → ltb_ℤ (quot z (negsuc k)) (pos 0) ≡ true
unfolding quot
quot_neg_negative z x y k r h =
    let e : z ≡ pos (x - y) = ground arith in
    let f : 1 ≤ (x - y) / suc k =
      (le-div_iff_mul-le {k = suc k} {x = 1} {y = x - y} (omega arith)).1 (omega arith) in
    rw e (ground (arith, f))

-- An integer from 0 to `n`.
abbrev pub Below : ℤ → ℕ → Type 0
Below i n = (neg_part i ≡ 0) × (pos_part i < n)

pub Rep-Below : (z : ℤ) (x y n : ℕ) → Rep z x y → y ≤ x → x - y < n → Below z n
Rep-Below z x y n r h k = ground arith
