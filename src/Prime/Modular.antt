-- ===== src/Prime/Modular.antt =====
-- The modular operations of src/util/integerfactoring.c compute what their names say.
use libgpuarray.Base.{
  ℕ, zero, suc, ◌+◌, ◌-◌, ◌*◌, ◌/◌, ◌%◌, ◌^◌, ◌≤◌, ◌<◌, true, false, ltb, leb, ◌==◌, if◌then◌else◌,
  ◌≡◌, ◌≢◌, inl, inr, refl, sym, ap, ◌∙◌, arith, Bool-cases, ==_iff, leb→le, ltb→lt,
}
use native.Mathlib.Nat.{
  zero-mul, add_comm, pow-zero, pow-succ', mul-one, one-mul, mul_comm, mul_assoc, mod-eq_of_lt,
  mod-eq-sub-mod, mod-lt, mod-add-mod, add-mod_right,
}
use libgpuarray.Base.Modulo.{mod-mul_left}
use libgpuarray.Prime.{gai_add_mod, gai_sub_mod, gai_avg_mod, gai_mul_mod, pow_loop, gai_pow_mod}

mod-add_both : (a b m : ℕ) → (a % m + b % m) % m ≡ (a + b) % m
mod-add_both a b m =
    mod-add-mod a m (b % m)
    ∙ ap (λ t. t % m) (add_comm a (b % m))
    ∙ mod-add-mod b m a
    ∙ ap (λ t. t % m) (add_comm b a)

-- A sum of reduced numbers needs one subtraction at most.
reduced-sum :
    (r s m : ℕ)
    → r < m
    → s < m
    → m < 2 ^ 64
    → (if ltb s (m - r) then (r + s) % 2 ^ 64 else (r + s + 2 ^ 64 - m) % 2 ^ 64) ≡ (r + s) % m
reduced-sum r s m p q h = elim (Bool-cases (ltb s (m - r))) [
  | inl a ↦ rw a (
      let low : r + s < m = omega (arith, ltb→lt s (m - r) a) in
      omega (arith, mod-eq_of_lt {n = r + s} {m = m} low))
  | inr a ↦ rw a (
      let up : m ≤ r + s = ground arith in
      omega (arith, mod-eq-sub-mod up, mod-eq_of_lt {n = r + s - m} {m = m} (omega arith)))
]

-- gaIAddMod is addition modulo `m`.
pub gai_add_mod-mod : (a b m : ℕ) → 0 < m → m < 2 ^ 64 → gai_add_mod a b m ≡ (a + b) % m
unfolding gai_add_mod
gai_add_mod-mod a b m p h =
    reduced-sum (a % m) (b % m) m (mod-lt a p) (mod-lt b p) h ∙ mod-add_both a b m

-- gaISubMod is subtraction: the sum with `b` is `a` again.
pub gai_sub_mod-mod :
    (a b m : ℕ)
    → 0 < m
    → m < 2 ^ 64
    → (gai_sub_mod a b m < m) × ((gai_sub_mod a b m + b) % m ≡ a % m)
unfolding gai_sub_mod
gai_sub_mod-mod a b m p h =
    let u = mod-lt a p in
    let w = mod-lt b p in
    elim (Bool-cases (leb (b % m) (a % m))) [
      | inl e ↦ rw e (
          let l = leb→le (b % m) (a % m) e in
          (omega arith, back (a % m - b % m) (a % m) (omega arith) (mod-eq_of_lt u)))
      | inr e ↦ rw e (
          let l : a % m < b % m = ground arith in
          let v : (a % m + 2 ^ 64 - b % m + m) % 2 ^ 64 ≡ a % m + m - b % m = omega arith in
          rw v (
            omega arith,
            back (a % m + m - b % m) (a % m + m) (omega arith)
                (add-mod_right (a % m) m ∙ mod-eq_of_lt u),
          ))
    ]
  where
    back : (r t : ℕ) → r + b % m ≡ t → t % m ≡ a % m → (r + b) % m ≡ a % m
    back r t e f =
        ap (λ s. s % m) (add_comm r b)
        ∙ sym (mod-add-mod b m r)
        ∙ ap (λ s. s % m) (add_comm (b % m) r)
        ∙ ap (λ s. s % m) e
        ∙ f

-- The half of a reduced sum, of itself or with an odd `m`.
halved :
    (s m : ℕ)
    → m % 2 ≡ 1
    → m < 2 ^ 64
    → s < m
    → let r = if s % 2 == 1 then (s / 2 + m / 2 + s % 2 * (m % 2)) % 2 ^ 64 else s / 2 in
      (r < m) × (2 * r % m ≡ s)
halved s m o h l = elim (Bool-cases (s % 2 == 1)) [
  | inl a ↦
      let b : s % 2 ≡ 1 = (==_iff (s % 2) 1).0 a in
      let c : (s / 2 + m / 2 + s % 2 * (m % 2)) % 2 ^ 64 ≡ s / 2 + m / 2 + 1 =
        rw (b, o) (omega arith) in
      let d : 2 * (s / 2 + m / 2 + 1) ≡ s + m = omega arith in
      rw (a, c) (omega arith, ap (λ t. t % m) d ∙ add-mod_right s m ∙ mod-eq_of_lt l)
  | inr a ↦
      let d : 2 * (s / 2) ≡ s = ground arith in
      rw a (omega arith, ap (λ t. t % m) d ∙ mod-eq_of_lt l)
]

-- gaIAvgMod is the half of the sum modulo an odd `m`: it is below `m`, and its double is the sum.
pub gai_avg_mod-mod :
    (a b m : ℕ)
    → m % 2 ≡ 1
    → m < 2 ^ 64
    → (gai_avg_mod a b m < m) × (2 * gai_avg_mod a b m % m ≡ (a + b) % m)
unfolding gai_avg_mod
gai_avg_mod-mod a b m o h =
    let p : 0 < m = omega arith in
    rw (gai_add_mod-mod a b m p h) (halved ((a + b) % m) m o h (mod-lt (a + b) p))

mod-mul_both : (a b m : ℕ) → (a % m) * (b % m) % m ≡ a * b % m
mod-mul_both a b m =
    mod-mul_left a (b % m) m
    ∙ ap (λ t. t % m) (mul_comm a (b % m))
    ∙ mod-mul_left b a m
    ∙ ap (λ t. t % m) (mul_comm b a)

pow-mod : (x a m : ℕ) → (x % m) ^ a % m ≡ x ^ a % m
pow-mod x zero m = ap (λ t. t % m) (pow-zero (x % m) ∙ sym (pow-zero x))
pow-mod x (suc a) m =
    ap (λ t. t % m) (pow-succ' (x % m) a)
    ∙ mod-mul_left x ((x % m) ^ a) m
    ∙ ap (λ t. t % m) (mul_comm x ((x % m) ^ a))
    ∙ sym (mod-mul_left ((x % m) ^ a) x m)
    ∙ ap (λ t. t * x % m) (pow-mod x a m)
    ∙ mod-mul_left (x ^ a) x m
    ∙ ap (λ t. t % m) (mul_comm (x ^ a) x ∙ sym (pow-succ' x a))

square-pow : (x a : ℕ) → (x * x) ^ a ≡ x ^ (2 * a)
square-pow x zero = pow-zero (x * x) ∙ sym (pow-zero x)
square-pow x (suc a) =
    let e : 2 * suc a ≡ suc (suc (2 * a)) = omega arith in
    pow-succ' (x * x) a
    ∙ ap (λ t. x * x * t) (square-pow x a)
    ∙ mul_assoc x x (x ^ (2 * a))
    ∙ ap (λ t. x * t) (sym (pow-succ' x (2 * a)))
    ∙ sym (pow-succ' x (suc (2 * a)))
    ∙ ap (λ t. x ^ t) (sym e)

-- A round of squaring keeps the power that is to be computed.
round-even : (r x a m : ℕ) → a % 2 ≡ 0 → r * (x * x % m) ^ (a / 2) % m ≡ r * x ^ a % m
round-even r x a m e =
    let f : 2 * (a / 2) ≡ a = omega arith in
    ap (λ t. t % m) (mul_comm r ((x * x % m) ^ (a / 2)))
    ∙ sym (mod-mul_left ((x * x % m) ^ (a / 2)) r m)
    ∙ ap (λ t. t * r % m) (pow-mod (x * x) (a / 2) m)
    ∙ mod-mul_left ((x * x) ^ (a / 2)) r m
    ∙ ap (λ t. t % m) (mul_comm ((x * x) ^ (a / 2)) r)
    ∙ ap (λ t. r * t % m) (square-pow x (a / 2) ∙ ap (λ t. x ^ t) f)

round-odd : (r x a m : ℕ) → a % 2 ≡ 1 → r * x % m * (x * x % m) ^ (a / 2) % m ≡ r * x ^ a % m
round-odd r x a m e =
    let f : suc (2 * (a / 2)) ≡ a = omega arith in
    mod-mul_left (r * x) ((x * x % m) ^ (a / 2)) m
    ∙ ap (λ t. t % m) (mul_comm (r * x) ((x * x % m) ^ (a / 2)))
    ∙ sym (mod-mul_left ((x * x % m) ^ (a / 2)) (r * x) m)
    ∙ ap (λ t. t * (r * x) % m) (pow-mod (x * x) (a / 2) m)
    ∙ mod-mul_left ((x * x) ^ (a / 2)) (r * x) m
    ∙ ap (λ t. t % m) (mul_comm ((x * x) ^ (a / 2)) (r * x) ∙ mul_assoc r x ((x * x) ^ (a / 2)))
    ∙ ap (λ t. r * (x * t) % m) (square-pow x (a / 2))
    ∙ ap (λ t. r * t % m) (sym (pow-succ' x (2 * (a / 2))) ∙ ap (λ t. x ^ t) f)

pow_loop-mod :
    (rounds r x a m : ℕ) → r < m → a < 2 ^ rounds → pow_loop rounds r x a m ≡ r * x ^ a % m
unfolding pow_loop gai_mul_mod
pow_loop-mod zero r x a m p h =
    let e : a ≡ 0 = omega (arith, pow-zero 2) in
    rw (e, pow-zero x) (sym (mod-eq_of_lt p) ∙ ap (λ t. t % m) (sym (mul-one r)))
pow_loop-mod (suc rounds) r x a m p h = elim (Bool-cases (a == 0)) [
  | inl b ↦
      let e : a ≡ 0 = (==_iff a 0).0 b in
      rw b (
        rw e
          (sym (mod-eq_of_lt p) ∙ ap (λ t. t % m) (sym (ap (λ t. r * t) (pow-zero x) ∙ mul-one r))))
  | inr b ↦ rw b (elim (Bool-cases (a % 2 == 1)) [
    | inl c ↦ rw c (
        pow_loop-mod rounds (r * x % m) (x * x % m) (a / 2) m (mod-lt (r * x) (omega arith))
          (omega (arith, pow-succ' 2 rounds))
        ∙ round-odd r x a m ((==_iff _ 1).0 c))
    | inr c ↦ rw c (
        pow_loop-mod rounds r (x * x % m) (a / 2) m p (omega (arith, pow-succ' 2 rounds))
        ∙ round-even r x a m (ground arith))
  ])
]

one-pow : (a : ℕ) → 1 ^ a ≡ 1
one-pow zero = pow-zero 1
one-pow (suc a) = pow-succ' 1 a ∙ one-mul (1 ^ a) ∙ one-pow a

-- The special case of a base that is 0 or 1 modulo `m`.
small-base : (y a m : ℕ) → leb y 1 ≡ true → y < m → a ≢ 0 → y ≡ y ^ a % m
small-base zero zero m h l n = absurd (n refl)
small-base zero (suc a) m h l n =
    sym (ap (λ t. t % m) (pow-succ' 0 a ∙ zero-mul (0 ^ a)) ∙ mod-eq_of_lt l)
small-base (suc zero) a m h l n = sym (ap (λ t. t % m) (one-pow a) ∙ mod-eq_of_lt l)
small-base (suc (suc y)) a m h l n = absurd (ground arith)

pow-one : (y : ℕ) → y ^ 1 ≡ y
pow-one y = pow-succ' y 0 ∙ ap (λ t. y * t) (pow-zero y) ∙ mul-one y

-- gaIPowMod is the power modulo `m`, for every exponent of 64 bits: the 64 rounds are enough.
pub gai_pow_mod-mod : (x a m : ℕ) → 0 < m → a < 2 ^ 64 → gai_pow_mod x a m ≡ x ^ a % m
unfolding gai_pow_mod gai_mul_mod
gai_pow_mod-mod x a m p h = elim (Bool-cases (leb m 1)) [
  | inl b ↦ let e : m ≡ 1 = omega (arith, leb→le m 1 b) in rw b (rw e (omega arith))
  | inr b ↦ rw b (elim (Bool-cases (a == 0)) [
    | inl c ↦
        let e : a ≡ 0 = (==_iff a 0).0 c in
        rw c (rw (e, pow-zero x) (sym (mod-eq_of_lt {n = 1} {m = m} (ground arith))))
    | inr c ↦ rw c (big (x % m) (mod-lt x p) (λ e. not_zero e c) ∙ pow-mod x a m)
  ])
]
  where
    not_zero : a ≡ 0 → (a == 0) ≡ false → ⊥
    not_zero e c = ground arith

    big :
        (y : ℕ)
        → y < m
        → a ≢ 0
        → (if leb y 1
            then y
            else if a == 1
            then y
            else if a == 2
            then y * y % m
            else pow_loop 64 1 y a m)
          ≡ y ^ a % m
    big y l n = elim (Bool-cases (leb y 1)) [
      | inl d ↦ rw d (small-base y a m d l n)
      | inr d ↦ rw d (elim (Bool-cases (a == 1)) [
        | inl f ↦ rw f (rw ((==_iff a 1).0 f) (sym (ap (λ t. t % m) (pow-one y) ∙ mod-eq_of_lt l)))
        | inr f ↦ rw f (elim (Bool-cases (a == 2)) [
          | inl g ↦ rw g (
              rw ((==_iff a 2).0 g)
                (ap (λ t. t % m) (sym (pow-succ' y 1 ∙ ap (λ t. y * t) (pow-one y)))))
          | inr g ↦
              rw g (pow_loop-mod 64 1 y a m (ground arith) h ∙ ap (λ t. t % m) (one-mul (y ^ a)))
        ])
      ])
    ]
