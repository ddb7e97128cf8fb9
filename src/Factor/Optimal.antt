-- ===== src/Factor/Optimal.antt =====
-- The 3- and 5-smooth numbers that the searches of src/util/integerfactoring.c propose.
use libgpuarray.Base.{
  ℕ, zero, suc, ◌+◌, ◌*◌, ◌/◌, ◌%◌, ◌^◌, ◌≤◌, ◌<◌, true, false, ◌&&◌, ◌||◌, ltb, leb, ◌==◌, ◌≡◌,
  ◌⊎◌, inl, inr, refl, sym, ap, ◌∙◌, arith, Bool-cases, leb→le,
}
use native.Mathlib.Nat.{
  pow-zero, pow-succ', mul-one, one-mul, mul_comm, mul_assoc, pow-le-pow_right, mod-eq_of_lt,
  mul-div_cancel_left,
}
use native.Mathlib.Numerals.{add-one}
use libgpuarray.Base.Modulo.{mod-mul_left}
use libgpuarray.Factor.Smooth.{
  Best, first_best, improves, improved, scaled, smooth3_loop, smooth35_loop, smooth5_loop,
  overflows3,
}
use libgpuarray.Factor.Scale.{scaled-power}

-- The best number so far is 2 ^ 64, or a product of powers of 2, 3 and 5 that is not under `n`.
abbrev pub IsSmooth : ℕ → Best → Type 0
IsSmooth n b =
    (b.is_best_2to64 ≡ true)
    ⊎ ((s : ℕ) × (b.n_best ≡ 3 ^ b.i3_best * 5 ^ b.i5_best * 2 ^ s)
        × (n ≤ b.n_best)
        × (b.n_best < 2 ^ 64))

improved-IsSmooth :
    (n c i3 i5 s : ℕ) (b : Best)
    → IsSmooth n b
    → c ≡ 3 ^ i3 * 5 ^ i5 * 2 ^ s
    → n ≤ c
    → c < 2 ^ 64
    → IsSmooth n (improved b c i3 i5)
improved-IsSmooth n c i3 i5 s b v e l u = elim (Bool-cases (improves b c)) [
  | inl a ↦ rw a (inr (s, e, l, u))
  | inr a ↦ rw a v
]

-- The next power of a factor, as the loops compute it.
next_power : (f i p : ℕ) → p ≡ f ^ i % 2 ^ 64 → p * f % 2 ^ 64 ≡ f ^ (i + 1) % 2 ^ 64
next_power f i p e =
    rw (e, add-one i, pow-succ' f i)
      (mod-mul_left (f ^ i) f (2 ^ 64) ∙ ap (λ t. t % 2 ^ 64) (mul_comm (f ^ i) f))

power-exact : (f i m : ℕ) → 0 < f → i ≤ m → f ^ m < 2 ^ 64 → f ^ i % 2 ^ 64 ≡ f ^ i
power-exact f i m p h l =
    let g : f ^ i ≤ f ^ m = pow-le-pow_right {n = f} p {i = i} {j = m} h in
    mod-eq_of_lt (omega arith)

not_ltb : (a c : ℕ) → ltb a c ≡ false → c ≤ a
not_ltb a c f = ground arith

not_leb : (a c : ℕ) → leb a c ≡ false → c < a
not_leb a c f = ground arith

scaled-IsSmooth :
    (n c i3 i5 : ℕ) (b : Best)
    → n < 2 ^ 64
    → IsSmooth n b
    → c ≡ 3 ^ i3 * 5 ^ i5
    → c < n
    → ltb (scaled n c) n ≡ false
    → IsSmooth n (improved b (scaled n c) i3 i5)
scaled-IsSmooth n c i3 i5 b h v e l a =
    let (s, q, u) = scaled-power n c l h a in
    improved-IsSmooth n (scaled n c) i3 i5 s b v (q ∙ ap (λ t. t * 2 ^ s) e)
      (not_ltb (scaled n c) n a) u

times_one : (x : ℕ) → x * 2 ^ 0 ≡ x
times_one x = ap (λ t. x * t) (pow-zero 2) ∙ mul-one x

smooth3_loop-IsSmooth :
    (rounds n i3 p3 : ℕ) (b : Best)
    → rounds + i3 ≡ 41
    → p3 ≡ 3 ^ i3 % 2 ^ 64
    → n < 2 ^ 64
    → IsSmooth n b
    → IsSmooth n (smooth3_loop rounds n i3 p3 b)
unfolding smooth3_loop
smooth3_loop-IsSmooth zero n i3 p3 b r e h v = v
smooth3_loop-IsSmooth (suc rounds) n i3 p3 b r e h v =
    let exact : p3 ≡ 3 ^ i3 * 5 ^ 0 =
      e
      ∙ power-exact 3 i3 40 (omega arith) (omega arith) (omega arith)
      ∙ sym (ap (λ t. 3 ^ i3 * t) (pow-zero 5) ∙ mul-one (3 ^ i3)) in
    let more = next_power 3 i3 p3 e in
    elim (Bool-cases (leb n p3)) [
      | inl a ↦ rw a (
          improved-IsSmooth n p3 i3 0 0 b v (exact ∙ sym (times_one (3 ^ i3 * 5 ^ 0)))
            (leb→le n p3 a) (omega (arith, e)))
      | inr a ↦ rw a (elim (Bool-cases (ltb (scaled n p3) n)) [
        | inl c ↦
            rw c
              (smooth3_loop-IsSmooth rounds n (i3 + 1) (p3 * 3 % 2 ^ 64) b (omega arith) more h v)
        | inr c ↦ rw c (
            let w = scaled-IsSmooth n p3 i3 0 b h v exact (not_leb n p3 a) c in
            elim (Bool-cases (improves b (scaled n p3) && (scaled n p3 == n))) [
              | inl d ↦ rw d w
              | inr d ↦ rw d (
                  smooth3_loop-IsSmooth rounds n (i3 + 1) (p3 * 3 % 2 ^ 64)
                    (improved b (scaled n p3) i3 0) (omega arith) more h w)
            ])
      ])
    ]

pub smooth3-IsSmooth : (n : ℕ) → n < 2 ^ 64 → IsSmooth n (smooth3_loop 41 n 0 1 first_best)
smooth3-IsSmooth n h =
    smooth3_loop-IsSmooth 41 n 0 1 first_best refl (sym (ap (λ t. t % 2 ^ 64) (pow-zero 3))) h
      (inl refl)

improved-i5 : (c i3 : ℕ) (b : Best) → b.i5_best ≡ 0 → (improved b c i3 0).i5_best ≡ 0
improved-i5 c i3 b e = elim (Bool-cases (improves b c)) [ inl a ↦ rw a refl | inr a ↦ rw a e ]

-- The search for 3-smooth numbers has no power of 5.
smooth3_loop-i5 :
    (rounds n i3 p3 : ℕ) (b : Best) → b.i5_best ≡ 0 → (smooth3_loop rounds n i3 p3 b).i5_best ≡ 0
unfolding smooth3_loop
smooth3_loop-i5 zero n i3 p3 b e = e
smooth3_loop-i5 (suc rounds) n i3 p3 b e =
    let w = improved-i5 (scaled n p3) i3 b e in
    elim (Bool-cases (leb n p3)) [
      | inl a ↦ rw a (improved-i5 p3 i3 b e)
      | inr a ↦ rw a (elim (Bool-cases (ltb (scaled n p3) n)) [
        | inl c ↦ rw c (smooth3_loop-i5 rounds n (i3 + 1) (p3 * 3 % 2 ^ 64) b e)
        | inr c ↦ rw c (elim (Bool-cases (improves b (scaled n p3) && (scaled n p3 == n))) [
          | inl d ↦ rw d w
          | inr d ↦ rw d (
              smooth3_loop-i5 rounds n (i3 + 1) (p3 * 3 % 2 ^ 64) (improved b (scaled n p3) i3 0) w)
        ])
      ])
    ]

pub smooth3-i5 : (n : ℕ) → (smooth3_loop 41 n 0 1 first_best).i5_best ≡ 0
smooth3-i5 n = smooth3_loop-i5 41 n 0 1 first_best refl

-- What the product of powers of 3 and 5 was in the round before, if there was one.
abbrev Before : ℕ → ℕ → Type 0
Before zero i5 = Unit
Before (suc j) i5 = 3 ^ j * 5 ^ i5 < 2 ^ 64

triple-fits :
    (c : ℕ)
    → c < 2 ^ 64
    → (ltb ((c + c) % 2 ^ 64) c || ltb (((c + c) % 2 ^ 64 + c) % 2 ^ 64) ((c + c) % 2 ^ 64)) ≡ false
    → 3 * c < 2 ^ 64
triple-fits c h e = elim (Bool-cases (ltb ((c + c) % 2 ^ 64) c)) [
  | inl a ↦ let z : true ≡ false = rw a at e in cc
  | inr a ↦
      let f : ltb (((c + c) % 2 ^ 64 + c) % 2 ^ 64) ((c + c) % 2 ^ 64) ≡ false = rw a at e in
      let g = not_ltb ((c + c) % 2 ^ 64) c a in
      let k = not_ltb (((c + c) % 2 ^ 64 + c) % 2 ^ 64) ((c + c) % 2 ^ 64) f in omega arith
]

-- The check for overflow is exact enough: the product of the round does not overflow.
product35-exact :
    (i3 i5 p3 p5 : ℕ)
    → p3 ≡ 3 ^ i3
    → p5 ≡ 5 ^ i5
    → p5 < 2 ^ 64
    → Before i3 i5
    → overflows3 i3 p3 p5 ≡ false
    → p3 * p5 % 2 ^ 64 ≡ 3 ^ i3 * 5 ^ i5
product35-exact zero i5 p3 p5 e g h b o =
    let one : p3 ≡ 1 = e ∙ pow-zero 3 in
    let w : p3 * p5 ≡ p5 = ap (λ t. t * p5) one ∙ one-mul p5 in
    ap (λ t. t % 2 ^ 64) w
    ∙ mod-eq_of_lt h
    ∙ sym (ap (λ t. t * 5 ^ i5) (pow-zero 3) ∙ one-mul (5 ^ i5) ∙ sym g)
product35-exact (suc j) i5 p3 p5 e g h b o =
    let third : p3 / 3 ≡ 3 ^ j =
      ap (λ t. t / 3) (e ∙ pow-succ' 3 j) ∙ mul-div_cancel_left (3 ^ j) {n = 3} (omega arith) in
    let c : p3 / 3 * p5 % 2 ^ 64 ≡ 3 ^ j * 5 ^ i5 = rw (third, g) (mod-eq_of_lt b) in
    let later : (suc j == 0) ≡ false = ground arith in
    let t = triple-fits (3 ^ j * 5 ^ i5) b (rw (c, later) at o) in
    let whole : 3 * (3 ^ j * 5 ^ i5) ≡ 3 ^ suc j * 5 ^ i5 =
      sym (mul_assoc 3 (3 ^ j) (5 ^ i5)) ∙ ap (λ s. s * 5 ^ i5) (sym (pow-succ' 3 j)) in
    rw (e, g) (mod-eq_of_lt (rw whole at t))

smooth35_loop-IsSmooth :
    (rounds n i5 p5 i3 p3 : ℕ) (b : Best)
    → rounds + i3 ≡ 41
    → p3 ≡ 3 ^ i3 % 2 ^ 64
    → p5 ≡ 5 ^ i5
    → p5 < n
    → Before i3 i5
    → n < 2 ^ 64
    → IsSmooth n b
    → IsSmooth n (smooth35_loop rounds n i5 p5 i3 p3 b).0
unfolding smooth35_loop
smooth35_loop-IsSmooth zero n i5 p5 i3 p3 b r e g l k h v = v
smooth35_loop-IsSmooth (suc rounds) n i5 p5 i3 p3 b r e g l k h v =
    let p3-exact : p3 ≡ 3 ^ i3 =
      e ∙ power-exact 3 i3 40 (omega arith) (omega arith) (omega arith) in
    let more = next_power 3 i3 p3 e in
    let c = p3 * p5 % 2 ^ 64 in
    elim (Bool-cases (overflows3 i3 p3 p5)) [
      | inl o ↦ rw o v
      | inr o ↦ rw o (
          let exact = product35-exact i3 i5 p3 p5 p3-exact g (omega arith) k o in
          elim (Bool-cases (leb n c)) [
            | inl a ↦ rw a (
                improved-IsSmooth n c i3 i5 0 b v (exact ∙ sym (times_one (3 ^ i3 * 5 ^ i5)))
                  (leb→le n c a) (omega arith))
            | inr a ↦ rw a (
                let under = not_leb n c a in
                let before : Before (i3 + 1) i5 = rw (add-one i3) (omega (arith, exact)) in
                elim (Bool-cases (ltb (scaled n c) n)) [
                  | inl d ↦ rw d (
                      smooth35_loop-IsSmooth rounds n i5 p5 (i3 + 1) (p3 * 3 % 2 ^ 64) b
                        (omega arith) more g l before h v)
                  | inr d ↦ rw d (
                      let w = scaled-IsSmooth n c i3 i5 b h v exact under d in
                      elim (Bool-cases (improves b (scaled n c) && (scaled n c == n))) [
                        | inl f ↦ rw f w
                        | inr f ↦ rw f (
                            smooth35_loop-IsSmooth rounds n i5 p5 (i3 + 1) (p3 * 3 % 2 ^ 64)
                              (improved b (scaled n c) i3 i5) (omega arith) more g l before h w)
                      ])
                ])
          ])
    ]

smooth5_loop-IsSmooth :
    (rounds n i5 p5 : ℕ) (b : Best)
    → rounds + i5 ≡ 28
    → p5 ≡ 5 ^ i5 % 2 ^ 64
    → n < 2 ^ 64
    → IsSmooth n b
    → IsSmooth n (smooth5_loop rounds n i5 p5 b)
unfolding smooth5_loop
smooth5_loop-IsSmooth zero n i5 p5 b r e h v = v
smooth5_loop-IsSmooth (suc rounds) n i5 p5 b r e h v =
    let exact : p5 ≡ 5 ^ i5 = e ∙ power-exact 5 i5 27 (omega arith) (omega arith) (omega arith) in
    let alone : p5 ≡ 3 ^ 0 * 5 ^ i5 * 2 ^ 0 =
      exact
      ∙ sym (times_one (3 ^ 0 * 5 ^ i5) ∙ ap (λ t. t * 5 ^ i5) (pow-zero 3) ∙ one-mul (5 ^ i5)) in
    elim (Bool-cases (leb n p5)) [
      | inl a ↦ rw a (improved-IsSmooth n p5 0 i5 0 b v alone (leb→le n p5 a) (omega (arith, e)))
      | inr a ↦ rw a (
          let w =
            smooth35_loop-IsSmooth 41 n i5 p5 0 1 b refl (sym (ap (λ t. t % 2 ^ 64) (pow-zero 3)))
              exact (not_leb n p5 a) tt h v in
          elim (Bool-cases (smooth35_loop 41 n i5 p5 0 1 b).1) [
            | inl c ↦ rw c w
            | inr c ↦ rw c (
                smooth5_loop-IsSmooth rounds n (i5 + 1) (p5 * 5 % 2 ^ 64)
                  (smooth35_loop 41 n i5 p5 0 1 b).0 (omega arith) (next_power 5 i5 p5 e) h w)
          ])
    ]

pub smooth5-IsSmooth : (n : ℕ) → n < 2 ^ 64 → IsSmooth n (smooth5_loop 28 n 0 1 first_best)
smooth5-IsSmooth n h =
    smooth5_loop-IsSmooth 28 n 0 1 first_best refl (sym (ap (λ t. t % 2 ^ 64) (pow-zero 5))) h
      (inl refl)
