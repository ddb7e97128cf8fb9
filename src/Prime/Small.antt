-- ===== src/Prime/Small.antt =====
-- gaIIsPrime of src/util/integerfactoring.c on the numbers of its table.
use libgpuarray.Base.{
  ℕ, zero, suc, ◌%◌, ◌≤◌, ◌<◌, Bool, true, false, not, ◌&&◌, ◌||◌, Option, none, some, ltb, leb,
  ◌==◌, ◌≡◌, ◌≢◌, ◌↔◌, inl, inr, refl, sym, ap, ◌∙◌, arith, Bool-cases, ==_iff, ltb→lt,
}
use mathlib.Core.Option.{none-ne-some}
use libgpuarray.Prime.Check.{gai_is_prime, table, prime}

abbrev pub IsPrime : ℕ → Type 0
IsPrime n = (2 ≤ n) × ((d : ℕ) → 2 ≤ d → d < n → n % d ≢ 0)

-- No number from 2 to `d - 1` divides `n`.
no_divisor : ℕ → ℕ → Bool
no_divisor zero n = true
no_divisor (suc d) n = (ltb d 2 || not (n % d == 0)) && no_divisor d n

no_divisor_sound : (e n : ℕ) → no_divisor e n ≡ true → (d : ℕ) → 2 ≤ d → d < e → n % d ≢ 0
unfolding no_divisor
no_divisor_sound zero n h d p q = absurd (omega arith)
no_divisor_sound (suc e) n h d p q = elim (Bool-cases (d == e)) [
  | inl a ↦ let same : d ≡ e = (==_iff d e).0 a in rw same (λ z. here e n h z (omega arith))
  | inr a ↦ no_divisor_sound e n (ground arith) d p (ground arith)
]
  where
    here : (e n : ℕ) → no_divisor (suc e) n ≡ true → n % e ≡ 0 → 2 ≤ e → ⊥
    here e n h z p = ground arith

no_divisor_complete : (e n : ℕ) → ((d : ℕ) → 2 ≤ d → d < e → n % d ≢ 0) → no_divisor e n ≡ true
unfolding no_divisor
no_divisor_complete zero n h = refl
no_divisor_complete (suc e) n h =
    let r = no_divisor_complete e n (λ d p q. h d p (omega arith)) in
    elim (Bool-cases (ltb e 2)) [
      | inl a ↦ rw a r
      | inr a ↦
          let ne : n % e ≢ 0 = h e (ground arith) (omega arith) in
          let f : (n % e == 0) ≡ false = ground (arith, ne) in rw (a, f) r
    ]

abbrev is_one : Option ℕ → Bool
is_one none = false
is_one (some c) = c == 1

abbrev agree : Bool → Bool → Bool
agree true b = b
agree false b = not b

right : ℕ → Bool
right n = agree (is_one (gai_is_prime 0 n)) (leb 2 n && no_divisor n n)

-- The table is right on every number below the bound.
right_until : ℕ → Bool
right_until zero = true
right_until (suc bound) = right_until bound && right bound

right_until_lem : (bound n : ℕ) → n < bound → right_until bound ≡ true → right n ≡ true
unfolding right_until
right_until_lem zero n h all = absurd (omega arith)
right_until_lem (suc bound) n h all = elim (Bool-cases (ltb n bound)) [
  | inl a ↦ right_until_lem bound n (ltb→lt n bound a) (ground arith)
  | inr a ↦ let last : n ≡ bound = ground arith in rw last (ground arith)
]

table_right : right_until 256 ≡ true
unfolding right_until right gai_is_prime no_divisor table
table_right = refl

small-eq : (fuel n : ℕ) → n < 256 → gai_is_prime fuel n ≡ gai_is_prime 0 n
unfolding gai_is_prime
small-eq fuel n h = let e : ltb n 256 ≡ true = ground arith in rw e refl

is_one_iff : (o : Option ℕ) → (is_one o ≡ true) ↔ (o ≡ some prime)
is_one_iff none = (λ h. absurd (ground (arith, h)), λ h. absurd (none-ne-some prime h))
is_one_iff (some c) = (
  λ h. ap some ((==_iff c 1).0 h),
  λ h. (==_iff c 1).1 (ap (λ o. elim o [ none ↦ c | some d ↦ d ]) h),
)

agree-eq : (a b : Bool) → agree a b ≡ true → a ≡ b
agree-eq true b h = sym h
agree-eq false true h = h
agree-eq false false h = refl

IsPrime-iff : (n : ℕ) → (leb 2 n && no_divisor n n ≡ true) ↔ IsPrime n
IsPrime-iff n = (
  λ h. (ground arith, no_divisor_sound n n (ground arith)),
  λ h. both-true (ground (arith, h.0)) (no_divisor_complete n n h.1),
)
  where
    both-true : {a b : Bool} → a ≡ true → b ≡ true → a && b ≡ true
    both-true p q = rw (p, q) refl

right_iff : (n : ℕ) → right n ≡ true → (gai_is_prime 0 n ≡ some prime) ↔ IsPrime n
unfolding right
right_iff n r =
    let same = agree-eq (is_one (gai_is_prime 0 n)) (leb 2 n && no_divisor n n) r in
    let one = is_one_iff (gai_is_prime 0 n) in
    let two = IsPrime-iff n in (λ h. two.0 (sym same ∙ one.1 h), λ h. one.0 (same ∙ two.1 h))

-- Below 256 gaIIsPrime returns GA_IS_PRIME just for the prime numbers.
pub gai_is_prime-IsPrime : (fuel n : ℕ) → n < 256 → (gai_is_prime fuel n ≡ some prime) ↔ IsPrime n
gai_is_prime-IsPrime fuel n h =
    rw (small-eq fuel n h) (right_iff n (right_until_lem 256 n h table_right))
