-- ===== src/Factor/Found.antt =====
-- The lists that gaIFactorize of src/util/integerfactoring.c finds by trial division.
use libgpuarray.Base.{
  ℕ, zero, suc, ◌+◌, ◌-◌, ◌*◌, ◌/◌, ◌%◌, ◌^◌, ◌≤◌, ◌<◌, Bool, ◌||◌, List, [], ltb, leb, ◌==◌,
  if◌then◌else◌, ◌≡◌, inl, inr, sym, ap, ◌∙◌, arith, Bool-cases, Option-cases, leb→le,
}
use native.Mathlib.Nat.{pow-zero, pow-succ', mul-one, one-mul}
use libgpuarray.Factor.{Entry, gaifl_get_factor_power}
use libgpuarray.Factor.Product.{product}
use libgpuarray.Factor.Limit.{power-zero, power-bound}
use libgpuarray.Factor.Partial.{
  Partial, with_factor-Partial, subfactorize-Partial, divided-Partial, product-exact,
  divided_up-Partial, next-Partial,
}
use libgpuarray.Factor.Smooth.{gai_ctz}
use libgpuarray.Factor.Divide.{trial-divides}
use libgpuarray.Factor.Search.{
  Outcome, found, absent, no_fuel, with_factor, trial, trial_fuel, divide_out, divided_up,
  prime_test, factorize_at, or_next, master_loop,
}

-- If there is a list, it is one for a number from `n` to `max_n` with no factor over `k`.
abbrev pub Finds : ℕ → ℕ → ℕ → Outcome → Type 0
Finds n max_n k (found fl) = Partial n max_n k fl 1
Finds n max_n k absent = Unit
Finds n max_n k no_fuel = Unit

last-Finds :
    (n max_n k : ℕ) (fl : List Entry) (x : ℕ)
    → max_n < 2 ^ 64
    → x ≤ k
    → Partial n max_n k fl x
    → Partial n max_n k (with_factor fl x 1) 1
last-Finds n max_n k fl x m h v =
    let same : x ≡ x ^ 1 * 1 =
      sym (mul-one (x ^ 1) ∙ pow-succ' x 0 ∙ ap (λ t. x * t) (pow-zero x) ∙ mul-one x) in
    let v' : Partial n max_n k fl (x ^ 1 * 1) = rw (← same) v in
    with_factor-Partial n max_n k fl x 1 1 m v.positive h (last_power x v') (omega arith) v'
  where
    last_power : (x : ℕ) → Partial n max_n k fl (x ^ 1 * 1) → gaifl_get_factor_power fl x + 1 < 256
    last_power zero w = omega (arith, power-zero 1 0 fl w.proper (omega arith))
    last_power (suc zero) w = omega (arith, power-zero 1 1 fl w.proper (omega arith))
    last_power (suc (suc x)) w =
        let b =
          power-bound fl (suc (suc x)) 1 1 w.proper (omega arith) (omega arith)
            (omega (arith, w.upper)) in
        omega arith

module _ (is_prime : ℕ → Bool) (n max_n k : ℕ) (q : 0 < n) (h : n ≤ max_n) (m : max_n < 2 ^ 64)
    (two : 2 ≤ k) where
  prime_test-Finds :
      (fuel f x : ℕ) (fl : List Entry)
      → 2 ≤ f
      → Partial n max_n k fl x
      → Finds n max_n k (prime_test is_prime fuel n max_n k f x fl)
  unfolding prime_test
  prime_test-Finds zero f x fl p v = tt
  prime_test-Finds (suc fuel) f x fl p v =
      let exact = product-exact n max_n k fl x m h v in
      elim (Bool-cases ((x == 1) || is_prime x)) [
        | inl a ↦ rw a (elim (Bool-cases (leb x k)) [
          | inl b ↦ rw b (last-Finds n max_n k fl x m (leb→le x k b) v)
          | inr b ↦ rw b (elim (Bool-cases (ltb (divided_up n (product fl)) x)) [
            | inl c ↦
                rw (exact, c)
                  (let y = divided_up n (product fl) in
                    prime_test-Finds fuel 3 (y / 2 ^ gai_ctz y) (with_factor fl 2 (gai_ctz y))
                      (omega arith)
                      (subfactorize-Partial n max_n k fl y m two
                        (divided_up-Partial n max_n k fl x m h v q c)))
            | inr c ↦
                rw (exact, c)
                  (elim (Bool-cases
                    (ltb ((max_n + 2 ^ 64 - product fl * x % 2 ^ 64) % 2 ^ 64) (product fl))) [
                      | inl d ↦ rw d tt
                      | inr d ↦ rw d (
                          let y = (x + 1) % 2 ^ 64 in
                          prime_test-Finds fuel 3 (y / 2 ^ gai_ctz y) (with_factor fl 2 (gai_ctz y))
                            (omega arith)
                            (subfactorize-Partial n max_n k fl y m two
                              (next-Partial n max_n k fl x m h v d)))
                    ])
          ])
        ])
        | inr a ↦ rw a (elim (Option-cases (trial trial_fuel k f x)) [
          | inl b ↦ rw b tt
          | inr (g, b) ↦ rw b (
              let t = trial-divides trial_fuel k f x g b in
              prime_test-Finds fuel g (divide_out 64 g x 0).0
                (with_factor fl g (divide_out 64 g x 0).1) (omega arith)
                (divided-Partial n max_n k fl x g m (omega arith) t.1 t.2 v))
        ])
      ]

  factorize_at-Finds :
      (fuel i : ℕ) → n ≤ i → i ≤ max_n → Finds n max_n k (factorize_at is_prime fuel n max_n k i)
  unfolding factorize_at product
  factorize_at-Finds fuel i l u =
      prime_test-Finds fuel 3 (i / 2 ^ gai_ctz i) (with_factor [] 2 (gai_ctz i)) (omega arith) (
        subfactorize-Partial n max_n k [] i m two record {
          proper = tt;
          positive = omega arith;
          upper = rw (one-mul i) u;
          lower = inl (rw (one-mul i) l);
          smooth = tt;
        })

  or_next-Finds :
      (a b : Outcome) → Finds n max_n k a → Finds n max_n k b → Finds n max_n k (or_next a b)
  or_next-Finds (found fl) b u v = u
  or_next-Finds absent b u v = v
  or_next-Finds no_fuel b u v = tt

  pub master_loop-Finds :
      (rounds fuel i : ℕ) → n ≤ i → Finds n max_n k (master_loop is_prime rounds fuel n max_n k i)
  unfolding master_loop
  master_loop-Finds zero fuel i l = tt
  master_loop-Finds (suc rounds) fuel i l = elim (Bool-cases (ltb max_n i)) [
    | inl a ↦ rw a tt
    | inr a ↦ rw a (
        or_next-Finds (factorize_at is_prime fuel n max_n k i)
          (if i == 2 ^ 64 - 1 then absent else master_loop is_prime rounds fuel n max_n k (i + 1))
          (factorize_at-Finds fuel i l (ground arith))
          (elim (Bool-cases (i == 2 ^ 64 - 1)) [
            | inl b ↦ rw b tt
            | inr b ↦ rw b (master_loop-Finds rounds fuel (i + 1) (omega arith))
          ]))
  ]
