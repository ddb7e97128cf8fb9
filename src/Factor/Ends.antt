-- ===== src/Factor/Ends.antt =====
-- The attempts of gaIFactorize in src/util/integerfactoring.c end.
use libgpuarray.Base.{
  ℕ, zero, suc, ◌+◌, ◌-◌, ◌*◌, ◌/◌, ◌%◌, ◌^◌, ◌≤◌, ◌<◌, Bool, true, ◌||◌, List, [], ltb, leb, ◌==◌,
  if◌then◌else◌, ◌≡◌, inl, inr, refl, sym, ap, ◌∙◌, arith, Bool-cases, Option-cases, ltb→lt,
}
use native.Mathlib.Nat.{div-le_self, pow-zero, mul-one, one-mul, mul_comm, le-mul_of_pos_right}
use libgpuarray.Factor.{Entry}
use libgpuarray.Factor.Product.{product, product-pos}
use libgpuarray.Factor.Partial.{
  Partial, subfactorize-Partial, divided-Partial, product-exact, divided_up-Partial, next-Partial,
}
use libgpuarray.Factor.Smooth.{gai_ctz}
use libgpuarray.Factor.Divide.{
  odd-cofactor, divide_out-lt, gai_ctz-Shifted, trial-divides, divide_out-divides, Shifted,
}
use libgpuarray.Factor.Search.{
  Outcome, found, absent, no_fuel, with_factor, trial, trial_fuel, divide_out, divided_up,
  prime_test, factorize_at, or_next, master_loop,
}
use libgpuarray.Factor.Room.{
  ends, Moved, with_factor-Moved, Moved-le, Room, Room-le, Room-twice, ctz-even, Shifted-le,
}

module _ (is_prime : ℕ → Bool) (n max_n k : ℕ) (q : 0 < n) (h : n ≤ max_n) (m : max_n < 2 ^ 64)
    (two : 2 ≤ k) where
  -- Enough fuel for a list, with room for `j` doublings, and a number.
  abbrev Enough : ℕ → ℕ → ℕ → Type 0
  Enough j x fuel = j * (max_n + 2) + x < fuel

  -- The state of an attempt at the label `primetest`.
  record Attempt (fuel j x : ℕ) (fl : List Entry) : Type 0 where
    part : Partial n max_n k fl x
    odd : x % 2 ≡ 1
    room : Room max_n fl j
    fueled : Enough j x fuel

  -- `y` is smaller than the number, and the twos go to the list.
  smaller-Attempt :
      (fuel j x y : ℕ) (fl : List Entry)
      → Attempt (suc fuel) j x fl
      → y < x
      → Partial n max_n k fl y
      → Attempt fuel j (y / 2 ^ gai_ctz y) (with_factor fl 2 (gai_ctz y))
  smaller-Attempt fuel j x y fl v l w =
      let small : y ≤ product fl * y =
        rw (mul_comm (product fl) y) (le-mul_of_pos_right y (product-pos 1 fl w.proper)) in
      let s = gai_ctz-Shifted y w.positive (omega (arith, w.upper)) in
      let cut : y / 2 ^ gai_ctz y ≤ y = div-le_self y (2 ^ gai_ctz y) in
      let d = s.1 in
      record {
        part = subfactorize-Partial n max_n k fl y m two w;
        odd = s.1;
        room =
            Room-le max_n fl (with_factor fl 2 (gai_ctz y)) j
              (Moved-le fl 2 (gai_ctz y) (omega arith) (
                with_factor-Moved n max_n k fl 2 (gai_ctz y) (y / 2 ^ gai_ctz y) y m (omega arith)
                  s.0 (omega arith) w))
              v.room;
        fueled = omega (arith, v.fueled);
      }

  -- The product doubles at most as often as there is room.
  doubled-Attempt :
      (fuel j x y : ℕ) (fl : List Entry)
      → Attempt (suc fuel) j x fl
      → product (with_factor fl 2 (gai_ctz y)) ≡ product fl * 2 ^ gai_ctz y
      → 0 < gai_ctz y
      → Shifted y (gai_ctz y)
      → Partial n max_n k fl y
      → (i : ℕ) × Attempt fuel i (y / 2 ^ gai_ctz y) (with_factor fl 2 (gai_ctz y))
  doubled-Attempt fuel zero x y fl v e p s w =
      let big : product fl ≤ product fl * x = le-mul_of_pos_right (product fl) v.part.positive in
      absurd (
        omega (
          arith,
          big,
          v.part.upper,
          v.room,
          mul-one (product fl),
          ap (λ t. product fl * t) (pow-zero 2),
        ))
  doubled-Attempt fuel (suc i) x y fl v e p s w =
      let w' = subfactorize-Partial n max_n k fl y m two w in
      let y' = y / 2 ^ gai_ctz y in
      let small : y' ≤ product (with_factor fl 2 (gai_ctz y)) * y' =
        rw (mul_comm (product (with_factor fl 2 (gai_ctz y))) y')
          (le-mul_of_pos_right y' (product-pos 1 (with_factor fl 2 (gai_ctz y)) w'.proper)) in
      (
        i,
        record {
          part = w';
          odd = s.1;
          room = Room-twice max_n fl (gai_ctz y) i p e v.room;
          fueled = omega (arith, v.fueled, small, w'.upper);
        },
      )

  -- The even number after an odd one: the product doubles, or the list is full and the number falls.
  larger-Attempt :
      (fuel j x y : ℕ) (fl : List Entry)
      → Attempt (suc fuel) j x fl
      → 2 < x
      → y ≤ x + 1
      → y % 2 ≡ 0
      → Partial n max_n k fl y
      → (i : ℕ) × Attempt fuel i (y / 2 ^ gai_ctz y) (with_factor fl 2 (gai_ctz y))
  unfolding Moved
  larger-Attempt fuel j x y fl v l b even w =
      let small : y ≤ product fl * y =
        rw (mul_comm (product fl) y) (le-mul_of_pos_right y (product-pos 1 fl w.proper)) in
      let s = gai_ctz-Shifted y w.positive (omega (arith, w.upper)) in
      let d = s.1 in
      let p = ctz-even y s even in
      let cut = Shifted-le y (gai_ctz y) s p w.positive in
      elim (with_factor-Moved n max_n k fl 2 (gai_ctz y) (y / 2 ^ gai_ctz y) y m (omega arith) s.0
        (omega arith) w) [
          | inl e ↦ doubled-Attempt fuel j x y fl v e p s w
          | inr e ↦ (
            j,
            record {
              part = subfactorize-Partial n max_n k fl y m two w;
              odd = s.1;
              room =
                  Room-le max_n fl (with_factor fl 2 (gai_ctz y)) j (omega (arith, ap product e))
                    v.room;
              fueled = omega (arith, v.fueled);
            },
          )
        ]

  divided-Attempt :
      (fuel j x g : ℕ) (fl : List Entry)
      → Attempt (suc fuel) j x fl
      → 2 ≤ g
      → g ≤ k
      → x % g ≡ 0
      → Attempt fuel j (divide_out 64 g x 0).0 (with_factor fl g (divide_out 64 g x 0).1)
  divided-Attempt fuel j x g fl v p b e =
      let d = divide_out-divides 64 g x 0 (omega arith) v.part.positive e in
      let y = (divide_out 64 g x 0).0 in
      let c = (divide_out 64 g x 0).1 in
      let same : x ≡ g ^ c * y =
        sym (mul-one x) ∙ ap (λ t. x * t) (sym (pow-zero g)) ∙ sym (d.0) ∙ mul_comm y (g ^ c) in
      record {
        part = divided-Partial n max_n k fl x g m p b e v.part;
        odd = odd-cofactor y (g ^ c) x (mul_comm y (g ^ c) ∙ sym same) v.odd;
        room =
            Room-le max_n fl (with_factor fl g c) j
              (Moved-le fl g c (omega arith)
                (with_factor-Moved n max_n k fl g c y x m p same d.1 v.part))
              v.room;
        fueled = omega (arith, v.fueled, divide_out-lt 63 g x 0 p v.part.positive e);
      }

  prime_test-ends :
      (fuel j f x : ℕ) (fl : List Entry)
      → 2 ≤ f
      → Attempt fuel j x fl
      → ends (prime_test is_prime fuel n max_n k f x fl) ≡ true
  unfolding prime_test
  prime_test-ends zero j f x fl p v = absurd (omega (arith, v.fueled))
  prime_test-ends (suc fuel) j f x fl p v =
      let exact = product-exact n max_n k fl x m h v.part in
      elim (Bool-cases ((x == 1) || is_prime x)) [
        | inl a ↦ rw a (elim (Bool-cases (leb x k)) [
          | inl b ↦ rw b refl
          | inr b ↦ rw b (elim (Bool-cases (ltb (divided_up n (product fl)) x)) [
            | inl c ↦
                rw (exact, c)
                  (let y = divided_up n (product fl) in
                    prime_test-ends fuel j 3 (y / 2 ^ gai_ctz y) (with_factor fl 2 (gai_ctz y))
                      (omega arith)
                      (smaller-Attempt fuel j x y fl v (ltb→lt y x c)
                        (divided_up-Partial n max_n k fl x m h v.part q c)))
            | inr c ↦
                rw (exact, c)
                  (elim (Bool-cases
                    (ltb ((max_n + 2 ^ 64 - product fl * x % 2 ^ 64) % 2 ^ 64) (product fl))) [
                      | inl d ↦ rw d refl
                      | inr d ↦ rw d (
                          let y = (x + 1) % 2 ^ 64 in
                          let o = v.odd in
                          let (i, w) =
                            larger-Attempt fuel j x y fl v (ground arith) (omega arith)
                              (omega arith) (next-Partial n max_n k fl x m h v.part d) in
                          prime_test-ends fuel i 3 (y / 2 ^ gai_ctz y)
                            (with_factor fl 2 (gai_ctz y)) (omega arith) w)
                    ])
          ])
        ])
        | inr a ↦ rw a (elim (Option-cases (trial trial_fuel k f x)) [
          | inl b ↦ rw b refl
          | inr (g, b) ↦ rw b (
              let t = trial-divides trial_fuel k f x g b in
              prime_test-ends fuel j g (divide_out 64 g x 0).0
                (with_factor fl g (divide_out 64 g x 0).1) (omega arith)
                (divided-Attempt fuel j x g fl v (omega arith) t.1 t.2))
        ])
      ]

  factorize_at-ends :
      (fuel i : ℕ)
      → 65 * (max_n + 2) ≤ fuel
      → n ≤ i
      → i ≤ max_n
      → ends (factorize_at is_prime fuel n max_n k i) ≡ true
  unfolding factorize_at product
  factorize_at-ends fuel i b l u =
      let v : Partial n max_n k [] i = record {
        proper = tt;
        positive = omega arith;
        upper = rw (one-mul i) u;
        lower = inl (rw (one-mul i) l);
        smooth = tt;
      } in
      let w = subfactorize-Partial n max_n k [] i m two v in
      let s = gai_ctz-Shifted i (omega arith) (omega arith) in
      let some_room : 2 ^ 64 ≤ product (with_factor [] 2 (gai_ctz i)) * 2 ^ 64 =
        rw (mul_comm (product (with_factor [] 2 (gai_ctz i))) (2 ^ 64))
          (le-mul_of_pos_right (2 ^ 64) (product-pos 1 (with_factor [] 2 (gai_ctz i)) w.proper)) in
      prime_test-ends fuel 64 3 (i / 2 ^ gai_ctz i) (with_factor [] 2 (gai_ctz i)) (omega arith)
        record {
          part = w;
          odd = s.1;
          room = omega arith;
          fueled = omega (arith, div-le_self i (2 ^ gai_ctz i));
        }

  or_next-ends : (a b : Outcome) → ends a ≡ true → ends b ≡ true → ends (or_next a b) ≡ true
  or_next-ends (found fl) b u v = refl
  or_next-ends absent b u v = v
  or_next-ends no_fuel b u v = cc

  -- With 65 units of fuel for each number up to `max_n` the master loop ends.
  pub master_loop-ends :
      (rounds fuel i : ℕ)
      → 65 * (max_n + 2) ≤ fuel
      → n ≤ i
      → ends (master_loop is_prime rounds fuel n max_n k i) ≡ true
  unfolding master_loop
  master_loop-ends zero fuel i b l = refl
  master_loop-ends (suc rounds) fuel i b l = elim (Bool-cases (ltb max_n i)) [
    | inl a ↦ rw a refl
    | inr a ↦ rw a (
        or_next-ends (factorize_at is_prime fuel n max_n k i)
          (if i == 2 ^ 64 - 1 then absent else master_loop is_prime rounds fuel n max_n k (i + 1))
          (factorize_at-ends fuel i b l (ground arith))
          (elim (Bool-cases (i == 2 ^ 64 - 1)) [
            | inl c ↦ rw c refl
            | inr c ↦ rw c (master_loop-ends rounds fuel (i + 1) b (omega arith))
          ]))
  ]
