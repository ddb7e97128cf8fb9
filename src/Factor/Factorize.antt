-- ===== src/Factor/Factorize.antt =====
-- The lists that gaIFactorize of src/util/integerfactoring.c returns.
use libgpuarray.Base.{
  ℕ, ◌+◌, ◌-◌, ◌*◌, ◌/◌, ◌^◌, ◌≤◌, ◌<◌, Bool, true, false, not, ◌&&◌, ◌||◌, List, [], ltb, leb,
  ◌==◌, if◌then◌else◌, length, ◌≡◌, ◌≢◌, ◌⊎◌, inl, inr, refl, sym, ap, ◌∙◌, arith, Bool-cases,
  ==_iff,
}
use native.Mathlib.Nat.{one-le-pow, pow-zero, mul-one, one-mul, mul_comm, mod-eq_of_lt}
use libgpuarray.Factor.{Entry, gaifl_add_factors, gaifl_get_product, gaifl_is_overflowed}
use libgpuarray.Factor.Product.{product, IsFactorList, gaifl_get_product-mod}
use libgpuarray.Factor.Limit.{AllUpTo}
use libgpuarray.Factor.Partial.{Partial, split-Partial}
use libgpuarray.Factor.Smooth.{
  Best, first_best, gai_ctz, factors23, two_to_64, smooth3_loop, smooth5_loop,
  gai_factorize3_smooth, gai_factorize5_smooth,
}
use libgpuarray.Factor.Divide.{gai_ctz-Shifted}
use libgpuarray.Factor.Odd.{odd-35, odd_unique}
use libgpuarray.Factor.Optimal.{IsSmooth, smooth3-IsSmooth, smooth3-i5, smooth5-IsSmooth}
use libgpuarray.Factor.Search.{
  Outcome, found, absent, no_fuel, with_factor, is_greater, optimized, no_smoothness, master_loop,
  search_from, gai_factorize,
}
use libgpuarray.Factor.Found.{Finds, master_loop-Finds}
use libgpuarray.Factor.Room.{ends}
use libgpuarray.Factor.Ends.{master_loop-ends}

-- A list for a number from `n` to `max_n` with no factor over `k`. There is no upper bound if `max_n`
-- is 2 ^ 64 - 1, and a list of 15 factors is full and may lack one.
pub record IsResult (n max_n k : ℕ) (fl : List Entry) : Type 0 where
  pub proper : IsFactorList fl
  pub smooth : AllUpTo k fl
  pub at_least : length fl < 15 → n ≤ product fl
  pub at_most : max_n ≢ 2 ^ 64 - 1 → product fl ≤ max_n

Partial-IsResult :
    (n max_n k : ℕ) (fl : List Entry) → Partial n max_n k fl 1 → IsResult n max_n k fl
Partial-IsResult n max_n k fl v = record {
  proper = v.proper;
  smooth = v.smooth;
  at_least = λ h. lower v.lower h;
  at_most = λ _. omega (arith, v.upper, mul-one (product fl));
}
  where
    lower : (n ≤ product fl * 1) ⊎ (15 ≤ length fl) → length fl < 15 → n ≤ product fl
    lower (inl l) h = omega (arith, l, mul-one (product fl))
    lower (inr l) h = absurd (omega arith)

-- 2 ^ 64 is not returned where there is an upper bound.
two_to_64-IsResult :
    (n max_n k : ℕ)
    → n < 2 ^ 64
    → 2 ≤ k
    → is_greater max_n two_to_64 ≡ false
    → IsResult n max_n k two_to_64
unfolding gaifl_add_factors gaifl_is_overflowed product
two_to_64-IsResult n max_n k h p g = record {
  proper = omega arith;
  smooth = (p, tt);
  at_least = λ _. omega arith;
  at_most = λ ne. absurd (ground (arith, ne));
}

not_greater :
    (max_n p : ℕ) (o : Bool)
    → max_n ≢ 2 ^ 64 - 1
    → (not (max_n == 2 ^ 64 - 1) && (o || ltb max_n p)) ≡ false
    → p ≤ max_n
not_greater max_n p true ne e = absurd (ground (arith, ne))
not_greater max_n p false ne e = elim (Bool-cases (max_n == 2 ^ 64 - 1)) [
  | inl a ↦ absurd (ne ((==_iff _ _).0 a))
  | inr a ↦ let f : ltb max_n p ≡ false = rw a at e in ground arith
]

-- The best number is split into its powers.
module _ (n k : ℕ) (b : Best) (s : ℕ) (two : 3 ≤ k)
    (e : b.n_best ≡ 3 ^ b.i3_best * 5 ^ b.i5_best * 2 ^ s) (l : n ≤ b.n_best) (p : 0 < n)
    (u : b.n_best < 2 ^ 64) where
  rest_35 : b.n_best / 2 ^ gai_ctz b.n_best ≡ 3 ^ b.i3_best * 5 ^ b.i5_best
  rest_35 =
      let h = gai_ctz-Shifted b.n_best (omega arith) u in
      odd_unique (gai_ctz b.n_best) s (b.n_best / 2 ^ gai_ctz b.n_best)
        (3 ^ b.i3_best * 5 ^ b.i5_best)
        (sym (h.0) ∙ e ∙ mul_comm (3 ^ b.i3_best * 5 ^ b.i5_best) (2 ^ s)) h.1
        (odd-35 b.i3_best b.i5_best)

  factors23-Partial : Partial b.n_best b.n_best k (factors23 b) (5 ^ b.i5_best)
  unfolding product
  factors23-Partial =
      let m = b.n_best in
      let h = gai_ctz-Shifted m (omega arith) u in
      let start : Partial m m k [] m = record {
        proper = tt;
        positive = omega arith;
        upper = omega (arith, one-mul m);
        lower = inl (omega (arith, one-mul m));
        smooth = tt;
      } in
      let odd = odd-35 b.i3_best b.i5_best in
      let twos =
        split-Partial m m k [] 2 (gai_ctz m) (3 ^ b.i3_best * 5 ^ b.i5_best) m u (omega arith)
          (omega arith) (h.0 ∙ ap (λ t. 2 ^ gai_ctz m * t) rest_35) (omega arith) start in
      split-Partial m m k (with_factor [] 2 (gai_ctz m)) 3 b.i3_best (5 ^ b.i5_best)
        (3 ^ b.i3_best * 5 ^ b.i5_best) u (omega arith) two refl
        (one-le-pow b.i5_best 5 (omega arith)) twos

  -- A list of the whole number, of which the bound is checked.
  whole-IsResult :
      (max_n : ℕ) (fl : List Entry)
      → Partial b.n_best b.n_best k fl 1
      → is_greater max_n fl ≡ false
      → IsResult n max_n k fl
  whole-IsResult max_n fl v g =
      let r = Partial-IsResult b.n_best b.n_best k fl v in
      let below : product fl ≤ b.n_best = omega (arith, v.upper, mul-one (product fl)) in
      let exact : gaifl_get_product fl ≡ product fl =
        gaifl_get_product-mod fl ∙ mod-eq_of_lt (omega arith) in
      record {
        proper = r.proper;
        smooth = r.smooth;
        at_least = λ h. omega (arith, r.at_least h);
        at_most = λ ne. not_greater max_n (product fl) (gaifl_is_overflowed fl) ne (rw exact at g);
      }

-- 2 ^ 64, or the list of the best number.
module _ (n max_n k : ℕ) (p : 0 < n) (h : n < 2 ^ 64) (three : 3 ≤ k) where
  chosen-IsResult :
      (b : Best) (fl : List Entry)
      → IsSmooth n b
      → ((s : ℕ)
          → b.n_best ≡ 3 ^ b.i3_best * 5 ^ b.i5_best * 2 ^ s
          → n ≤ b.n_best
          → b.n_best < 2 ^ 64
          → Partial b.n_best b.n_best k fl 1)
      → is_greater max_n (if b.is_best_2to64 then two_to_64 else fl) ≡ false
      → IsResult n max_n k (if b.is_best_2to64 then two_to_64 else fl)
  chosen-IsResult b fl v w g = elim (Bool-cases b.is_best_2to64) [
    | inl a ↦ rw a (two_to_64-IsResult n max_n k h (omega arith) (rw a at g))
    | inr a ↦ rw a (elim v [
      | inl c ↦ let d : true ≡ false = sym c ∙ a in cc
      | inr (s, e, l, u) ↦ whole-IsResult n k b s three e l p u max_n fl (w s e l u) (rw a at g)
    ])
  ]

  smooth3-IsResult :
      is_greater max_n (gai_factorize3_smooth n) ≡ false
      → IsResult n max_n k (gai_factorize3_smooth n)
  unfolding gai_factorize3_smooth
  smooth3-IsResult g =
      let b = smooth3_loop 41 n 0 1 first_best in
      chosen-IsResult b (factors23 b) (smooth3-IsSmooth n h)
        (λ s e l u. alone b (smooth3-i5 n) (factors23-Partial n k b s three e l p u)) g
    where
      alone :
          (b : Best)
          → b.i5_best ≡ 0
          → Partial b.n_best b.n_best k (factors23 b) (5 ^ b.i5_best)
          → Partial b.n_best b.n_best k (factors23 b) 1
      alone b i5 v = let one : 5 ^ b.i5_best ≡ 1 = ap (λ t. 5 ^ t) i5 ∙ pow-zero 5 in rw one at v

  smooth5-IsResult :
      5 ≤ k
      → is_greater max_n (gai_factorize5_smooth n) ≡ false
      → IsResult n max_n k (gai_factorize5_smooth n)
  unfolding gai_factorize5_smooth
  smooth5-IsResult five g =
      let b = smooth5_loop 28 n 0 1 first_best in
      chosen-IsResult b (with_factor (factors23 b) 5 b.i5_best) (smooth5-IsSmooth n h)
        (λ s e l u.
          split-Partial b.n_best b.n_best k (factors23 b) 5 b.i5_best 1 (5 ^ b.i5_best) u
            (omega arith) five (sym (mul-one (5 ^ b.i5_best))) (omega arith)
            (factors23-Partial n k b s three e l p u))
        g

  optimized-IsResult : is_greater max_n (optimized n k) ≡ false → IsResult n max_n k (optimized n k)
  optimized-IsResult g = elim (Bool-cases (leb k 2)) [
    | inl a ↦ absurd (ground arith)
    | inr a ↦ rw a (elim (Bool-cases (leb k 4)) [
      | inl c ↦ rw c (smooth3-IsResult (rw (a, c) at g))
      | inr c ↦ rw c (smooth5-IsResult (ground arith) (rw (a, c) at g))
    ])
  ]

-- What gaIFactorize answers.
abbrev pub Answers : ℕ → ℕ → ℕ → Outcome → Type 0
Answers n max_n k (found fl) = IsResult n max_n k fl
Answers n max_n k absent = Unit
Answers n max_n k no_fuel = ⊥

Finds-Answers :
    (n max_n k : ℕ) (r : Outcome) → Finds n max_n k r → ends r ≡ true → Answers n max_n k r
Finds-Answers n max_n k (found fl) f e = Partial-IsResult n max_n k fl f
Finds-Answers n max_n k absent f e = tt
Finds-Answers n max_n k no_fuel f e = cc

-- The bounds that the arguments stand for: a `max_n` of 0 is an exact search, a `k` of 0 is no
-- bound on the factors.
abbrev pub max_of : ℕ → ℕ → ℕ
max_of n max_n = if max_n == 0 then n else max_n

abbrev pub k_of : ℕ → ℕ → ℕ
k_of n k = if no_smoothness n k then n else k

module _ (is_prime : ℕ → Bool) where
  search_from-Answers :
      (fuel n max_n k : ℕ) (free : Bool)
      → 0 < n
      → n ≤ max_n
      → max_n < 2 ^ 64
      → 3 ≤ k
      → 65 * (max_n + 2) ≤ fuel
      → Answers n max_n k (search_from is_prime fuel n max_n k free)
  unfolding search_from
  search_from-Answers fuel n max_n k free p h m three b =
      elim (Bool-cases (is_greater max_n (optimized n k))) [
        | inl a ↦ rw a (elim (Bool-cases (not free && leb k 6)) [
          | inl c ↦ rw c tt
          | inr c ↦ rw c (
              Finds-Answers n max_n k (master_loop is_prime (max_n + 1 - n) fuel n max_n k n)
                (master_loop-Finds is_prime n max_n k p h m (omega arith) (max_n + 1 - n) fuel n
                  (omega arith))
                (master_loop-ends is_prime n max_n k p h m (omega arith) (max_n + 1 - n) fuel n b
                  (omega arith)))
        ])
        | inr a ↦ rw a (optimized-IsResult n max_n k p (omega arith) three a)
      ]

  -- With fuel for all of the numbers up to the bound, gaIFactorize ends, whatever `is_prime` says. A
  -- list that it returns for `n` over 2 and a `k` other than 2 has growing factors, none over `k`; its
  -- number is `n` or more, unless the list is full, and at most `max_n`, unless that is 2 ^ 64 - 1.
  pub gai_factorize-Answers :
      (fuel n max_n k : ℕ)
      → 2 < n
      → n < 2 ^ 64
      → max_n < 2 ^ 64
      → k ≢ 2
      → 65 * (max_of n max_n + 2) ≤ fuel
      → Answers n (max_of n max_n) (k_of n k) (gai_factorize is_prime fuel n max_n k)
  unfolding gai_factorize
  gai_factorize-Answers fuel n max_n k h u m ne b =
      elim (Bool-cases ((k == 1) || (ltb 0 max_n && ltb max_n n))) [
        | inl a ↦ rw a tt
        | inr a ↦
            let big : leb n 2 ≡ false = ground arith in
            rw (a, big)
              (search_from-Answers fuel n (max_of n max_n) (k_of n k) (no_smoothness n k)
                (omega arith) (ground arith) (ground arith) (ground (arith, ne)) b)
      ]
