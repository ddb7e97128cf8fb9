-- ===== src/Factor/Smooth.antt =====
-- gaICtz, gaIClz and the searches for the smallest 2-, 3- and 5-smooth number that is not under `n`,
-- of src/util/integerfactoring.c.
use libgpuarray.Base.{
  ℕ, zero, suc, ◌+◌, ◌-◌, ◌*◌, ◌/◌, ◌%◌, ◌^◌, Bool, true, false, ◌&&◌, ◌||◌, List, [], ltb, leb,
  ◌==◌, if◌then◌else◌, pos, bit_or,
}
use libgpuarray.Factor.{Entry, gaifl_add_factors}

-- The bit at place `z` of the number is the lowest of the number shifted `z` times.
unfoldable pub ctz_loop : ℕ → ℕ → ℕ
ctz_loop zero n = 0
ctz_loop (suc rounds) n = let rest = ctz_loop rounds (n / 2) in if n % 2 == 1 then 0 else suc rest

unfoldable pub gai_ctz : ℕ → ℕ
unfolding ctz_loop
gai_ctz n = ctz_loop 64 n

-- From the place `z - 1` down.
unfoldable pub clz_loop : ℕ → ℕ → ℕ
clz_loop zero n = 64
clz_loop (suc z) n = let rest = clz_loop z n in if n / 2 ^ z % 2 == 1 then 63 - z else rest

unfoldable pub gai_clz : ℕ → ℕ
unfolding clz_loop
gai_clz n = clz_loop 64 n

-- `n |= n >> k`
abbrev pub or_shift : ℕ → ℕ → ℕ
or_shift k n = bit_or n (n / 2 ^ k)

unfoldable pub gai_factorize2_smooth : ℕ → List Entry
gai_factorize2_smooth n =
    let m = or_shift 32 (
      or_shift 16
        (or_shift 8 (or_shift 4 (or_shift 2 (or_shift 1 ((n + 2 ^ 64 - 1) % 2 ^ 64)))))) in
    (gaifl_add_factors [] 2 (pos (gai_ctz ((m + 1) % 2 ^ 64)))).0

-- `isBest2to64`, `nBest`, `i3Best`, `i5Best`
pub record Best : Type 0 where
  pub is_best_2to64 : Bool
  pub n_best : ℕ
  pub i3_best : ℕ
  pub i5_best : ℕ

abbrev pub first_best : Best
first_best = record { is_best_2to64 = true; n_best = 2 ^ 64 - 1; i3_best = 0; i5_best = 0 }

abbrev pub improves : Best → ℕ → Bool
improves b n_curr = b.is_best_2to64 || leb n_curr b.n_best

abbrev pub improved : Best → ℕ → ℕ → ℕ → Best
improved b n_curr i3 i5 =
    if improves b n_curr
    then record { is_best_2to64 = false; n_best = n_curr; i3_best = i3; i5_best = i5 }
    else b

-- The number scaled by a power of 2 towards `n`.
unfoldable pub scaled : ℕ → ℕ → ℕ
unfolding gai_clz
scaled n n_curr =
    let c = n_curr * 2 ^ (gai_clz n_curr - gai_clz n) % 2 ^ 64 in
    if ltb c n then c * 2 % 2 ^ 64 else c

-- The loop over the powers of 3, with `41 - i3` rounds left.
unfoldable pub smooth3_loop : ℕ → ℕ → ℕ → ℕ → Best → Best
unfolding scaled
smooth3_loop zero n i3 p3 b = b
smooth3_loop (suc rounds) n i3 p3 b =
    let c = scaled n p3 in
    let skip = smooth3_loop rounds n (i3 + 1) (p3 * 3 % 2 ^ 64) b in
    let next = smooth3_loop rounds n (i3 + 1) (p3 * 3 % 2 ^ 64) (improved b c i3 0) in
    if leb n p3
    then improved b p3 i3 0
    else if ltb c n
    then skip
    else if improves b c && (c == n)
    then improved b c i3 0
    else next

-- The powers of 2 and 3 of the best number.
abbrev pub factors23 : Best → List Entry
factors23 b =
    (gaifl_add_factors (gaifl_add_factors [] 2 (pos (gai_ctz b.n_best))).0 3 (pos b.i3_best)).0

abbrev pub two_to_64 : List Entry
two_to_64 = (gaifl_add_factors [] 2 (pos 64)).0

unfoldable pub gai_factorize3_smooth : ℕ → List Entry
gai_factorize3_smooth n =
    let b = smooth3_loop 41 n 0 1 first_best in if b.is_best_2to64 then two_to_64 else factors23 b

-- Whether `p3 * p5` would overflow. `i3` is 0 in the first round.
abbrev pub overflows3 : ℕ → ℕ → ℕ → Bool
overflows3 i3 p3 p5 =
    let c = p3 / 3 * p5 % 2 ^ 64 in
    if i3 == 0
    then false
    else ltb ((c + c) % 2 ^ 64) c || ltb (((c + c) % 2 ^ 64 + c) % 2 ^ 64) ((c + c) % 2 ^ 64)

-- The inner loop over the powers of 3. The second part is true at `goto exit`.
unfoldable pub smooth35_loop : ℕ → ℕ → ℕ → ℕ → ℕ → ℕ → Best → Best × Bool
unfolding scaled
smooth35_loop zero n i5 p5 i3 p3 b = (b, false)
smooth35_loop (suc rounds) n i5 p5 i3 p3 b =
    let n_curr = p3 * p5 % 2 ^ 64 in
    let c = scaled n n_curr in
    let skip = smooth35_loop rounds n i5 p5 (i3 + 1) (p3 * 3 % 2 ^ 64) b in
    let next = smooth35_loop rounds n i5 p5 (i3 + 1) (p3 * 3 % 2 ^ 64) (improved b c i3 i5) in
    if overflows3 i3 p3 p5
    then (b, false)
    else if leb n n_curr
    then (improved b n_curr i3 i5, false)
    else if ltb c n
    then skip
    else if improves b c && (c == n)
    then (improved b c i3 i5, true)
    else next

-- The outer loop over the powers of 5, with `28 - i5` rounds left.
unfoldable pub smooth5_loop : ℕ → ℕ → ℕ → ℕ → Best → Best
smooth5_loop zero n i5 p5 b = b
smooth5_loop (suc rounds) n i5 p5 b =
    let inner = smooth35_loop 41 n i5 p5 0 1 b in
    let next = smooth5_loop rounds n (i5 + 1) (p5 * 5 % 2 ^ 64) inner.0 in
    if leb n p5 then improved b p5 0 i5 else if inner.1 then inner.0 else next

unfoldable pub gai_factorize5_smooth : ℕ → List Entry
gai_factorize5_smooth n =
    let b = smooth5_loop 28 n 0 1 first_best in
    if b.is_best_2to64 then two_to_64 else (gaifl_add_factors (factors23 b) 5 (pos b.i5_best)).0
