-- ===== src/Prime.antt =====
-- Modular arithmetic and the primality test of src/util/integerfactoring.c. An `uint64_t` wraps
-- around at 2 ^ 64.
pub mod Modular
pub mod Check
pub mod Symbol
pub mod Small
mod Tests
use libgpuarray.Base.{
  ℕ, zero, suc, ◌+◌, ◌-◌, ◌*◌, ◌/◌, ◌%◌, ◌^◌, Bool, true, false, not, ◌&&◌, ◌||◌, Option, none,
  some, List, [], ◌∷◌, ltb, leb, ◌==◌, if◌then◌else◌, ℤ, pos, negsuc, ◌*ℤ◌, ◌==ℤ◌,
}

unfoldable pub gai_add_mod : ℕ → ℕ → ℕ → ℕ
gai_add_mod a b m =
    if ltb (b % m) (m - a % m)
    then (a % m + b % m) % 2 ^ 64
    else (a % m + b % m + 2 ^ 64 - m) % 2 ^ 64

unfoldable pub gai_sub_mod : ℕ → ℕ → ℕ → ℕ
gai_sub_mod a b m =
    if leb (b % m) (a % m) then a % m - b % m else (a % m + 2 ^ 64 - b % m + m) % 2 ^ 64

-- `s&m&1` is the product of the lowest bits.
unfoldable pub gai_avg_mod : ℕ → ℕ → ℕ → ℕ
gai_avg_mod a b m =
    let s = gai_add_mod a b m in
    if s % 2 == 1 then (s / 2 + m / 2 + s % 2 * (m % 2)) % 2 ^ 64 else s / 2

-- With the instructions of x86-64 or 128-bit integers, for a number `a` or `b` below `m`.
unfoldable pub gai_mul_mod : ℕ → ℕ → ℕ → ℕ
gai_mul_mod a b m = a * b % m

-- The 64 rounds of the division without 128-bit integers.
unfoldable pub shift_loop : ℕ → ℕ → ℕ → ℕ → ℕ
shift_loop zero hi lo m = hi
shift_loop (suc rounds) hi lo m =
    let new_lo = lo * 2 % 2 ^ 64 in
    let new_hi = (hi * 2 % 2 ^ 64 + (if ltb new_lo lo then 1 else 0)) % 2 ^ 64 in
    shift_loop rounds
      (if ltb new_hi hi || ltb m new_hi then (new_hi + 2 ^ 64 - m) % 2 ^ 64 else new_hi) new_lo m

-- The fallback for other compilers.
unfoldable pub gai_mul_mod_portable : ℕ → ℕ → ℕ → ℕ
gai_mul_mod_portable a' b' m =
    let a = a' % m in
    let b = b' % m in
    let ahbl = a / 2 ^ 32 * (b % 2 ^ 32) in
    let albl = a % 2 ^ 32 * (b % 2 ^ 32) in
    let md = (ahbl + a % 2 ^ 32 * (b / 2 ^ 32)) % 2 ^ 64 in
    let lo = (albl + md * 2 ^ 32) % 2 ^ 64 in
    let hi =
      (a / 2 ^ 32 * (b / 2 ^ 32)
        + md / 2 ^ 32
        + (if ltb lo albl then 1 else 0)
        + (if ltb md ahbl then 2 ^ 32 else 0))
      % 2 ^ 64 in
    if leb m (2 ^ 32) then a * b % 2 ^ 64 % m else shift_loop 64 (hi % m) lo m

-- The loop of gaIPowMod; a round halves the exponent.
unfoldable pub pow_loop : ℕ → ℕ → ℕ → ℕ → ℕ → ℕ
pow_loop zero r x a m = r
pow_loop (suc rounds) r x a m =
    let rest =
      pow_loop rounds (if a % 2 == 1 then gai_mul_mod r x m else r) (gai_mul_mod x x m) (a / 2) m in
    if a == 0 then r else rest

unfoldable pub gai_pow_mod : ℕ → ℕ → ℕ → ℕ
gai_pow_mod x a m =
    if leb m 1
    then 0
    else if a == 0
    then 1
    else if leb (x % m) 1
    then x % m
    else if a == 1
    then x % m
    else if a == 2
    then gai_mul_mod (x % m) (x % m) m
    else pow_loop 64 1 (x % m) a m
