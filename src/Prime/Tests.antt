-- ===== src/Prime/Tests.antt =====
-- Runs of the primality test of src/util/integerfactoring.c, and its theorems at inputs.
use libgpuarray.Base.{
  ℕ, Bool, ◌+◌, ◌^◌, ◌*◌, ◌%◌, ◌<◌, ◌≤◌, ◌↔◌, ◌≡◌, some, pos, negsuc, arith, refl,
}
use libgpuarray.Factor.Smooth.{gai_ctz, gai_clz}
use libgpuarray.Prime.{
  gai_add_mod, gai_sub_mod, gai_avg_mod, gai_mul_mod, gai_mul_mod_portable, shift_loop, gai_pow_mod,
  pow_loop,
}
use libgpuarray.Prime.Modular.{gai_pow_mod-mod}
use libgpuarray.Prime.Check.{
  prime, composite, gai_is_prime, gai_jacobi_symbol, jacobi_sign, gai_is_prime_strong_fermat,
  fermat_loop, gai_is_prime_strong_lucas, search_d, lucas_loop, has_small_factors,
}
use libgpuarray.Prime.Small.{IsPrime, gai_is_prime-IsPrime}

gai_pow_mod-mod_example : gai_pow_mod 7 20 1000 ≡ 7 ^ 20 % 1000
gai_pow_mod-mod_example = gai_pow_mod-mod 7 20 1000 (omega arith) (omega arith)

gai_is_prime-IsPrime_example : (gai_is_prime 0 97 ≡ some prime) ↔ IsPrime 97
gai_is_prime-IsPrime_example = gai_is_prime-IsPrime 0 97 (omega arith)

jacobi_2_15 : gai_jacobi_symbol 16 2 15 ≡ some (pos 1)
unfolding gai_jacobi_symbol jacobi_sign gai_ctz libgpuarray.Base.◌*ℤ◌
jacobi_2_15 = refl

jacobi_5_7 : gai_jacobi_symbol 16 5 7 ≡ some (negsuc 0)
unfolding gai_jacobi_symbol jacobi_sign gai_ctz libgpuarray.Base.◌*ℤ◌
jacobi_5_7 = refl

prime_65537 : gai_is_prime 100 65537 ≡ some 1
unfolding gai_is_prime gai_is_prime_strong_fermat gai_is_prime_strong_lucas search_d lucas_loop
    fermat_loop gai_jacobi_symbol jacobi_sign gai_ctz gai_clz gai_pow_mod pow_loop gai_mul_mod
    gai_add_mod gai_sub_mod gai_avg_mod has_small_factors libgpuarray.Base.◌*ℤ◌
prime_65537 = refl

-- 42799 is a strong probable prime to base 2, and is found to be composite.
composite_42799 : gai_is_prime 100 7031 ≡ some composite
unfolding gai_is_prime gai_is_prime_strong_fermat gai_is_prime_strong_lucas search_d lucas_loop
    fermat_loop gai_jacobi_symbol jacobi_sign gai_ctz gai_clz gai_pow_mod pow_loop gai_mul_mod
    gai_add_mod gai_sub_mod gai_avg_mod has_small_factors
composite_42799 = refl

-- The division without 128-bit integers leaves the modulus itself where the remainder is 0.
mul_portable_wrong : gai_mul_mod_portable (2 ^ 32) (2 ^ 32) (2 ^ 33) ≡ 2 ^ 33
unfolding gai_mul_mod_portable shift_loop
mul_portable_wrong = refl
