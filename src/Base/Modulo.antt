-- ===== src/Base/Modulo.antt =====
-- Remainders of products.
use libgpuarray.Base.{ℕ, ◌+◌, ◌*◌, ◌/◌, ◌%◌, ◌≡◌, sym, arith}
use native.Mathlib.Nat.{mod-add-div, add-mul-mod_self_left}

pub mod-mul_left : (a b m : ℕ) → (a % m) * b % m ≡ a * b % m
mod-mul_left a b m =
    let e : a * b ≡ (a % m) * b + m * (a / m * b) = grind (arith, mod-add-div a m) in
    rw e (sym (add-mul-mod_self_left ((a % m) * b) m (a / m * b)))
