-- ===== src/Common/Arith.antt =====
-- Division and remainder by powers of two.
use Prim.Native.Nat.{ℕ, zero, suc, ◌+◌, ◌*◌, ◌/◌, ◌%◌, ◌^◌}
use mathlib.Core.Path.{◌≡◌, ap, ◌∙◌}
use native.Mathlib.Nat.{div-add-mod', div-div-eq-div-mul, pow-suc}
use native.Mathlib.Omega.{arith}

mod_twice : (d m : ℕ) → d / m % 2 * m + d % m ≡ d % (m * 2)
mod_twice d m = omega (
  arith,
  div-add-mod' d (m * 2),
  div-add-mod' d m,
  ap (λ (t : ℕ). t * m) (div-add-mod' (d / m) 2),
  ap (λ (t : ℕ). t * m) (div-div-eq-div-mul d m 2),
)

-- The lowest `n + 1` binary digits: the digit at `n` before the lowest `n`.
pub low_digits : (d n : ℕ) → d / 2 ^ n % 2 * 2 ^ n + d % 2 ^ n ≡ d % 2 ^ suc n
low_digits d n = rw (pow-suc 2 n) (mod_twice d (2 ^ n))

pub pow-sum : (a b : ℕ) → 2 ^ (a + b) ≡ 2 ^ a * 2 ^ b
pow-sum a zero = rw (the_same a) (omega arith)
  where
    the_same : (a : ℕ) → a + 0 ≡ a
    the_same a = omega arith
pow-sum a (suc b) =
    ap (λ (t : ℕ). 2 ^ t) (next a b)
    ∙ pow-suc 2 (a + b)
    ∙ ap (λ (t : ℕ). t * 2) (pow-sum a b)
    ∙ grind (arith, pow-suc 2 b)
  where
    next : (a b : ℕ) → a + suc b ≡ suc (a + b)
    next a b = omega arith
