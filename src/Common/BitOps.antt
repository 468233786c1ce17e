-- ===== src/Common/BitOps.antt =====
-- `|` of two numbers whose binary digits do not meet is their sum.
use Prim.Native.Nat.{ℕ, zero, suc, ◌+◌, ◌*◌, ◌/◌, ◌%◌, ◌^◌, ◌≤◌, ◌<◌, max, bit_or}
use Prim.Native.Nat.{digits, bit_or-bitwise}
use mathlib.Core.Path.{◌≡◌, refl, ap}
use native.Mathlib.Decide.{dec_le}
use native.Mathlib.Nat.{pow-suc}
use native.Mathlib.Omega.{arith}

-- The recursion that the native operation stands for, on any fuel that is enough.
abbrev or_digits : ℕ → ℕ → ℕ → ℕ
or_digits fuel x y = digits (λ z. z) max fuel x y

or_digits_surplus : (fuel x y : ℕ) → x ≤ fuel → or_digits (suc fuel) x y ≡ or_digits fuel x y
or_digits_surplus fuel zero y h = base fuel
  where
    base : (k : ℕ) → or_digits (suc k) 0 y ≡ or_digits k 0 y
    base zero = refl
    base (suc k) = refl
or_digits_surplus zero (suc x) y h = absurd (omega arith)
or_digits_surplus (suc fuel) (suc x) y h =
    ap (λ (t : ℕ). t * 2 + max (suc x % 2) (y % 2))
      (or_digits_surplus fuel (suc x / 2) (y / 2) (omega arith))

or_digits_enough : (fuel x y : ℕ) → x ≤ fuel → or_digits fuel x y ≡ bit_or x y
or_digits_enough zero zero y h = omega (arith, bit_or-bitwise 0 y)
or_digits_enough zero (suc x) y h = absurd (omega arith)
or_digits_enough (suc fuel) x y h = elim (dec_le x fuel) [
  | yes p ↦ omega (arith, or_digits_surplus fuel x y p, or_digits_enough fuel x y p)
  | no p ↦
      let top : suc fuel ≡ x = omega arith in
      omega (arith, bit_or-bitwise x y, ap (λ (t : ℕ). or_digits t x y) top)
]

pub bit_or_halves : (x y : ℕ) → bit_or x y ≡ bit_or (x / 2) (y / 2) * 2 + max (x % 2) (y % 2)
bit_or_halves zero y = omega (arith, bit_or-bitwise 0 y, bit_or-bitwise 0 (y / 2))
bit_or_halves (suc x) y =
    omega (arith, bit_or-bitwise (suc x) y, or_digits_enough x (suc x / 2) (y / 2) (omega arith))

bit_or-zero_below : (n x : ℕ) → x ≤ n → bit_or x 0 ≡ x
bit_or-zero_below n zero h = refl
bit_or-zero_below zero (suc x) h = absurd (omega arith)
bit_or-zero_below (suc n) (suc x) h =
    omega (arith, bit_or_halves (suc x) 0, bit_or-zero_below n (suc x / 2) (omega arith))

pub bit_or-zero : (x : ℕ) → bit_or x 0 ≡ x
bit_or-zero x = bit_or-zero_below x x (omega arith)

-- `hi << k | lo` where `lo` has at most `k` digits.
pub bit_or-disjoint : (k hi lo : ℕ) → lo < 2 ^ k → bit_or (hi * 2 ^ k) lo ≡ hi * 2 ^ k + lo
bit_or-disjoint zero hi lo h = ground (arith, bit_or-zero hi)
bit_or-disjoint (suc k) hi lo h =
    let shifted : hi * 2 ^ suc k ≡ hi * 2 ^ k * 2 =
      omega (arith, ap (λ (t : ℕ). hi * t) (pow-suc 2 k)) in
    ground (
      arith,
      shifted,
      pow-suc 2 k,
      bit_or_halves (hi * 2 ^ suc k) lo,
      bit_or-disjoint k hi (lo / 2) (omega (arith, pow-suc 2 k)),
    )
