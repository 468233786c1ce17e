-- ===== src/Common/Tests.antt =====
-- Boolean tests on numbers, the conditional.
use Prim.Native.Nat.{ℕ, zero, suc, ◌≤◌, ◌<◌, compare, Ordering}
use mathlib.Core.Path.{◌≡◌, refl}
use mathlib.Core.Logic.{◌↔◌, ◌⊎◌, inl, inr}
use mathlib.Core.Bool.{Bool, true, false, ◌&&◌}
use mathlib.Core.Option.{Option, none, some}
use native.Mathlib.Omega.{arith}

abbrev pub ltb : ℕ → ℕ → Bool
ltb a b = elim (compare a b) [ Ordering.lt ↦ true | _ ↦ false ]

abbrev pub leb : ℕ → ℕ → Bool
leb a b = elim (compare a b) [ Ordering.gt ↦ false | _ ↦ true ]

infix 50 ◌==◌
abbrev pub ◌==◌ : ℕ → ℕ → Bool
a == b = elim (compare a b) [ Ordering.eq ↦ true | _ ↦ false ]

infix 1 if◌then◌else◌
abbrev pub if◌then◌else◌ {ℓ} : {A : Type ℓ} → Bool → A → A → A
if true then x else y = x
if false then x else y = y

pub lt→ltb : (a b : ℕ) → a < b → ltb a b ≡ true
lt→ltb a b h = ground arith

pub le→ltb : (a b : ℕ) → b ≤ a → ltb a b ≡ false
le→ltb a b h = ground arith

pub ==_iff : (a b : ℕ) → ((a == b) ≡ true) ↔ (a ≡ b)
==_iff a b = ground arith

pub Bool-cases : (b : Bool) → (b ≡ true) ⊎ (b ≡ false)
Bool-cases true = inl refl
Bool-cases false = inr refl

pub Option-cases {ℓ} : {A : Type ℓ} (o : Option A) → (o ≡ none) ⊎ ((a : A) × (o ≡ some a))
Option-cases none = inl refl
Option-cases (some a) = inr (a, refl)

-- A test that passes at each of the first `n` numbers, by running it.
unfoldable pub passes_below : (ℕ → Bool) → ℕ → Bool
passes_below test zero = true
passes_below test (suc n) = passes_below test n && test n

pub passes_below-at :
    {n : ℕ} (test : ℕ → Bool) → passes_below test n ≡ true → (i : ℕ) → i < n → test i ≡ true
unfolding passes_below
passes_below-at {n = zero} test h i lt = absurd (omega arith)
passes_below-at {n = suc n} test h i lt =
    ground (arith, passes_below-at {n = n} test (ground arith) i)

-- To prove something of every position in a byte, prove it of each of the eight.
pub below_eight {ℓ} :
    (P : ℕ → Type ℓ) (n : ℕ) → n < 8 → P 0 → P 1 → P 2 → P 3 → P 4 → P 5 → P 6 → P 7 → P n
below_eight P zero h a b c d e f g i = a
below_eight P (suc zero) h a b c d e f g i = b
below_eight P (suc (suc zero)) h a b c d e f g i = c
below_eight P (suc (suc (suc zero))) h a b c d e f g i = d
below_eight P (suc (suc (suc (suc zero)))) h a b c d e f g i = e
below_eight P (suc (suc (suc (suc (suc zero))))) h a b c d e f g i = f
below_eight P (suc (suc (suc (suc (suc (suc zero)))))) h a b c d e f g i = g
below_eight P (suc (suc (suc (suc (suc (suc (suc zero))))))) h a b c d e f g i = i
below_eight P (suc (suc (suc (suc (suc (suc (suc (suc n)))))))) h a b c d e f g i =
    absurd (omega arith)
