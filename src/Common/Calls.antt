-- ===== src/Common/Calls.antt =====
-- What a C call can do: return, access memory outside an object (undefined in C), or loop for ever.
use Prim.Native.Nat.{ℕ, ◌<◌, ◌≤◌}
use mathlib.Core.Path.{◌≡◌}
use mathlib.Core.List.{List}
use mathlib.Core.Option.{Option, none, some}
use native.Mathlib.Omega.{arith}
use speex.Common.Tests.{ltb, if◌then◌else◌}
use speex.Common.Array.{length, get_elem?, get_or, set, get_elem?-eq-get_or, get_elem?-out}

-- `diverges` means that a loop ran out of the fuel that it was given.
pub data Result {ℓ} (A : Type ℓ) : Type ℓ where
  ok : A → Result A
  fault : Result A
  diverges : Result A

infixl 5 ◌>>=◌
abbrev pub ◌>>=◌ {ℓ κ} : {A : Type ℓ} {B : Type κ} → Result A → (A → Result B) → Result B
ok a >>= f = f a
fault >>= f = fault
diverges >>= f = diverges

module _ {ℓ} {A : Type ℓ} where
  abbrev from_option : Option A → Result A
  from_option none = fault
  from_option (some a) = ok a

  -- `xs[i]`, read
  abbrev pub load : List A → ℕ → Result A
  load xs i = from_option (get_elem? xs i)

  -- `xs[i] = v`
  abbrev pub store : List A → ℕ → A → Result (List A)
  store xs i v = if ltb i (length xs) then ok (set xs i v) else fault

  pub load-ok : (xs : List A) (i : ℕ) (d : A) → i < length xs → load xs i ≡ ok (get_or xs i d)
  load-ok xs i d h = ground (arith, get_elem?-eq-get_or xs i d h)

  pub load-fault : (xs : List A) (i : ℕ) → length xs ≤ i → load xs i ≡ fault
  load-fault xs i h = ground (arith, get_elem?-out xs i h)

  pub store-ok : (xs : List A) (i : ℕ) (v : A) → i < length xs → store xs i v ≡ ok (set xs i v)
  store-ok xs i v h = ground arith

  pub store-fault : (xs : List A) (i : ℕ) (v : A) → length xs ≤ i → store xs i v ≡ fault
  store-fault xs i v h = ground arith
