-- ===== src/Vq/Scalar.antt =====
-- The index that a scalar quantizer returns.
use mathlib.Core.Path.{subst}
use speex.Common.{
  ℕ, zero, suc, ◌+◌, ◌-◌, ◌≤◌, ◌<◌, ◌≡◌, refl, arith, Bool, true, false, Bool-cases, List, length,
  get_or,
}
use speex.Common.{ℤ, pos, ltb_ℤ, ok, load-ok, inl, inr}
use speex.Vq.{quant_loop, scal_quant, scal_quant32}

abbrev pub exceeds : ℤ → List ℤ → ℕ → Bool
exceeds input boundary j = ltb_ℤ (get_or boundary j (pos 0)) input

-- `i` is the first index from `low` on whose boundary is not exceeded, or `high` if there is none.
pub record IsFirst (input : ℤ) (boundary : List ℤ) (low high i : ℕ) : Type 0 where
  pub in_range : (low ≤ i) × (i ≤ high)
  pub before : (j : ℕ) → low ≤ j → j < i → exceeds input boundary j ≡ true
  pub stops : i < high → exceeds input boundary i ≡ false

quant_loop-IsFirst :
    (input : ℤ) (boundary : List ℤ) (i left : ℕ)
    → i + left ≤ length boundary
    → (q : ℕ) × (quant_loop input boundary i left ≡ ok q) × IsFirst input boundary i (i + left) q
unfolding quant_loop
quant_loop-IsFirst input boundary i zero h = (
  i,
  refl,
  record {
    in_range = (omega arith, omega arith);
    before = λ j p q. absurd (omega arith);
    stops = λ p. absurd (omega arith);
  },
)
quant_loop-IsFirst input boundary i (suc left) h = elim (Bool-cases (exceeds input boundary i)) [
  | inl e ↦
      let (q, runs, f) = quant_loop-IsFirst input boundary (i + 1) left (omega arith) in
      (
        q,
        rw (load-ok boundary i (pos 0) (omega arith), e) runs,
        record {
          in_range = (omega (arith, f.in_range), omega (arith, f.in_range));
          before = λ j p r. ground (arith, e, f.before j);
          stops = λ p. f.stops (omega arith);
        },
      )
  | inr e ↦ (
    i,
    rw (load-ok boundary i (pos 0) (omega arith), e) refl,
    record {
      in_range = (omega arith, omega arith);
      before = λ j p q. absurd (omega arith);
      stops = λ p. e;
    },
  )
]

-- scal_quant and scal_quant32, with a boundary for each value but the last, never read outside
-- the boundaries and return the same index: the first whose boundary the input does not exceed,
-- or the last value's if the input exceeds all of them.
pub scal_quant-IsFirst :
    (input : ℤ) (boundary : List ℤ) (entries : ℕ)
    → entries - 1 ≤ length boundary
    → (q : ℕ) × (scal_quant input boundary entries ≡ ok q)
      × (scal_quant32 input boundary entries ≡ ok q)
      × IsFirst input boundary 0 (entries - 1) q
unfolding scal_quant scal_quant32
scal_quant-IsFirst input boundary entries h =
    let (q, runs, f) = quant_loop-IsFirst input boundary 0 (entries - 1) (omega arith) in
    let all : 0 + (entries - 1) ≡ entries - 1 = omega arith in
    (q, runs, runs, subst (λ (t : ℕ). IsFirst input boundary 0 t q) all f)
