-- ===== src/MathApprox/Log.antt =====
-- The integer logarithms are the exponents of the powers of 2 and 4 next below.
use native.Mathlib.Nat.{div-div-eq-div-mul, le-div_iff_mul-le, div-lt_iff_lt-mul, one-le-pow}
use speex.Common.{
  ℕ, ◌+◌, ◌*◌, ◌/◌, ◌^◌, ◌≤◌, ◌<◌, ◌≡◌, refl, ap, sym, pow-sum, ◌∙◌, arith, leb, if◌then◌else◌,
  Bool-cases, inl, inr,
}
use speex.MathApprox.{narrow, spx_ilog2, spx_ilog4}

-- The number `y` is what is left of `x` after `n` bits are shifted out.
pub record IsLeft (x bound n y : ℕ) : Type 0 where
  pub rest : y ≡ x / 2 ^ n
  pub positive : 1 ≤ y
  pub small : y < bound

-- One test leaves half as many bits; `s` bits count as one in the result.
module _ (s x k add : ℕ) (counts : s * add ≡ k) where
  narrowed :
      (y r : ℕ)
      → IsLeft x (2 ^ k * 2 ^ k) (s * r) y
      → 2 ^ k ≤ y
      → IsLeft x (2 ^ k) (s * (r + add)) (y / 2 ^ k)
  narrowed y r l h = record {
    rest =
        ap (λ (t : ℕ). t / 2 ^ k) l.rest
        ∙ div-div-eq-div-mul x (2 ^ (s * r)) (2 ^ k)
        ∙ ap (λ (t : ℕ). x / t) (sym (pow-sum (s * r) k))
        ∙ ap (λ (t : ℕ). x / 2 ^ t) more;
    positive =
        (le-div_iff_mul-le {k = 2 ^ k} {x = 1} {y = y} (one-le-pow k 2 (omega arith))).1
          (omega arith);
    small =
        (div-lt_iff_lt-mul {k = 2 ^ k} {x = y} {y = 2 ^ k} (one-le-pow k 2 (omega arith))).1
          l.small;
  }
    where
      more : s * r + k ≡ s * (r + add)
      more = grind arith

  pub narrow-IsLeft :
      (y r : ℕ)
      → IsLeft x (2 ^ k * 2 ^ k) (s * r) y
      → let q = narrow k add (y, r) in IsLeft x (2 ^ k) (s * q.1) q.0
  unfolding narrow
  narrow-IsLeft y r l = elim (Bool-cases (leb (2 ^ k) y)) [
    | inl e ↦ rw (e) (narrowed y r l (ground arith))
    | inr e ↦ rw (e) (record { rest = l.rest; positive = l.positive; small = ground arith })
  ]

start-IsLeft : (s x : ℕ) → 1 ≤ x → x < 2 ^ 32 → IsLeft x (2 ^ 16 * 2 ^ 16) (s * 0) x
start-IsLeft s x h b = record {
  rest = over_one x ∙ ap (λ (t : ℕ). x / 2 ^ t) (none s);
  positive = h;
  small = b;
}
  where
    over_one : (x : ℕ) → x ≡ x / 1
    over_one x = omega arith

    none : (s : ℕ) → 0 ≡ s * 0
    none s = omega arith

module _ (x bound n y c : ℕ) (l : IsLeft x bound n y) where
  at_least : c ≤ y → c * 2 ^ n ≤ x
  at_least h =
      (le-div_iff_mul-le {k = 2 ^ n} {x = c} {y = x} (one-le-pow n 2 (omega arith))).0
        (omega (arith, l.rest))

  at_most : y < c → x < c * 2 ^ n
  at_most h =
      (div-lt_iff_lt-mul {k = 2 ^ n} {x = x} {y = c} (one-le-pow n 2 (omega arith))).0
        (omega (arith, l.rest))

-- The last test of spx_ilog2.
last_bit :
    (x y r : ℕ)
    → IsLeft x (2 ^ 2) (1 * r) y
    → let e = if leb 2 y then r + 1 else r in (2 ^ e ≤ x) × (x < 2 ^ (e + 1))
last_bit x y r l = elim (Bool-cases (leb 2 y)) [
  | inl h ↦ rw (h) (
    omega (arith, pow-sum r 1, at_least x 4 (1 * r) y 2 l (ground arith), same),
    omega (
      arith,
      pow-sum (r + 1) 1,
      pow-sum r 1,
      at_most x 4 (1 * r) y 4 l (omega (arith, l.small)),
      same,
    ),
  )
  | inr h ↦ rw (h) (
    omega (arith, at_least x 4 (1 * r) y 1 l (omega (arith, l.positive)), same),
    omega (arith, pow-sum r 1, at_most x 4 (1 * r) y 2 l (ground arith), same),
  )
]
  where
    same : 2 ^ (1 * r) ≡ 2 ^ r
    same = ap (λ (t : ℕ). 2 ^ t) (unit r)
      where
        unit : (r : ℕ) → 1 * r ≡ r
        unit r = omega arith

-- spx_ilog2 of every 32-bit number but 0 is the exponent of the greatest power of 2 that is not
-- above the number.
pub spx_ilog2_lem :
    (x : ℕ) → 1 ≤ x → x < 2 ^ 32 → (2 ^ spx_ilog2 x ≤ x) × (x < 2 ^ (spx_ilog2 x + 1))
unfolding spx_ilog2
spx_ilog2_lem x h b =
    let (x1, r1) = narrow 16 16 (x, 0) in
    let l1 = narrow-IsLeft 1 x 16 16 refl x 0 (start-IsLeft 1 x h b) in
    let (x2, r2) = narrow 8 8 (x1, r1) in
    let l2 = narrow-IsLeft 1 x 8 8 refl x1 r1 l1 in
    let (x3, r3) = narrow 4 4 (x2, r2) in
    let l3 = narrow-IsLeft 1 x 4 4 refl x2 r2 l2 in
    let (x4, r4) = narrow 2 2 (x3, r3) in
    let l4 = narrow-IsLeft 1 x 2 2 refl x3 r3 l3 in last_bit x x4 r4 l4

-- The last test of spx_ilog4.
last_pair :
    (x y r : ℕ)
    → IsLeft x (2 ^ 4) (2 * r) y
    → let e = if leb 4 y then r + 1 else r in (2 ^ (2 * e) ≤ x) × (x < 2 ^ (2 * e + 2))
last_pair x y r l = elim (Bool-cases (leb 4 y)) [
  | inl h ↦ rw (h) (
    omega (arith, next, at_least x 16 (2 * r) y 4 l (ground arith), pow-sum (2 * r) 2),
    omega (
      arith,
      next,
      at_most x 16 (2 * r) y 16 l (omega (arith, l.small)),
      pow-sum (2 * r) 2,
      pow-sum (2 * (r + 1)) 2,
    ),
  )
  | inr h ↦ rw (h) (
    omega (arith, at_least x 16 (2 * r) y 1 l (omega (arith, l.positive))),
    omega (arith, pow-sum (2 * r) 2, at_most x 16 (2 * r) y 4 l (ground arith)),
  )
]
  where
    next : 2 ^ (2 * (r + 1)) ≡ 2 ^ (2 * r + 2)
    next = ap (λ (t : ℕ). 2 ^ t) (twice r)
      where
        twice : (r : ℕ) → 2 * (r + 1) ≡ 2 * r + 2
        twice r = omega arith

-- spx_ilog4 of every 32-bit number but 0 is the exponent of the greatest power of 4 that is not
-- above the number, the powers of 4 written as those of 2.
pub spx_ilog4_lem :
    (x : ℕ) → 1 ≤ x → x < 2 ^ 32 → (2 ^ (2 * spx_ilog4 x) ≤ x) × (x < 2 ^ (2 * spx_ilog4 x + 2))
unfolding spx_ilog4
spx_ilog4_lem x h b =
    let (x1, r1) = narrow 16 8 (x, 0) in
    let l1 = narrow-IsLeft 2 x 16 8 refl x 0 (start-IsLeft 2 x h b) in
    let (x2, r2) = narrow 8 4 (x1, r1) in
    let l2 = narrow-IsLeft 2 x 8 4 refl x1 r1 l1 in
    let (x3, r3) = narrow 4 2 (x2, r2) in
    let l3 = narrow-IsLeft 2 x 4 2 refl x2 r2 l2 in last_pair x x3 r3 l3
