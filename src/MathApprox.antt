-- ===== src/MathApprox.antt =====
-- libspeex/math_approx.h: integer logarithms of 32-bit numbers, whose result fits an int16_t, the
-- random numbers and the exponentials of the fixed-point build.
pub mod Log
mod Examples
use speex.Common.{ℕ, ◌+◌, ◌*◌, ◌/◌, ◌%◌, ◌^◌, leb, ltb, if◌then◌else◌, ℤ, pos, neg, ◌-ℤ◌}
use speex.Common.{pos_part, neg_part}
use speex.Fixed.{
  extract16, mult16_16, shr, sub32, pshr32, shl16, add16, mult16_16_q14, mult16_16_p14,
}
use speex.Fixed.{vshr32}

-- if (x >= 2^k) { x >>= k; r += add; }
unfoldable pub narrow : ℕ → ℕ → ℕ × ℕ → ℕ × ℕ
narrow k add (x, r) = if leb (2 ^ k) x then (x / 2 ^ k, r + add) else (x, r)

unfoldable pub spx_ilog2 : ℕ → ℕ
unfolding narrow
spx_ilog2 x =
    let (x', r) = narrow 2 2 (narrow 4 4 (narrow 8 8 (narrow 16 16 (x, 0)))) in
    if leb 2 x' then r + 1 else r

unfoldable pub spx_ilog4 : ℕ → ℕ
unfolding narrow
spx_ilog4 x =
    let (x', r) = narrow 4 2 (narrow 8 4 (narrow 16 8 (x, 0))) in if leb 4 x' then r + 1 else r

-- The number, and the new seed.
unfoldable pub speex_rand : ℤ → ℕ → ℤ × ℕ
unfolding extract16 mult16_16 shr sub32 pshr32
speex_rand std seed =
    let seed' = (1664525 * seed + 1013904223) % 2 ^ 32 in
    let res = mult16_16 (pos (seed' / 2 ^ 16)) std in
    (extract16 (pshr32 (sub32 res (shr res 3)) 14), seed')

-- 2 ^ x, from Q11 to Q16. `x` is an int16_t.
unfoldable pub spx_exp2 : ℤ → ℤ
unfolding shr shl16 ◌-ℤ◌ add16 mult16_16_q14 vshr32
spx_exp2 x =
    let integer = shr x 11 in
    if ltb 14 (pos_part integer)
    then pos 2147483647
    else if ltb 15 (neg_part integer)
    then pos 0
    else let frac = shl16 (x -ℤ shl16 integer 11) 3 in
      let inner = add16 (pos 3726) (mult16_16_q14 (pos 1301) frac) in
      let outer = add16 (pos 11356) (mult16_16_q14 frac inner) in
      vshr32 (add16 (pos 16384) (mult16_16_q14 frac outer)) ((neg 2) -ℤ integer)

unfoldable pub spx_exp : ℤ → ℤ
unfolding spx_exp2 mult16_16_p14 extract16
spx_exp x =
    if ltb 21290 (pos_part x)
    then pos 2147483647
    else if ltb 21290 (neg_part x)
    then pos 0
    else spx_exp2 (extract16 (mult16_16_p14 (pos 23637) x))
