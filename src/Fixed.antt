-- ===== src/Fixed.antt =====
-- libspeex/fixed_generic.h: 16 and 32 bit fixed-point words, as integers that wrap in two's complement.
use speex.Common.{ℕ, zero, suc, ◌+◌, ◌-◌, ◌*◌, ◌/◌, ◌%◌, ◌^◌, ◌≤◌, ◌≡◌, arith, ltb, if◌then◌else◌}
use speex.Common.{
  ◌-ℤ◌, sub_ℕ, signed32, pattern32, ℤ, pos, negsuc, neg, pos_part, neg_part, ◌+ℤ◌, ◌*ℤ◌,
}
use speex.Common.{Bool, true, ◌&&◌, List, [], ◌∷◌, leb, get_or}

-- The 16 bits of a number, and the int16_t that they stand for.
unfoldable pub pattern16 : ℤ → ℕ
pattern16 (pos n) = n % 2 ^ 16
pattern16 (negsuc n) = 2 ^ 16 - 1 - n % 2 ^ 16

unfoldable pub signed16 : ℕ → ℤ
signed16 w = if ltb w (2 ^ 15) then pos w else negsuc (2 ^ 16 - w - 1)

unfoldable pub extract16 : ℤ → ℤ
unfolding pattern16 signed16
extract16 z = signed16 (pattern16 z)

-- z * 2 ^ k
unfoldable pub scale : ℤ → ℕ → ℤ
scale (pos n) k = pos (n * 2 ^ k)
scale (negsuc n) k = neg (suc n * 2 ^ k)

-- `>>` of a signed number rounds down.
unfoldable pub shr : ℤ → ℕ → ℤ
shr (pos n) k = pos (n / 2 ^ k)
shr (negsuc n) k = negsuc (n / 2 ^ k)

unfoldable pub shl16 : ℤ → ℕ → ℤ
unfolding extract16 scale
shl16 z k = extract16 (scale z k)

unfoldable pub add16 : ℤ → ℤ → ℤ
unfolding extract16 ◌+ℤ◌
add16 a b = extract16 (extract16 a +ℤ extract16 b)

unfoldable pub mult16_16 : ℤ → ℤ → ℤ
unfolding extract16 ◌*ℤ◌
mult16_16 a b = extract16 a *ℤ extract16 b

-- 32-bit words: sums and shifts wrap.
unfoldable pub shl32 : ℤ → ℕ → ℤ
unfolding scale signed32 pattern32
shl32 z k = signed32 (pattern32 (scale z k))

unfoldable pub neg32 : ℤ → ℤ
neg32 z = sub_ℕ (neg_part z) (pos_part z)

unfoldable pub add32 : ℤ → ℤ → ℤ
unfolding signed32 pattern32 ◌+ℤ◌
add32 a b = signed32 (pattern32 (a +ℤ b))

unfoldable pub sub32 : ℤ → ℤ → ℤ
unfolding signed32 pattern32 ◌-ℤ◌
sub32 a b = signed32 (pattern32 (a -ℤ b))

-- `PSHR32(a, shift)`: the shift rounds to the nearest number.
unfoldable pub pshr32 : ℤ → ℕ → ℤ
unfolding shr ◌+ℤ◌
pshr32 a k = shr (a +ℤ pos (2 ^ k / 2)) k

-- The low `k` bits of a 32-bit word.
unfoldable pub low_part : ℤ → ℕ → ℤ
unfolding pattern32
low_part b k = pos (pattern32 b % 2 ^ k)

unfoldable pub mult16_32_q14 : ℤ → ℤ → ℤ
unfolding add32 mult16_16 shr low_part
mult16_32_q14 a b = add32 (mult16_16 a (shr b 14)) (shr (mult16_16 a (low_part b 14)) 14)

unfoldable pub mult16_32_q15 : ℤ → ℤ → ℤ
unfolding add32 mult16_16 shr low_part
mult16_32_q15 a b = add32 (mult16_16 a (shr b 15)) (shr (mult16_16 a (low_part b 15)) 15)

unfoldable pub mult16_16_p15 : ℤ → ℤ → ℤ
unfolding add32 mult16_16 shr
mult16_16_p15 a b = shr (add32 (pos 16384) (mult16_16 a b)) 15

unfoldable pub mult16_16_q15 : ℤ → ℤ → ℤ
unfolding mult16_16 shr
mult16_16_q15 a b = shr (mult16_16 a b) 15

unfoldable pub mult16_16_p14 : ℤ → ℤ → ℤ
unfolding add32 mult16_16 shr
mult16_16_p14 a b = shr (add32 (pos 8192) (mult16_16 a b)) 14

unfoldable pub mult16_16_q14 : ℤ → ℤ → ℤ
unfolding mult16_16 shr
mult16_16_q14 a b = shr (mult16_16 a b) 14

-- `VSHR32(a, shift)`: to the left where the shift is not above 0.
unfoldable pub vshr32 : ℤ → ℤ → ℤ
unfolding shr shl32
vshr32 a shift = if ltb 0 (pos_part shift) then shr a (pos_part shift) else shl32 a (neg_part shift)

-- The number lies between -b and b.
pub record Within (b : ℕ) (z : ℤ) : Type 0 where
  pub above : neg_part z ≤ b
  pub below : pos_part z ≤ b

-- A number that fits is kept.
pub extract16-Within : (z : ℤ) → Within 32767 z → extract16 z ≡ z
unfolding extract16
extract16-Within (pos n) h = ground arith
extract16-Within (negsuc n) h = ground arith

neg-Within : (m b : ℕ) → m ≤ b → Within b (neg m)
neg-Within zero b h = omega arith
neg-Within (suc m) b h = omega arith

mul_mono : (m n c : ℕ) → m ≤ n → m * c ≤ n * c
mul_mono m n c h = grind arith

pub scale-Within : (z : ℤ) (b k : ℕ) → Within b z → Within (b * 2 ^ k) (scale z k)
unfolding scale
scale-Within (pos n) b k h = record { above = omega arith; below = mul_mono n b (2 ^ k) h.below }
scale-Within (negsuc n) b k h =
    neg-Within (suc n * 2 ^ k) (b * 2 ^ k) (mul_mono (suc n) b (2 ^ k) h.above)

pub +ℤ-Within : (y z : ℤ) (b c : ℕ) → Within b y → Within c z → Within (b + c) (y +ℤ z)
unfolding ◌+ℤ◌
+ℤ-Within y z b c h k = ground arith

pub Within-weaken : {b : ℕ} (c : ℕ) {z : ℤ} → b ≤ c → Within b z → Within c z
Within-weaken c le h = omega arith

-- All numbers of a list lie between -b and b.
unfoldable pub are_within : ℕ → List ℤ → Bool
are_within b [] = true
are_within b (z ∷ zs) = leb (neg_part z) b && leb (pos_part z) b && are_within b zs

abbrev pub are_chars : List ℤ → Bool
are_chars = are_within 128

pub get_or-Within :
    (b : ℕ) (zs : List ℤ) → are_within b zs ≡ true → (i : ℕ) → Within b (get_or zs i (pos 0))
unfolding are_within
get_or-Within b [] h i = omega arith
get_or-Within b (z ∷ zs) h zero = ground arith
get_or-Within b (z ∷ zs) h (suc i) = get_or-Within b zs (ground arith) i
