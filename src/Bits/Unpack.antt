-- ===== src/Bits/Unpack.antt =====
-- What the reading operations return and where they leave the cursor.
use native.Mathlib.Nat.{pow-suc, pow-le-pow_right}
use speex.Common.{ℕ, zero, suc, ◌+◌, ◌*◌, ◌/◌, ◌%◌, ◌^◌, ◌≤◌, ◌<◌, ◌≡◌, ap}
use speex.Common.{arith, Bool, true, ◌||◌, List, length, ok, load-ok, bit_or}
use speex.Common.{ltb, bit_or-disjoint}
use speex.Bits.{SpeexBits, current_bit, next_position, unpack_loop}
use speex.Bits.View.{bit_at, bits_at, position}

-- The announced bits are inside the memory.
pub record IsReadable (s : SpeexBits) : Type 0 where
  pub stored : s.nb_bits ≤ length s.chars * 8
  pub aligned : s.bit_ptr < 8

-- The stream does not hold `n` more bits, or ran over before.
abbrev pub overruns : SpeexBits → ℕ → Bool
overruns s n = ltb s.nb_bits (position s + n) || s.overflow

abbrev pub overflowed : SpeexBits → SpeexBits
overflowed s = record s { overflow = true }

-- The stream with its cursor moved by `n` bits.
abbrev pub moved : SpeexBits → ℕ → SpeexBits
moved s n = record s {
  char_ptr = s.char_ptr + (s.bit_ptr + n) / 2 ^ 3;
  bit_ptr = (s.bit_ptr + n) % 2 ^ 3;
}

bit_mul-le : (b m : ℕ) → b < 2 → b * m ≤ m
bit_mul-le zero m h = omega arith
bit_mul-le (suc zero) m h = omega arith
bit_mul-le (suc (suc b)) m h = absurd (omega arith)

pub bit_at-lt : (chars : List ℕ) (p : ℕ) → bit_at chars p < 2
unfolding bit_at
bit_at-lt chars p = omega arith

pub bits_at-lt : (chars : List ℕ) (p n : ℕ) → bits_at chars p n < 2 ^ n
unfolding bits_at
bits_at-lt chars p zero = omega arith
bits_at-lt chars p (suc n) = omega (
  arith,
  bits_at-lt chars (p + 1) n,
  bit_mul-le (bit_at chars p) (2 ^ n) (bit_at-lt chars p),
  pow-suc 2 n,
)

pub current_bit-ok :
    (s : SpeexBits)
    → s.bit_ptr < 8
    → s.char_ptr < length s.chars
    → current_bit s ≡ ok (bit_at s.chars (position s))
unfolding current_bit bit_at
current_bit-ok s a h = rw (load-ok s.chars s.char_ptr 0 h) (ground arith)

next_position-moved : (s : SpeexBits) → s.bit_ptr < 8 → next_position s ≡ moved s 1
unfolding next_position
next_position-moved s h = ground arith

moved-moved : (s : SpeexBits) (m n : ℕ) → moved (moved s m) n ≡ moved s (m + n)
moved-moved s m n = ground arith

-- One round: `d<<=1; d|=bit`
shift_in :
    (d k bit : ℕ) → d < 2 ^ k → k + 1 ≤ 32 → bit < 2 → bit_or (d * 2 % 2 ^ 32) bit ≡ d * 2 + bit
shift_in d k bit h few hb =
    let small : d * 2 < 2 ^ 32 = omega (
      arith,
      pow-suc 2 k,
      pow-le-pow_right {n = 2} (omega arith) {i = suc k} {j = 32} (omega arith),
    ) in
    ground (arith, bit_or-disjoint 1 d bit)

pub unpack_loop-eq :
    (n k d : ℕ) (s : SpeexBits)
    → s.bit_ptr < 8
    → position s + n ≤ length s.chars * 8
    → d < 2 ^ k
    → k + n ≤ 32
    → unpack_loop s d n ≡ ok (d * 2 ^ n + bits_at s.chars (position s) n, moved s n)
unfolding unpack_loop bits_at
unpack_loop-eq zero k d s a h hd few = ground arith
unpack_loop-eq (suc n) k d s a h hd few =
    let bit = bit_at s.chars (position s) in
    let hb : bit < 2 = bit_at-lt s.chars (position s) in
    rw
      (
        current_bit-ok s a (omega arith),
        next_position-moved s a,
        shift_in d k bit hd (omega arith) hb,
        unpack_loop-eq n (suc k) (d * 2 + bit) (moved s 1) (omega arith) (omega arith)
            (omega (arith, pow-suc 2 k)) (omega arith),
      )
      (ground (arith, regroup d bit n, along))
  where
    along : position (moved s 1) ≡ position s + 1
    along = omega arith

    regroup : (d bit n : ℕ) → (d * 2 + bit) * 2 ^ n ≡ d * 2 ^ suc n + bit * 2 ^ n
    regroup d bit n = omega (arith, ap (λ (t : ℕ). d * t) (pow-suc 2 n))
