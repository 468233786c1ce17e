-- ===== src/Bits/Field.antt =====
-- One field: its value, and the stream behind it.
use speex.Common.{ℕ, ◌^◌, ◌≤◌, ◌<◌, ◌≡◌, arith}
use speex.Common.{if◌then◌else◌}
use speex.Common.{ok}
use native.Mathlib.Nat.{one-le-pow}
use speex.Bits.{SpeexBits, unpack_unsigned, advance}
use speex.Bits.View.{position}
use speex.Bits.Unpack.{IsReadable, overruns, overflowed, moved, bits_at-lt}
use speex.Bits.Read.{peeked, unpack_unsigned-eq}

-- The cursor `n` bits on, or the overflow flag set.
abbrev pub skip : SpeexBits → ℕ → SpeexBits
skip s n = if overruns s n then overflowed s else moved s n

pub advance-skip : (s : SpeexBits) (n : ℕ) → advance s n ≡ skip s n
unfolding advance
advance-skip s n = ground arith

-- The number that a field of `n` bits gives.
abbrev pub field : SpeexBits → ℕ → ℕ
field s n = if overruns s n then 0 else peeked s n

pub field-lt : (s : SpeexBits) (n : ℕ) → field s n < 2 ^ n
field-lt s n = ground (arith, bits_at-lt s.chars (position s) n, one-le-pow n 2 (omega arith))

pub skip-IsReadable : (s : SpeexBits) (n : ℕ) → IsReadable s → IsReadable (skip s n)
skip-IsReadable s n r = ground arith

pub unpack-field :
    (s : SpeexBits) (n : ℕ) → IsReadable s → n ≤ 32 → unpack_unsigned s n ≡ ok (field s n, skip s n)
unpack-field s n r few = rw (unpack_unsigned-eq s n r few) (ground arith)
