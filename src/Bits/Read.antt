-- ===== src/Bits/Read.antt =====
-- The reading operations as functions of the bits behind the cursor.
use native.Mathlib.Nat.{pow-suc, one-le-pow, div-eq_of_lt, div-eq-sub-div}
use native.Mathlib.Decide.{dec_lt}
use speex.Common.{Bool, ℕ, suc, ◌+◌, ◌-◌, ◌*◌, ◌%◌, ◌^◌, ◌≤◌, ◌<◌, ◌≡◌, refl, ap, ◌∙◌}
use speex.Common.{arith, true, false, ◌&&◌, ok, ◌>>=◌, bit_or}
use speex.Common.{ltb, ◌==◌, Bool-cases, inl, inr, if◌then◌else◌, bit_or-disjoint}
use speex.Common.{ℤ, pos, sub_ℕ, signed32, passes_below, passes_below-at}
use speex.Bits.{SpeexBits, check_overflow, unpack_loop, unpack_unsigned, unpack_signed}
use speex.Bits.{peek_unsigned, peek, advance}
use speex.Bits.View.{bit_at, bits_at, position}
use speex.Bits.Unpack.{
  IsReadable, overruns, overflowed, moved, bits_at-lt, unpack_loop-eq, current_bit-ok,
}

-- What a read of `n` bits returns when the stream holds them.
abbrev pub peeked : SpeexBits → ℕ → ℕ
peeked s n = bits_at s.chars (position s) n

module _ (s : SpeexBits) (n : ℕ) (r : IsReadable s) where
  check_overflow-overruns : overruns s n ≡ true → check_overflow s n ≡ overflowed s
  unfolding check_overflow
  check_overflow-overruns h = ground arith

  check_overflow-fits : overruns s n ≡ false → check_overflow s n ≡ s
  unfolding check_overflow
  check_overflow-fits h = ground arith

  no_overflow : overruns s n ≡ false → s.overflow ≡ false
  no_overflow h = ground arith

  read_loop : n ≤ 32 → overruns s n ≡ false → unpack_loop s 0 n ≡ ok (peeked s n, moved s n)
  read_loop few h =
      unpack_loop-eq n 0 0 s r.aligned (omega (arith, in_range, r.stored)) (omega arith)
        (omega arith)
      ∙ ap (λ (t : ℕ). ok (t, moved s n)) (omega arith)
    where
      in_range : position s + n ≤ s.nb_bits
      in_range = ground arith

  -- speex_bits_unpack_unsigned of at most 32 bits, on every stream whose announced bits are in
  -- memory, never faults: if it would pass nbBits or the overflow flag is set, it returns 0 and
  -- sets the flag with the cursor left alone; otherwise it returns the number written by the
  -- next n bits and moves the cursor by n.
  pub unpack_unsigned-eq :
      n ≤ 32
      → unpack_unsigned s n
        ≡ ok (if overruns s n then (0, overflowed s) else (peeked s n, moved s n))
  unfolding unpack_unsigned
  unpack_unsigned-eq few = elim (Bool-cases (overruns s n)) [
    | inl h ↦ ground (arith, h, check_overflow-overruns h)
    | inr h ↦ ground (arith, h, check_overflow-fits h, no_overflow h, read_loop few h)
  ]

  pub peek_unsigned-eq :
      n ≤ 32 → peek_unsigned s n ≡ ok (if overruns s n then (0, overflowed s) else (peeked s n, s))
  unfolding peek_unsigned
  peek_unsigned-eq few = elim (Bool-cases (overruns s n)) [
    | inl h ↦ ground (arith, h, check_overflow-overruns h)
    | inr h ↦ ground (arith, h, check_overflow-fits h, no_overflow h, read_loop few h)
  ]

  -- On a stream whose announced bits are in memory, speex_bits_peek_unsigned of at most 32 bits
  -- followed by speex_bits_advance by as many is speex_bits_unpack_unsigned: same value, same
  -- stream, on overflow too.
  pub peek_unsigned-advance :
      n ≤ 32 → (peek_unsigned s n >>= λ (d, s'). ok (d, advance s' n)) ≡ unpack_unsigned s n
  unfolding advance
  peek_unsigned-advance few =
      rw (peek_unsigned-eq few, unpack_unsigned-eq few) (ground (arith, Bool-cases (overruns s n)))

pub peek-eq :
    (s : SpeexBits)
    → IsReadable s
    → peek s ≡ ok (if overruns s 1 then (0, overflowed s) else (bit_at s.chars (position s), s))
unfolding peek
peek-eq s r = elim (Bool-cases (overruns s 1)) [
  | inl h ↦ ground (arith, h, check_overflow-overruns s 1 r h)
  | inr h ↦
      let fits : position s + 1 ≤ s.nb_bits = ground arith in
      ground (
        arith,
        h,
        check_overflow-fits s 1 r h,
        no_overflow s 1 r h,
        current_bit-ok s r.aligned (omega (arith, r.stored)),
      )
]

-- The number that `n` bits stand for in two's complement.
abbrev pub signed_value : ℕ → ℕ → ℤ
signed_value n v = if ltb v (2 ^ (n - 1)) then pos v else sub_ℕ v (2 ^ n)

-- `(~0u)<<nbBits`, for each width.
abbrev is_extension : ℕ → Bool
is_extension k =
    ((2 ^ 32 - 1) * 2 ^ suc k % 2 ^ 32 == (2 ^ (31 - k) - 1) * 2 ^ suc k)
    && ((2 ^ (31 - k) - 1) * 2 ^ suc k == 2 ^ 32 - 2 ^ suc k)
    && ltb (2 * 2 ^ k) (2 ^ 32)

extension_table : passes_below is_extension 31 ≡ true
unfolding passes_below
extension_table = refl

record IsExtension (k : ℕ) : Type 0 where
  ones : (2 ^ 32 - 1) * 2 ^ suc k % 2 ^ 32 ≡ (2 ^ (31 - k) - 1) * 2 ^ suc k
  value : (2 ^ (31 - k) - 1) * 2 ^ suc k ≡ 2 ^ 32 - 2 ^ suc k
  small : 2 * 2 ^ k < 2 ^ 32

below-IsExtension : (k : ℕ) → k < 31 → IsExtension k
below-IsExtension k h =
    let row = passes_below-at is_extension extension_table k h in
    record { ones = ground (arith, row); value = ground (arith, row); small = ground (arith, row) }

-- `d |= (~0u)<<nbBits`
extend :
    (k v : ℕ)
    → k < 31
    → v < 2 ^ suc k
    → bit_or ((2 ^ 32 - 1) * 2 ^ suc k % 2 ^ 32) v ≡ 2 ^ 32 - 2 ^ suc k + v
extend k v few h =
    let e = below-IsExtension k few in
    rw (e.ones, bit_or-disjoint (suc k) (2 ^ (31 - k) - 1) v h, e.value)

extend-signed32 :
    (k v : ℕ)
    → k < 31
    → v < 2 ^ suc k
    → 2 ^ k ≤ v
    → signed32 (2 ^ 32 - 2 ^ suc k + v) ≡ sub_ℕ v (2 ^ suc k)
unfolding signed32
extend-signed32 k v few h top = ground (arith, pow-suc 2 k, (below-IsExtension k few).small)

plain-signed32 : (k v : ℕ) → k < 31 → v < 2 ^ k → signed32 v ≡ pos v
unfolding signed32
plain-signed32 k v few h = ground (arith, (below-IsExtension k few).small)

-- speex_bits_unpack_signed of 1 to 31 bits that the stream holds returns the pattern of the int
-- that these bits stand for in two's complement, and moves the cursor by as many.
pub unpack_signed_lem :
    (s : SpeexBits) (k : ℕ)
    → IsReadable s
    → k < 31
    → overruns s (suc k) ≡ false
    → (w : ℕ) × (unpack_signed s (suc k) ≡ ok (w, moved s (suc k)))
      × (signed32 w ≡ signed_value (suc k) (peeked s (suc k)))
unfolding unpack_signed
unpack_signed_lem s k r few fits =
    let v = peeked s (suc k) in
    let small : v < 2 ^ suc k = bits_at-lt s.chars (position s) (suc k) in
    let read = unpack_unsigned-eq s (suc k) r (omega arith) in
    elim (dec_lt v (2 ^ k)) [
      | yes h ↦
          (v, ground (arith, read, fits, div-eq_of_lt h), ground (arith, plain-signed32 k v few h))
      | no h ↦
          let high : 2 ^ k ≤ v = omega arith in
          (
            2 ^ 32 - 2 ^ suc k + v,
            ground (
              arith,
              read,
              fits,
              extend k v few small,
              div-eq-sub-div (one-le-pow k 2 (omega arith)) high,
            ),
            ground (arith, extend-signed32 k v few small high),
          )
    ]
