-- ===== src/Bits/Transfer/Whole.antt =====
-- `speex_bits_write_whole_bytes`, and what `speex_bits_write` leaves behind in the stream.
use native.Mathlib.Decide.{dec_lt}
use native.Mathlib.Nat.{mod-one, pow-le-pow_right}
use speex.Common.{ℕ, zero, suc, ◌+◌, ◌-◌, ◌*◌, ◌/◌, ◌%◌, ◌^◌, ◌≤◌, ◌<◌, ◌≡◌, refl, sym, ◌∙◌}
use speex.Common.{arith, true, List, length, set, length-set, get_or-set, min}
use speex.Common.{ok, load-ok, store-ok, low_digits}
use speex.Bits.{SpeexBits, Realloc, insert_terminator}
use speex.Bits.View.{byte_at, bit_at, bits_at, position, IsValid, IsBlank}
use speex.Bits.RoundTrip.{Grows}
use speex.Bits.Terminator.{padding, insert_terminator_lem}
use speex.Bits.Transfer.{Written, write, write_whole_bytes}
use speex.Bits.Transfer.Copy.{IsCopied-start, copy_loop-IsCopied}

-- The whole bytes of `s` went to the caller and the bits of the last, partial one stay.
pub record IsDrained (s : SpeexBits) (w : Written) : Type 0 where
  pub counted : w.count ≡ s.nb_bits / 8
  pub sent : (i : ℕ) → i < s.nb_bits / 8 → byte_at w.out i ≡ byte_at s.chars i
  pub left : 0 < s.bit_ptr → byte_at w.stream.chars 0 ≡ byte_at s.chars s.char_ptr
  pub rest : w.stream.nb_bits ≡ s.bit_ptr
  pub moved : position w.stream ≡ s.bit_ptr
  pub valid : IsValid w.stream
  pub blank : IsBlank w.stream

drained : SpeexBits → ℕ → SpeexBits
drained s first = record s {
  chars = set s.chars 0 first;
  char_ptr = 0;
  nb_bits = s.nb_bits % 2 ^ 3;
}

drained-IsValid : (s : SpeexBits) (first : ℕ) → IsValid s → first < 256 → IsValid (drained s first)
unfolding drained
drained-IsValid s first v hfirst = record {
  sized = length-set s.chars 0 first ∙ v.sized;
  inside = omega (arith, v.inside);
  aligned = v.aligned;
  bytes = λ i.
      ground (arith, get_or-set s.chars 0 i first 0 (omega (arith, v.sized, v.inside)), v.bytes i);
}

-- speex_bits_write_whole_bytes on a valid, blank stream whose cursor is at its end, with max and
-- the caller's memory large enough, hands over all whole bytes; the bits of the partial last
-- byte, if there are any, move to the start of the stream, which is again valid and blank with
-- its cursor at its end.
pub write_whole_bytes_lem :
    (s : SpeexBits) (out : List ℕ) (max : ℕ)
    → IsValid s
    → IsBlank s
    → s.nb_bits ≡ position s
    → s.nb_bits / 8 ≤ max
    → s.nb_bits / 8 ≤ length out
    → (w : Written) × (write_whole_bytes s out max ≡ ok w) × IsDrained s w
unfolding write_whole_bytes drained
write_whole_bytes_lem s out max v b full most room =
    let n = s.nb_bits / 8 in
    let here : s.char_ptr ≡ n = omega (arith, v.aligned) in
    let count : min max n ≡ n = omega arith in
    let inside : 0 < length s.chars = omega (arith, v.sized, v.inside) in
    let (out', copies, c) =
      copy_loop-IsCopied n 0 n 0 out s.chars (omega arith) (omega (arith, v.sized, v.inside))
        (omega arith) in
    elim (dec_lt 0 s.bit_ptr) [
      | yes p ↦
          let byte = byte_at s.chars s.char_ptr in
          (
            record { count = n; out = out'; stream = drained s byte },
            ground (
              arith,
              count,
              copies,
              load-ok s.chars s.char_ptr 0 (omega (arith, v.sized, v.inside)),
              store-ok s.chars 0 byte inside,
            ),
            record {
              counted = refl;
              sent = IsCopied-start out s.chars out' n c;
              left = λ h. ground (arith, get_or-set s.chars 0 0 byte 0 inside);
              rest = omega (arith, v.aligned);
              moved = omega arith;
              valid = drained-IsValid s byte v (v.bytes s.char_ptr);
              blank = ground (arith, b, get_or-set s.chars 0 0 byte 0 inside);
            },
          )
      | no p ↦ (
        record { count = n; out = out'; stream = drained s 0 },
        ground (arith, count, copies, store-ok s.chars 0 0 inside),
        record {
          counted = refl;
          sent = IsCopied-start out s.chars out' n c;
          left = λ h. absurd (omega arith);
          rest = omega (arith, v.aligned);
          moved = omega arith;
          valid = drained-IsValid s 0 v (omega arith);
          blank = ground (arith, get_or-set s.chars 0 0 0 0 inside);
        },
      )
    ]

-- The last bits of a byte, read as a number.
bits_at-byte :
    (chars : List ℕ) (cp bp n : ℕ)
    → bp + n ≡ 8
    → bits_at chars (cp * 8 + bp) n ≡ byte_at chars cp % 2 ^ n
unfolding bits_at bit_at
bits_at-byte chars cp bp zero e = sym (mod-one (byte_at chars cp))
bits_at-byte chars cp bp (suc n) e =
    let inside : (cp * 8 + bp) / 8 ≡ cp = omega arith in
    let place : 7 - (cp * 8 + bp) % 8 ≡ n = omega arith in
    let next : cp * 8 + bp + 1 ≡ cp * 8 + (bp + 1) = omega arith in
    rw (inside, place, next, bits_at-byte chars cp (bp + 1) n (omega arith))
      (low_digits (byte_at chars cp) n)

write_stream :
    (realloc : Realloc) (s t : SpeexBits) (out : List ℕ) (max : ℕ) (w : Written)
    → insert_terminator 8 realloc s ≡ ok t
    → write 8 realloc s out max ≡ ok w
    → w.stream ≡ record t { bit_ptr = s.bit_ptr; char_ptr = s.char_ptr; nb_bits = s.nb_bits }
unfolding write
write_stream realloc s t out max w ends h = ground (arith, ends)

-- After speex_bits_write on a valid, blank, owned stream with a bit cursor from 1 to 6, with an
-- allocator that obeys realloc and never fails, the cursor is kept and the current byte is not
-- blank: of its bits behind the cursor the first is 0 and all others are 1.
pub write-not-IsBlank :
    (realloc : Realloc) (s : SpeexBits) (out : List ℕ) (max : ℕ) (w : Written)
    → Grows realloc
    → IsValid s
    → IsBlank s
    → s.owner ≡ true
    → 0 < s.bit_ptr
    → s.bit_ptr < 7
    → write 8 realloc s out max ≡ ok w
    → (byte_at w.stream.chars w.stream.char_ptr % 2 ^ (8 - w.stream.bit_ptr)
        ≡ 2 ^ (7 - s.bit_ptr) - 1)
      × (w.stream.bit_ptr ≡ s.bit_ptr)
      × (w.stream.char_ptr ≡ s.char_ptr)
      × ¬ IsBlank w.stream
write-not-IsBlank realloc s out max w g v b o inner early h =
    let (t, ends, aligned, p) = insert_terminator_lem realloc s g v b o in
    let same = write_stream realloc s t out max w ends h in
    let width : padding s ≡ 8 - s.bit_ptr = omega arith in
    let value : byte_at t.chars s.char_ptr % 2 ^ padding s ≡ 2 ^ (padding s - 1) - 1 =
      sym (bits_at-byte t.chars s.char_ptr s.bit_ptr (padding s) (omega arith)) ∙ p.written in
    let ones : 2 ^ 1 ≤ 2 ^ (padding s - 1) =
      pow-le-pow_right {n = 2} (omega arith) {i = 1} (omega arith) in
    let shorter : padding s - 1 ≡ 7 - s.bit_ptr = omega arith in
    let left : byte_at t.chars s.char_ptr % 2 ^ (8 - s.bit_ptr) ≡ 2 ^ (7 - s.bit_ptr) - 1 =
      rw (← width, ← shorter) value in
    (
      rw (same) left,
      rw (same) refl,
      rw (same) refl,
      λ blank.
          let zeros : byte_at t.chars s.char_ptr % 2 ^ padding s ≡ 0 =
            rw width (rw (same) at blank) in
          absurd (omega arith),
    )
