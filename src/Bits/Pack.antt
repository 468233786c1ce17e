-- ===== src/Bits/Pack.antt =====
-- What `speex_bits_pack` does to the bits of the stream.
use native.Mathlib.Nat.{mod-one}
use native.Mathlib.Decide.{dec_lt}
use speex.Common.{ℕ, zero, suc, ◌+◌, ◌-◌, ◌*◌, ◌/◌, ◌%◌, ◌^◌, ◌≤◌, ◌<◌, ◌≡◌, refl, ◌∙◌}
use speex.Common.{arith, bit_or, false, List, length, set, length-set}
use speex.Common.{get_or-set, low_digits, if◌then◌else◌, ok}
use speex.Common.{load-ok, store-ok, ◌==◌, Bool-cases, inl, inr}
use speex.Bits.{SpeexBits, pack_bit, pack_loop}
use speex.Bits.View.{byte_at, bit_at, bits_at, position, IsValid, IsBlank, IsMarked, mark-IsMarked}

-- `s'` is `s` with `n` bits appended at the cursor, which write the number `v`.
-- The buffer may have grown.
pub record IsPacked (s : SpeexBits) (n v : ℕ) (s' : SpeexBits) : Type 0 where
  pub before : (p : ℕ) → p < position s → bit_at s'.chars p ≡ bit_at s.chars p
  pub written : bits_at s'.chars (position s) n ≡ v
  pub moved : position s' ≡ position s + n
  pub counted : s'.nb_bits ≡ s.nb_bits + n
  pub grown : s.buf_size ≤ s'.buf_size
  pub fixed : s.owner ≡ false → s'.buf_size ≡ s.buf_size
  pub same_owner : s'.owner ≡ s.owner
  pub same_overflow : s'.overflow ≡ s.overflow
  pub valid : IsValid s'
  pub blank : IsBlank s'

bit_at-set :
    (chars : List ℕ) (i v p : ℕ)
    → i < length chars
    → bit_at (set chars i v) p ≡ (if i == p / 8 then v / 2 ^ (7 - p % 8) % 2 else bit_at chars p)
unfolding bit_at
bit_at-set chars i v p h = elim (Bool-cases (i == p / 8)) [
  | inl e ↦ rw (get_or-set chars i (p / 8) v 0 h, e)
  | inr e ↦ rw (get_or-set chars i (p / 8) v 0 h, e)
]

module _ (s : SpeexBits) (bit : ℕ) (v : IsValid s) (b : IsBlank s) (hbit : bit < 2) where
  abbrev new : ℕ
  new = bit_or (byte_at s.chars s.char_ptr) (bit * 2 ^ (7 - s.bit_ptr)) % 2 ^ 8

  new-IsMarked : IsMarked s.bit_ptr (byte_at s.chars s.char_ptr) bit new
  new-IsMarked =
      mark-IsMarked s.bit_ptr (byte_at s.chars s.char_ptr) bit v.aligned (v.bytes s.char_ptr) hbit b

  abbrev marked : List ℕ
  marked = set s.chars s.char_ptr new

  within : s.char_ptr < length s.chars
  within = omega (arith, v.sized, v.inside)

  marked-before : (p : ℕ) → p < position s → bit_at marked p ≡ bit_at s.chars p
  unfolding bit_at
  marked-before p h = elim (Bool-cases (s.char_ptr == p / 8)) [
    | inl e ↦
        ground
          (arith, bit_at-set s.chars s.char_ptr new p within, new-IsMarked.above (p % 8), v.aligned)
    | inr e ↦ rw (bit_at-set s.chars s.char_ptr new p within) (rw e)
  ]

  marked-here : bit_at marked (position s) ≡ bit
  marked-here =
      ground (
        arith,
        bit_at-set s.chars s.char_ptr new (position s) within,
        new-IsMarked.marked,
        v.aligned,
      )

  marked-bytes : (i : ℕ) → byte_at marked i < 256
  marked-bytes i =
      ground (arith, get_or-set s.chars s.char_ptr i new 0 within, new-IsMarked.byte, v.bytes i)

  -- The cursor stays in its byte.
  abbrev stay : SpeexBits
  stay = record s { chars = marked; bit_ptr = s.bit_ptr + 1; nb_bits = s.nb_bits + 1 }

  pack_bit-stay : s.bit_ptr + 1 < 8 → pack_bit s bit ≡ ok stay
  unfolding pack_bit
  pack_bit-stay h =
      rw (load-ok s.chars s.char_ptr 0 within, store-ok s.chars s.char_ptr new within)
        (ground arith)

  stay-IsPacked : s.bit_ptr + 1 < 8 → IsPacked s 1 bit stay
  unfolding bits_at
  stay-IsPacked h = record {
    before = marked-before;
    written = omega (arith, marked-here);
    moved = omega arith;
    counted = refl;
    grown = omega arith;
    fixed = λ o. refl;
    same_owner = refl;
    same_overflow = refl;
    valid = record {
      sized = length-set s.chars s.char_ptr new ∙ v.sized;
      inside = v.inside;
      aligned = h;
      bytes = marked-bytes;
    };
    blank =
        ground (arith, get_or-set s.chars s.char_ptr s.char_ptr new 0 within, new-IsMarked.below);
  }

  -- The byte is full: the next one is cleared.
  abbrev cleared : List ℕ
  cleared = set marked (s.char_ptr + 1) 0

  abbrev step : SpeexBits
  step = record s {
    chars = cleared;
    bit_ptr = 0;
    char_ptr = s.char_ptr + 1;
    nb_bits = s.nb_bits + 1;
  }

  module _ (full : s.bit_ptr + 1 ≡ 8) (room : s.char_ptr + 1 < s.buf_size) where
    next_within : s.char_ptr + 1 < length marked
    next_within = omega (arith, v.sized, length-set s.chars s.char_ptr new)

    pack_bit-step : pack_bit s bit ≡ ok step
    unfolding pack_bit
    pack_bit-step =
        rw (load-ok s.chars s.char_ptr 0 within, store-ok s.chars s.char_ptr new within)
          (ground (arith, store-ok marked (s.char_ptr + 1) 0 next_within))

    cleared-before : (p : ℕ) → p ≤ position s → bit_at cleared p ≡ bit_at marked p
    cleared-before p h = ground (arith, bit_at-set marked (s.char_ptr + 1) 0 p next_within)

    step-IsPacked : IsPacked s 1 bit step
    unfolding bits_at
    step-IsPacked = record {
      before = λ p h. cleared-before p (omega arith) ∙ marked-before p h;
      written = omega (arith, marked-here, cleared-before (position s) (omega arith));
      moved = omega arith;
      counted = refl;
      grown = omega arith;
      fixed = λ o. refl;
      same_owner = refl;
      same_overflow = refl;
      valid = record {
        sized = length-set marked (s.char_ptr + 1) 0 ∙ length-set s.chars s.char_ptr new ∙ v.sized;
        inside = room;
        aligned = omega arith;
        bytes = λ i.
            ground (arith, get_or-set marked (s.char_ptr + 1) i 0 0 next_within, marked-bytes i);
      };
      blank = ground (arith, get_or-set marked (s.char_ptr + 1) (s.char_ptr + 1) 0 0 next_within);
    }

  pack_bit-IsPacked :
      s.char_ptr + (s.bit_ptr + 1) / 8 < s.buf_size
      → (s' : SpeexBits) × (pack_bit s bit ≡ ok s') × IsPacked s 1 bit s'
  pack_bit-IsPacked room = elim (dec_lt (s.bit_ptr + 1) 8) [
    | yes h ↦ (stay, pack_bit-stay h, stay-IsPacked h)
    | no h ↦
        let full : s.bit_ptr + 1 ≡ 8 = omega (arith, v.aligned) in
        let room' : s.char_ptr + 1 < s.buf_size = omega arith in
        (step, pack_bit-step full room', step-IsPacked full room')
  ]

pub bits_at-local :
    (a b : List ℕ) (p n : ℕ)
    → ((q : ℕ) → q < p + n → bit_at a q ≡ bit_at b q)
    → bits_at a p n ≡ bits_at b p n
unfolding bits_at
bits_at-local a b p zero h = refl
bits_at-local a b p (suc n) h =
    ground (arith, h p, bits_at-local a b (p + 1) n (λ q k. h q (omega arith)))

pub IsPacked-cons :
    {s s' s'' : SpeexBits} {bit n v : ℕ}
    → IsPacked s 1 bit s'
    → IsPacked s' n v s''
    → IsPacked s (suc n) (bit * 2 ^ n + v) s''
unfolding bits_at
IsPacked-cons {s} {s'} {s''} {bit} {n} {v} a b = record {
  before = λ p h. b.before p (omega (arith, a.moved)) ∙ a.before p h;
  written = rw (first, ← a.moved, b.written);
  moved = omega (arith, a.moved, b.moved);
  counted = omega (arith, a.counted, b.counted);
  grown = omega (arith, a.grown, b.grown);
  fixed = λ o. b.fixed (a.same_owner ∙ o) ∙ a.fixed o;
  same_owner = b.same_owner ∙ a.same_owner;
  same_overflow = b.same_overflow ∙ a.same_overflow;
  valid = b.valid;
  blank = b.blank;
}
  where
    first : bit_at s''.chars (position s) ≡ bit
    first = omega (arith, b.before (position s) (omega (arith, a.moved)), a.written)

pub IsPacked-nil : (s : SpeexBits) → IsValid s → IsBlank s → IsPacked s 0 0 s
unfolding bits_at
IsPacked-nil s v b = record {
  before = λ p h. refl;
  written = refl;
  moved = omega arith;
  counted = omega arith;
  grown = omega arith;
  fixed = λ o. refl;
  same_owner = refl;
  same_overflow = refl;
  valid = v;
  blank = b;
}

pub pack_loop-IsPacked :
    (n d : ℕ) (s : SpeexBits)
    → IsValid s
    → IsBlank s
    → s.char_ptr + (s.bit_ptr + n) / 8 < s.buf_size
    → (s' : SpeexBits) × (pack_loop s d n ≡ ok s') × IsPacked s n (d % 2 ^ n) s'
unfolding pack_loop
pack_loop-IsPacked zero d s v b room = (s, refl, rw (mod-one d) (IsPacked-nil s v b))
pack_loop-IsPacked (suc n) d s v b room =
    let (s', e, a) = pack_bit-IsPacked s (d / 2 ^ n % 2) v b (omega arith) (omega arith) in
    let (s'', e', a') =
      pack_loop-IsPacked n d s' a.valid a.blank
        (omega (arith, a.moved, a.grown, a.valid.aligned, v.aligned)) in
    (s'', rw e e', rw (← low_digits d n) (IsPacked-cons a a'))
