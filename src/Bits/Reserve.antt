-- ===== src/Bits/Reserve.antt =====
-- `speex_bits_pack` with the growth of its buffer, and what it relies on in `realloc`.
use speex.Common.{ℕ, ◌+◌, ◌*◌, ◌/◌, ◌%◌, ◌^◌, ◌≤◌, ◌<◌, ◌≡◌, refl, ◌∙◌}
use speex.Common.{arith, true, false, List, length, none, some, ok}
use speex.Common.{ltb, Bool-cases, Option-cases, ◌⊎◌, inl, inr}
use speex.Bits.{SpeexBits, Realloc, reserve, pack}
use speex.Bits.View.{byte_at, bit_at, position, IsValid, IsBlank}
use speex.Bits.Pack.{IsPacked, pack_loop-IsPacked}

-- What C promises of `realloc`: the new block has the size asked for and starts with the old bytes.
pub record IsRealloc (realloc : Realloc) : Type 0 where
  pub size :
      (chars : List ℕ) (n : ℕ) (block : List ℕ) → realloc chars n ≡ some block → length block ≡ n
  pub same :
      (chars : List ℕ) (n : ℕ) (block : List ℕ)
      → realloc chars n ≡ some block
      → (i : ℕ) → i < length chars
      → i < n
      → byte_at block i ≡ byte_at chars i
  pub bytes :
      (chars : List ℕ) (n : ℕ) (block : List ℕ)
      → realloc chars n ≡ some block
      → ((i : ℕ) → byte_at chars i < 256)
      → (i : ℕ) → byte_at block i < 256

-- There is no room for `n` bits, and the buffer is the caller's or cannot be enlarged.
pub record IsStuck (realloc : Realloc) (s : SpeexBits) (n : ℕ) : Type 0 where
  pub full : s.buf_size ≤ s.char_ptr + (s.bit_ptr + n) / 8
  pub fixed : (s.owner ≡ false) ⊎ (realloc s.chars ((s.buf_size + 5) * 3 / 2) ≡ none)

-- `s'` has room for `n` more bits and is `s` but for the size of its buffer.
pub record IsReserved (s : SpeexBits) (n : ℕ) (s' : SpeexBits) : Type 0 where
  pub room : s'.char_ptr + (s'.bit_ptr + n) / 8 < s'.buf_size
  pub same_bits : (p : ℕ) → p < position s → bit_at s'.chars p ≡ bit_at s.chars p
  pub same_position : position s' ≡ position s
  pub same_count : s'.nb_bits ≡ s.nb_bits
  pub grown : s.buf_size ≤ s'.buf_size
  pub fixed : s.owner ≡ false → s'.buf_size ≡ s.buf_size
  pub same_owner : s'.owner ≡ s.owner
  pub same_overflow : s'.overflow ≡ s.overflow
  pub valid : IsValid s'
  pub blank : IsBlank s'

module _ (realloc : Realloc) (r : IsRealloc realloc) where
  module _ (s : SpeexBits) (v : IsValid s) (b : IsBlank s) (n : ℕ) (few : n ≤ 32) where
    fits-IsReserved : s.char_ptr + (s.bit_ptr + n) / 8 < s.buf_size → IsReserved s n s
    fits-IsReserved h = record {
      room = h;
      same_bits = λ p k. refl;
      same_position = refl;
      same_count = refl;
      grown = omega arith;
      fixed = λ o. refl;
      same_owner = refl;
      same_overflow = refl;
      valid = v;
      blank = b;
    }

    abbrev new_size : ℕ
    new_size = (s.buf_size + 5) * 3 / 2

    grown-IsReserved :
        (block : List ℕ)
        → s.owner ≡ true
        → realloc s.chars new_size ≡ some block
        → IsReserved s n (record s { chars = block; buf_size = new_size })
    unfolding bit_at
    grown-IsReserved block own e = record {
      room = omega (arith, v.inside, v.aligned);
      same_bits = λ p k. rw (same (p / 8) (omega (arith, v.aligned)));
      same_position = refl;
      same_count = refl;
      grown = omega arith;
      fixed = λ o. cc;
      same_owner = refl;
      same_overflow = refl;
      valid = record {
        sized = r.size s.chars new_size block e;
        inside = omega (arith, v.inside);
        aligned = v.aligned;
        bytes = r.bytes s.chars new_size block e v.bytes;
      };
      blank = rw (same s.char_ptr (omega arith)) b;
    }
      where
        same : (i : ℕ) → i ≤ s.char_ptr → byte_at block i ≡ byte_at s.chars i
        same i h =
            r.same s.chars new_size block e i (omega (arith, v.inside, v.sized))
              (omega (arith, v.inside))

    reserve_cases :
        (IsStuck realloc s n × (reserve realloc s n ≡ none))
        ⊎ ((s' : SpeexBits) × (reserve realloc s n ≡ some s') × IsReserved s n s')
    unfolding reserve
    reserve_cases = elim (Bool-cases (ltb (s.char_ptr + (n + s.bit_ptr) / 8) s.buf_size)) [
      | inl e ↦ inr (s, rw e, fits-IsReserved (ground arith))
      | inr e ↦ elim (Bool-cases s.owner) [
        | inr o ↦ inl (record { full = ground arith; fixed = inl o }, rw (e, o))
        | inl o ↦ elim (Option-cases (realloc s.chars new_size)) [
          | inl q ↦ inl (record { full = ground arith; fixed = inr q }, rw (e, o, q))
          | inr (block, q) ↦ inr (
            record s { chars = block; buf_size = new_size },
            ground (arith, e, o, q),
            grown-IsReserved block o q,
          )
        ]
      ]
    ]

IsReserved-IsPacked :
    {s s' s'' : SpeexBits} {n v : ℕ} → IsReserved s n s' → IsPacked s' n v s'' → IsPacked s n v s''
IsReserved-IsPacked {s} {s'} a b = record {
  before = λ p h. b.before p (omega (arith, a.same_position)) ∙ a.same_bits p h;
  written = rw (← a.same_position) b.written;
  moved = omega (arith, a.same_position, b.moved);
  counted = omega (arith, a.same_count, b.counted);
  grown = omega (arith, a.grown, b.grown);
  fixed = λ o. b.fixed (a.same_owner ∙ o) ∙ a.fixed o;
  same_owner = b.same_owner ∙ a.same_owner;
  same_overflow = b.same_overflow ∙ a.same_overflow;
  valid = b.valid;
  blank = b.blank;
}

-- speex_bits_pack of at most 32 bits on a valid stream whose current byte is blank behind the
-- cursor, with an allocator that obeys realloc, never faults. Either there is no room and the
-- buffer is borrowed or cannot be enlarged, and the stream is unchanged; or exactly the n bits
-- of d are written at the cursor, the bits before it are kept, cursor and bit count advance by
-- n, and the stream is again valid and blank.
pub pack_lem :
    (realloc : Realloc) (s : SpeexBits) (d n : ℕ)
    → IsRealloc realloc
    → IsValid s
    → IsBlank s
    → n ≤ 32
    → (IsStuck realloc s n × (pack realloc s d n ≡ ok s))
      ⊎ ((s' : SpeexBits) × (pack realloc s d n ≡ ok s') × IsPacked s n (d % 2 ^ n) s')
unfolding pack
pack_lem realloc s d n r v b few = elim (reserve_cases realloc r s v b n few) [
  | inl (stuck, e) ↦ inl (stuck, ground (arith, e))
  | inr (s', e, a) ↦
      let (s'', e', q) = pack_loop-IsPacked n d s' a.valid a.blank a.room in
      inr (s'', ground (arith, e, e'), IsReserved-IsPacked a q)
]
