-- ===== src/Bits/Transfer/ReadFrom.antt =====
-- `speex_bits_read_from` on every branch.
use speex.Common.{ℕ, ◌*◌, ◌^◌, ◌≤◌, ◌<◌, ◌≡◌, refl, ◌∙◌}
use speex.Common.{arith, false, List, length, ok, none}
use speex.Common.{ltb, ◌⊎◌, inl, inr, Bool-cases, Option-cases}
use speex.Bits.{SpeexBits, Realloc}
use speex.Bits.View.{byte_at, position}
use speex.Bits.Reserve.{IsRealloc}
use speex.Bits.Unpack.{IsReadable}
use speex.Bits.Transfer.{read_room, read_from}
use speex.Bits.Transfer.Copy.{copy_loop-IsCopied}

-- `n` bytes of `input` are in `s'`, ready to be read from the start.
pub record IsLoaded (input : List ℕ) (n : ℕ) (s' : SpeexBits) : Type 0 where
  pub bytes : (i : ℕ) → i < n → byte_at s'.chars i ≡ byte_at input i
  pub counted : s'.nb_bits ≡ n * 8
  pub start : position s' ≡ 0
  pub no_overflow : s'.overflow ≡ false
  pub readable : IsReadable s'
  pub sized : length s'.chars ≡ s'.buf_size

-- All `len` bytes are taken, or as many as a buffer holds that cannot be enlarged.
abbrev pub IsTaken : Realloc → SpeexBits → ℕ → ℕ → Type 0
IsTaken realloc s len n =
    (n ≡ len)
    ⊎ (s.buf_size < len) × (n ≡ s.buf_size) × ((s.owner ≡ false) ⊎ (realloc s.chars len ≡ none))

room_cases :
    (realloc : Realloc) (s : SpeexBits) (len : ℕ)
    → IsRealloc realloc
    → length s.chars ≡ s.buf_size
    → IsTaken realloc s len (read_room realloc s len).1
      × ((read_room realloc s len).1 ≤ (read_room realloc s len).0.buf_size)
      × (length (read_room realloc s len).0.chars ≡ (read_room realloc s len).0.buf_size)
unfolding read_room
room_cases realloc s len r sized = elim (Bool-cases (ltb s.buf_size len)) [
  | inr e ↦ rw e (inl refl, ground arith, sized)
  | inl e ↦ elim (Bool-cases s.owner) [
    | inr o ↦ rw (e, o) (inr (ground arith, refl, inl refl), omega arith, sized)
    | inl o ↦ elim (Option-cases (realloc s.chars len)) [
      | inl q ↦ rw (e, o, q) (inr (ground arith, refl, inr refl), omega arith, sized)
      | inr (tmp, q) ↦ rw (e, o, q) (inl refl, omega arith, r.size s.chars len tmp q)
    ]
  ]
]

-- speex_bits_read_from on a stream whose memory has its stated size, with at least len bytes of
-- input and an allocator that obeys realloc, returns a stream that is ready to be read from its
-- start and holds the first n bytes of the input, where n is len, or the buffer's size if that
-- is smaller and the buffer is borrowed or cannot be enlarged.
pub read_from_lem :
    (realloc : Realloc) (s : SpeexBits) (input : List ℕ) (len : ℕ)
    → IsRealloc realloc
    → length s.chars ≡ s.buf_size
    → len ≤ length input
    → (n : ℕ) × (s' : SpeexBits) × (read_from realloc s input len ≡ ok s')
      × IsTaken realloc s len n
      × IsLoaded input n s'
unfolding read_from
read_from_lem realloc s input len r sized enough =
    let (taken, inside, sized') = room_cases realloc s len r sized in
    let room = read_room realloc s len in
    let (chars, returns, c) =
      copy_loop-IsCopied room.1 0 room.1 0 room.0.chars input (omega arith) (omega arith)
        (omega arith) in
    (
      room.1,
      record room.0 {
        chars = chars;
        nb_bits = room.1 * 2 ^ 3;
        char_ptr = 0;
        bit_ptr = 0;
        overflow = false;
      },
      ground (arith, returns),
      taken,
      record {
        bytes = λ i h. ground (arith, c.copied i);
        counted = refl;
        start = omega arith;
        no_overflow = refl;
        readable = record { stored = omega (arith, c.same_length); aligned = omega arith };
        sized = c.same_length ∙ sized';
      },
    )
