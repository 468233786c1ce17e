-- ===== src/Bits/Transfer/Append.antt =====
-- `speex_bits_read_whole_bytes`: appending to the unread bits, and where it writes past its buffer.
use speex.Common.{ℕ, zero, suc, ◌+◌, ◌-◌, ◌*◌, ◌/◌, ◌%◌, ◌^◌, ◌≤◌, ◌<◌, ◌≡◌, refl, ap, ◌∙◌}
use speex.Common.{arith, false, List, ◌++◌, take, drop, length, set, length-set}
use speex.Common.{length-append, length-take, length-drop, get_or-append, get_or-take, get_or-drop}
use speex.Common.{ok, fault, load-ok, load-fault, store-ok, store-fault, inl}
use speex.Bits.{SpeexBits, Realloc}
use speex.Bits.View.{byte_at, position}
use speex.Bits.Transfer.{copy_loop, move_down, flush, append_room, read_whole_bytes}
use speex.Bits.Transfer.Copy.{copy_loop-IsCopied}
use native.Mathlib.Decide.{dec_lt}

-- The unread bytes of `s` stand at the start of `s'`.
pub record IsFlushed (s s' : SpeexBits) : Type 0 where
  pub same_length : length s'.chars ≡ length s.chars
  pub unread :
      (i : ℕ)
      → i + s.char_ptr < (s.nb_bits + 7) / 8
      → byte_at s'.chars i ≡ byte_at s.chars (i + s.char_ptr)
  pub fewer : s'.nb_bits + s.char_ptr * 8 ≡ s.nb_bits
  pub start : s'.char_ptr ≡ 0
  pub same_bit : s'.bit_ptr ≡ s.bit_ptr
  pub same_size : s'.buf_size ≡ s.buf_size

move_down-ok :
    (chars : List ℕ) (from count : ℕ)
    → from + count ≤ length chars
    → (moved : List ℕ) × (move_down chars from count ≡ ok moved)
      × (length moved ≡ length chars)
      × ((i : ℕ) → i < count → byte_at moved i ≡ byte_at chars (i + from))
unfolding move_down
move_down-ok chars from count h = (
  take count (drop from chars) ++ drop count chars,
  ground arith,
  omega (
    arith,
    length-append (take count (drop from chars)) (drop count chars),
    length-take count (drop from chars),
    length-drop from chars,
    length-drop count chars,
  ),
  λ i k. ground (
    arith,
    get_or-append (take count (drop from chars)) (drop count chars) i 0,
    length-take count (drop from chars),
    length-drop from chars,
    get_or-take count i (drop from chars) 0,
    get_or-drop from i chars 0,
    ap (λ (k : ℕ). byte_at chars k) (commute from i),
  ),
)
  where
    commute : (a b : ℕ) → a + b ≡ b + a
    commute a b = omega arith

flush-IsFlushed :
    (s : SpeexBits)
    → position s ≤ s.nb_bits
    → s.nb_bits ≤ length s.chars * 8
    → (s' : SpeexBits) × (flush s ≡ ok s') × IsFlushed s s'
unfolding flush
flush-IsFlushed s h inside = elim (dec_lt 0 s.char_ptr) [
  | yes p ↦
      let (chars, moves, same, shifted) =
        move_down-ok s.chars s.char_ptr ((s.nb_bits + 7) / 8 - s.char_ptr) (omega arith) in
      (
        record s { chars = chars; nb_bits = s.nb_bits - s.char_ptr * 2 ^ 3; char_ptr = 0 },
        ground (arith, moves),
        record {
          same_length = same;
          unread = λ i k. shifted i (omega arith);
          fewer = omega arith;
          start = refl;
          same_bit = refl;
          same_size = refl;
        },
      )
  | no p ↦ (
    record s { nb_bits = s.nb_bits - s.char_ptr * 2 ^ 3; char_ptr = 0 },
    ground arith,
    record {
      same_length = refl;
      unread = λ i k. ap (λ (j : ℕ). byte_at s.chars j) (omega arith);
      fewer = omega arith;
      start = refl;
      same_bit = refl;
      same_size = refl;
    },
  )
]

-- Copying more than fits is a fault, in the destination or before it in the source.
copy_loop-fault :
    (left i pos : ℕ) (dst src : List ℕ)
    → pos + i ≤ length dst
    → length dst < pos + i + left
    → copy_loop dst pos src i left ≡ fault
unfolding copy_loop
copy_loop-fault zero i pos dst src h k = absurd (omega arith)
copy_loop-fault (suc left) i pos dst src h k = elim (dec_lt i (length src)) [
  | no p ↦ rw (load-fault src i (omega arith))
  | yes p ↦ elim (dec_lt (pos + i) (length dst)) [
    | no q ↦ rw (load-ok src i 0 p, store-fault dst (pos + i) (byte_at src i) (omega arith))
    | yes q ↦
        rw (load-ok src i 0 p, store-ok dst (pos + i) (byte_at src i) q)
          (copy_loop-fault left (i + 1) pos (set dst (pos + i) (byte_at src i)) src
            (omega (arith, length-set dst (pos + i) (byte_at src i)))
            (omega (arith, length-set dst (pos + i) (byte_at src i))))
  ]
]

-- `s'` holds the unread whole bytes of `s` and then `n` bytes of the input. It counts as many bits
-- behind them as the partial last byte of `s` had.
pub record IsExtended (s : SpeexBits) (input : List ℕ) (n : ℕ) (s' : SpeexBits) : Type 0 where
  pub unread :
      (i : ℕ)
      → i + s.char_ptr < s.nb_bits / 8
      → byte_at s'.chars i ≡ byte_at s.chars (i + s.char_ptr)
  pub added : (i : ℕ) → i < n → byte_at s'.chars (s.nb_bits / 8 - s.char_ptr + i) ≡ byte_at input i
  pub counted : s'.nb_bits + s.char_ptr * 8 ≡ s.nb_bits + n * 8
  pub overhang : s'.nb_bits ≡ (s.nb_bits / 8 - s.char_ptr + n) * 8 + s.nb_bits % 8
  pub start : s'.char_ptr ≡ 0
  pub same_bit : s'.bit_ptr ≡ s.bit_ptr
  pub same_size : s'.buf_size ≡ s.buf_size

-- speex_bits_read_whole_bytes, where the new bytes fit, the memory has its stated size and the
-- cursor is within the data, returns a stream that starts with the unread bytes that are whole
-- and goes on with the n new bytes, in the same buffer size and with the bit cursor kept. The
-- first new byte takes the place of a partial last byte, whose bits are still counted: the count
-- is 8 for each of these bytes and the bits of the partial byte more.
pub read_whole_bytes_lem :
    (realloc : Realloc) (s : SpeexBits) (input : List ℕ) (n : ℕ)
    → length s.chars ≡ s.buf_size
    → position s ≤ s.nb_bits
    → n ≤ length input
    → (s.nb_bits + 7) / 8 + n ≤ s.buf_size
    → (s' : SpeexBits) × (read_whole_bytes realloc s input n ≡ ok s') × IsExtended s input n s'
unfolding read_whole_bytes append_room
read_whole_bytes_lem realloc s input n sized before enough room =
    let (t, flushes, f) = flush-IsFlushed s before (omega arith) in
    let (chars, copies, c) =
      copy_loop-IsCopied n 0 n (t.nb_bits / 8) t.chars input (omega arith) enough
        (omega (arith, f.same_length, f.fewer)) in
    (
      record t { chars = chars; nb_bits = t.nb_bits + n * 2 ^ 3 },
      ground (arith, flushes, copies),
      record {
        unread = λ i h. c.kept i (inl (omega (arith, f.fewer))) ∙ f.unread i (omega arith);
        added = λ i h.
            ap (λ (k : ℕ). byte_at chars (k + i)) (omega (arith, f.fewer))
            ∙ c.copied i (omega arith) h;
        counted = omega (arith, f.fewer);
        overhang = omega (arith, f.fewer);
        start = f.start;
        same_bit = f.same_bit;
        same_size = f.same_size;
      },
    )

-- speex_bits_read_whole_bytes on a borrowed buffer of the stated size, with the cursor and the
-- data within it, where the new bytes do not fit and a whole byte is unread, always accesses
-- memory out of bounds: the length is cut to the buffer's size, not to the room that is left.
pub read_whole_bytes-fault :
    (realloc : Realloc) (s : SpeexBits) (input : List ℕ) (n : ℕ)
    → length s.chars ≡ s.buf_size
    → position s ≤ s.nb_bits
    → s.nb_bits ≤ s.buf_size * 8
    → s.owner ≡ false
    → s.buf_size < (s.nb_bits + 7) / 8 + n
    → s.char_ptr < s.nb_bits / 8
    → read_whole_bytes realloc s input n ≡ fault
unfolding read_whole_bytes append_room
read_whole_bytes-fault realloc s input n sized before inside borrowed large unread =
    let (t, flushes, f) = flush-IsFlushed s before (omega arith) in
    let writes =
      copy_loop-fault s.buf_size 0 (t.nb_bits / 8) t.chars input
        (omega (arith, f.fewer, f.same_length)) (omega (arith, f.fewer, f.same_length)) in
    ground (arith, borrowed, flushes, writes)
