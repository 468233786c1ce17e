-- ===== src/Bits/Transfer.antt =====
-- libspeex/bits.c: bytes in and out of the bit-stream. `HTOLS` is the identity on single bytes.
pub mod Copy
pub mod ReadFrom
pub mod Write
pub mod Append
pub mod Whole
use speex.Common.{ℕ, zero, suc, ◌+◌, ◌-◌, ◌*◌, ◌/◌, ◌%◌, ◌^◌, min, List, ◌++◌, take, drop, length}
use speex.Common.{
  Bool, true, false, Option, none, some, Result, ok, fault, ◌>>=◌, load, store, ltb, leb,
}
use speex.Common.{◌==◌, if◌then◌else◌}
use speex.Bits.{SpeexBits, Realloc, insert_terminator}

-- for (;i<n;i++) dst[pos+i]=src[i]; with `n - i` rounds left
unfoldable pub copy_loop : List ℕ → ℕ → List ℕ → ℕ → ℕ → Result (List ℕ)
copy_loop dst pos src i zero = ok dst
copy_loop dst pos src i (suc left) = do
  c ← load src i
  dst' ← store dst (pos + i) c
  copy_loop dst' pos src (i + 1) left

-- The stream with its buffer enlarged if need be, and the number of bytes to take.
unfoldable pub read_room : Realloc → SpeexBits → ℕ → SpeexBits × ℕ
read_room realloc s nchars =
    if ltb s.buf_size nchars
    then (if s.owner
        then elim (realloc s.chars nchars) [
          | some tmp ↦ (record s { chars = tmp; buf_size = nchars }, nchars)
          | none ↦ (s, s.buf_size)
        ]
        else (s, s.buf_size))
    else (s, nchars)

unfoldable pub read_from : Realloc → SpeexBits → List ℕ → ℕ → Result SpeexBits
unfolding read_room copy_loop
read_from realloc s input len =
    let (s', nchars) = read_room realloc s len in
    do
      chars ← copy_loop s'.chars 0 input 0 nchars
      ok (record s' {
        chars = chars;
        nb_bits = nchars * 2 ^ 3;
        char_ptr = 0;
        bit_ptr = 0;
        overflow = false;
      })

-- memmove(chars, chars+from, count): the old bytes are moved down.
unfoldable pub move_down : List ℕ → ℕ → ℕ → Result (List ℕ)
move_down chars from count =
    if leb (from + count) (length chars)
    then ok (take count (drop from chars) ++ drop count chars)
    else fault

-- `nbBits` may not become negative, nor may the count of bytes moved; both are a `fault` here.
unfoldable pub flush : SpeexBits → Result SpeexBits
unfolding move_down
flush s =
    let nchars = (s.nb_bits + 7) / 2 ^ 3 in
    if ltb s.nb_bits (s.char_ptr * 2 ^ 3) then fault else (do
      chars ←
          if ltb 0 s.char_ptr
          then move_down s.chars s.char_ptr (nchars - s.char_ptr)
          else ok s.chars
      ok (record s { chars = chars; nb_bits = s.nb_bits - s.char_ptr * 2 ^ 3; char_ptr = 0 }))

-- The number of bytes to append is `count - deficit`; only an owner's that cannot be enlarged and
-- is full has `deficit` 1, where the C count is -1.
pub record Room : Type 0 where
  pub stream : SpeexBits
  pub count : ℕ
  pub deficit : ℕ

unfoldable pub append_room : Realloc → SpeexBits → ℕ → Room
append_room realloc s nchars =
    let whole = s.nb_bits / 2 ^ 3 in
    if ltb s.buf_size ((s.nb_bits + 7) / 2 ^ 3 + nchars)
    then (if s.owner
        then elim (realloc s.chars (whole + nchars + 1)) [
          | some tmp ↦ record {
            stream = record s { chars = tmp; buf_size = whole + nchars + 1 };
            count = nchars;
            deficit = 0;
          }
          | none ↦ record {
            stream = s;
            count = s.buf_size - whole - 1;
            deficit = whole + 1 - s.buf_size;
          }
        ]
        else record { stream = s; count = s.buf_size; deficit = 0 })
    else record { stream = s; count = nchars; deficit = 0 }

unfoldable pub read_whole_bytes : Realloc → SpeexBits → List ℕ → ℕ → Result SpeexBits
unfolding append_room flush copy_loop
read_whole_bytes realloc s input nbytes =
    let room = append_room realloc s nbytes in
    do
      s' ← flush room.stream
      chars ← copy_loop s'.chars (s'.nb_bits / 2 ^ 3) input 0 room.count
      ok (record s' {
        chars = chars;
        nb_bits = s'.nb_bits + room.count * 2 ^ 3 - room.deficit * 2 ^ 3;
      })

-- What a write returns: the number of bytes, the caller's memory, and the stream.
pub record Written : Type 0 where
  pub count : ℕ
  pub out : List ℕ
  pub stream : SpeexBits

unfoldable pub write : ℕ → Realloc → SpeexBits → List ℕ → ℕ → Result Written
unfolding insert_terminator copy_loop
write fuel realloc s out max_nbytes = do
  t ← insert_terminator fuel realloc s
  let s' = record t { bit_ptr = s.bit_ptr; char_ptr = s.char_ptr; nb_bits = s.nb_bits }
  let n = min max_nbytes ((s'.nb_bits + 7) / 2 ^ 3)
  out' ← copy_loop out 0 s'.chars 0 n
  ok (record { count = n; out = out'; stream = s' })

unfoldable pub write_whole_bytes : SpeexBits → List ℕ → ℕ → Result Written
unfolding copy_loop
write_whole_bytes s out max_nbytes =
    let n = min max_nbytes (s.nb_bits / 2 ^ 3) in
    do
      out' ← copy_loop out 0 s.chars 0 n
      first ← if ltb 0 s.bit_ptr then load s.chars n else ok 0
      chars ← store s.chars 0 first
      ok (record {
        count = n;
        out = out';
        stream = record s { chars = chars; char_ptr = 0; nb_bits = s.nb_bits % 2 ^ 3 };
      })
