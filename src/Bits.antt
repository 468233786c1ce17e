-- ===== src/Bits.antt =====
-- libspeex/bits.c: the bit-stream that every encoder writes and every decoder reads.
-- `chars` is the memory behind the pointer, one number below 256 for each byte (BYTES_PER_CHAR is 1);
-- an access outside it is a `fault`. `unsigned int` values are numbers below 2 ^ 32. The counters are
-- `int`s that stay far below 2 ^ 31 and are plain numbers. `realloc` is the C library's, a parameter.
pub mod Pack
pub mod Reserve
pub mod Unpack
pub mod Read
pub mod Fresh
pub mod RoundTrip
pub mod Terminator
pub mod Transfer
mod Examples
pub mod View
pub mod Field
pub mod Consume
use speex.Common.{
  ℕ, zero, suc, ◌+◌, ◌-◌, ◌*◌, ◌/◌, ◌%◌, ◌^◌, min, bit_or, List, [], Option, none, some,
}
use speex.Common.{
  Bool, true, false, ◌||◌, Result, ok, fault, diverges, ◌>>=◌, load, store, ltb, ◌==◌,
}
use speex.Common.{if◌then◌else◌, length, ℤ, sub_ℕ, pos, negsuc}

-- `SpeexBits`, without its reserved fields
pub record SpeexBits : Type 0 where
  pub chars : List ℕ
  pub nb_bits : ℕ
  pub char_ptr : ℕ
  pub bit_ptr : ℕ
  pub owner : Bool
  pub overflow : Bool
  pub buf_size : ℕ

-- `realloc(ptr, size)`: the new block, or `none` for NULL, which leaves the old block alone.
abbrev pub Realloc : Type 0
Realloc = List ℕ → ℕ → Option (List ℕ)

abbrev pub max_chars_per_frame : ℕ
max_chars_per_frame = 2000

unfoldable pub reset : SpeexBits → Result SpeexBits
reset s = do
  chars ← store s.chars 0 0
  ok (record s { chars = chars; nb_bits = 0; char_ptr = 0; bit_ptr = 0; overflow = false })

-- `block` is what `speex_alloc(MAX_CHARS_PER_FRAME)` returned; on NULL only `chars` is written.
unfoldable pub init : Option (List ℕ) → SpeexBits → Result (Option SpeexBits)
unfolding reset
init none s = ok none
init (some block) s = do
  s' ← reset (record s { chars = block; buf_size = max_chars_per_frame; owner = true })
  ok (some s')

unfoldable pub init_buffer : List ℕ → ℕ → SpeexBits → Result SpeexBits
unfolding reset
init_buffer buff buf_size s = reset (record s { chars = buff; buf_size = buf_size; owner = false })

unfoldable pub set_bit_buffer : List ℕ → ℕ → SpeexBits
set_bit_buffer buff buf_size = record {
  chars = buff;
  nb_bits = buf_size * 2 ^ 3;
  char_ptr = 0;
  bit_ptr = 0;
  owner = false;
  overflow = false;
  buf_size = buf_size;
}

-- Freed memory is an empty block.
unfoldable pub destroy : SpeexBits → SpeexBits
destroy s = if s.owner then record s { chars = [] } else s

unfoldable pub rewind : SpeexBits → SpeexBits
rewind s = record s { char_ptr = 0; bit_ptr = 0; overflow = false }

-- Room for `bits` more bits and the byte behind them; `none` is "not packing".
unfoldable pub reserve : Realloc → SpeexBits → ℕ → Option SpeexBits
reserve realloc s bits =
    if ltb (s.char_ptr + (bits + s.bit_ptr) / 2 ^ 3) s.buf_size
    then some s
    else if s.owner
    then (let new_nchars = (s.buf_size + 5) * 3 / 2 in
        elim (realloc s.chars new_nchars) [
          | none ↦ none
          | some tmp ↦ some (record s { chars = tmp; buf_size = new_nchars })
        ])
    else none

-- One round of the loop of `speex_bits_pack`.
unfoldable pub pack_bit : SpeexBits → ℕ → Result SpeexBits
pack_bit s bit = do
  c ← load s.chars s.char_ptr
  chars ← store s.chars s.char_ptr (bit_or c (bit * 2 ^ (7 - s.bit_ptr)) % 2 ^ 8)
  if s.bit_ptr + 1 == 8
      then (do
        cleared ← store chars (s.char_ptr + 1) 0
        ok (record s {
          chars = cleared;
          bit_ptr = 0;
          char_ptr = s.char_ptr + 1;
          nb_bits = s.nb_bits + 1;
        }))
      else ok (record s { chars = chars; bit_ptr = s.bit_ptr + 1; nb_bits = s.nb_bits + 1 })

-- `suc n` bits left: `bit = (d>>(nbBits-1))&1`
unfoldable pub pack_loop : SpeexBits → ℕ → ℕ → Result SpeexBits
unfolding pack_bit
pack_loop s d zero = ok s
pack_loop s d (suc n) = do s' ← pack_bit s (d / 2 ^ n % 2); pack_loop s' d n

unfoldable pub pack : Realloc → SpeexBits → ℕ → ℕ → Result SpeexBits
unfolding reserve pack_loop
pack realloc s d n = elim (reserve realloc s n) [ none ↦ ok s | some s' ↦ pack_loop s' d n ]

-- `while (bits->bitPtr) speex_bits_pack(bits, 1, 1)`, on fuel
unfoldable pub terminate_loop : ℕ → Realloc → SpeexBits → Result SpeexBits
unfolding pack
terminate_loop zero realloc s = if s.bit_ptr == 0 then ok s else diverges
terminate_loop (suc fuel) realloc s = elim (s.bit_ptr == 0) [
  | true ↦ ok s
  | false ↦ do s' ← pack realloc s 1 1; terminate_loop fuel realloc s'
]

unfoldable pub insert_terminator : ℕ → Realloc → SpeexBits → Result SpeexBits
unfolding terminate_loop
insert_terminator fuel realloc s =
    if s.bit_ptr == 0
    then terminate_loop fuel realloc s
    else (do s' ← pack realloc s 0 1; terminate_loop fuel realloc s')

-- Sets the flag when `n` bits from the cursor go past the end of the data.
unfoldable pub check_overflow : SpeexBits → ℕ → SpeexBits
check_overflow s n =
    if ltb s.nb_bits (s.char_ptr * 2 ^ 3 + s.bit_ptr + n) then record s { overflow = true } else s

-- `(chars[charPtr]>>(BITS_PER_CHAR-1 - bitPtr))&1`
unfoldable pub current_bit : SpeexBits → Result ℕ
current_bit s = do c ← load s.chars s.char_ptr; ok (c / 2 ^ (7 - s.bit_ptr) % 2)

unfoldable pub next_position : SpeexBits → SpeexBits
next_position s =
    if s.bit_ptr + 1 == 8
    then record s { bit_ptr = 0; char_ptr = s.char_ptr + 1 }
    else record s { bit_ptr = s.bit_ptr + 1 }

unfoldable pub unpack_loop : SpeexBits → ℕ → ℕ → Result (ℕ × SpeexBits)
unfolding current_bit next_position
unpack_loop s d zero = ok (d, s)
unpack_loop s d (suc n) = do
  bit ← current_bit s
  unpack_loop (next_position s) (bit_or (d * 2 % 2 ^ 32) bit) n

unfoldable pub unpack_unsigned : SpeexBits → ℕ → Result (ℕ × SpeexBits)
unfolding check_overflow unpack_loop
unpack_unsigned s n =
    let s' = check_overflow s n in if s'.overflow then ok (0, s') else unpack_loop s' 0 n

-- The result is the bit pattern of the `int` returned; `n` is 1 to 31, as the shifts need.
unfoldable pub unpack_signed : SpeexBits → ℕ → Result (ℕ × SpeexBits)
unfolding unpack_unsigned
unpack_signed s n = do
  (d, s') ← unpack_unsigned s n
  if d / 2 ^ (n - 1) == 0 then ok (d, s') else ok (bit_or ((2 ^ 32 - 1) * 2 ^ n % 2 ^ 32) d, s')

-- The cursor of the loop is a copy: only the overflow flag is kept.
unfoldable pub peek_unsigned : SpeexBits → ℕ → Result (ℕ × SpeexBits)
unfolding check_overflow unpack_loop
peek_unsigned s n =
    let s' = check_overflow s n in
    if s'.overflow then ok (0, s') else (do (d, _) ← unpack_loop s' 0 n; ok (d, s'))

unfoldable pub peek : SpeexBits → Result (ℕ × SpeexBits)
unfolding check_overflow current_bit
peek s =
    let s' = check_overflow s 1 in
    if s'.overflow then ok (0, s') else (do bit ← current_bit s'; ok (bit, s'))

unfoldable pub advance : SpeexBits → ℕ → SpeexBits
advance s n =
    if ltb s.nb_bits (s.char_ptr * 2 ^ 3 + s.bit_ptr + n) || s.overflow
    then record s { overflow = true }
    else record s {
      char_ptr = s.char_ptr + (s.bit_ptr + n) / 2 ^ 3;
      bit_ptr = (s.bit_ptr + n) % 2 ^ 3;
    }

-- `speex_bits_advance` of an int that may be negative; a cursor before the memory is a fault.
unfoldable pub advance_int : SpeexBits → ℤ → Result SpeexBits
unfolding advance
advance_int s (pos n) = ok (advance s n)
advance_int s (negsuc n) =
    let place = s.char_ptr * 2 ^ 3 + s.bit_ptr in
    if ltb (s.nb_bits + suc n) place || s.overflow
    then ok (record s { overflow = true })
    else if ltb n place
    then ok (record s { char_ptr = (place - suc n) / 2 ^ 3; bit_ptr = (place - suc n) % 2 ^ 3 })
    else fault

unfoldable pub remaining : SpeexBits → ℤ
remaining s = if s.overflow then negsuc 0 else sub_ℕ s.nb_bits (s.char_ptr * 2 ^ 3 + s.bit_ptr)

unfoldable pub nbytes : SpeexBits → ℕ
nbytes s = (s.nb_bits + 7) / 2 ^ 3
