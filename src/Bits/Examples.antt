-- ===== src/Bits/Examples.antt =====
-- Runs of bits.c on small streams, and the theorems at inputs that meet their hypotheses.
use speex.Common.{ℕ, zero, suc, ◌-◌, ◌/◌, ◌%◌, ◌<◌, ◌≡◌, refl}
use speex.Common.{arith, Bool, true, false, List, [], ◌∷◌, ◌++◌, length, ok, fault, diverges}
use speex.Common.{some, take, replicate, get_or-append, get_or-take, length-take}
use speex.Common.{length-append, length-replicate, if◌then◌else◌, ◌⊎◌, ◌>>=◌}
use speex.Common.{signed32, ◌^◌}
use speex.Bits.{SpeexBits, Realloc, init, pack, unpack_unsigned, unpack_signed, peek_unsigned}
use speex.Bits.{advance, rewind, insert_terminator, nbytes}
use speex.Bits.View.{byte_at, IsValid, IsBlank}
use speex.Bits.Pack.{IsPacked}
use speex.Bits.Reserve.{IsRealloc, IsStuck, pack_lem}
use speex.Bits.Fresh.{IsFresh, init-IsFresh}
use speex.Bits.Unpack.{IsReadable, overruns, overflowed, moved}
use speex.Bits.Read.{
  peeked, signed_value, unpack_unsigned-eq, peek_unsigned-advance, unpack_signed_lem,
}
use speex.Bits.RoundTrip.{Field, Grows, pack_all, unpack_all}
use speex.Bits.RoundTrip.{unpack_all-pack_all}
use speex.Bits.Terminator.{insert_terminator_lem, IsCornered, insert_terminator-diverges}
use speex.Bits.Transfer.{read_from, read_whole_bytes, Written, write, write_whole_bytes}
use speex.Bits.Transfer.ReadFrom.{IsTaken, IsLoaded, read_from_lem}
use speex.Bits.Transfer.Write.{IsSent, write_lem, transmit, transmit_lem}
use speex.Bits.Transfer.Append.{IsExtended, read_whole_bytes_lem, read_whole_bytes-fault}
use speex.Bits.Transfer.Whole.{IsDrained, write_whole_bytes_lem, write-not-IsBlank}

-- An allocator that always succeeds and fills the new bytes with zeros.
abbrev resize : Realloc
resize chars n = some (take n (chars ++ replicate n 0))

byte_at-zeros : (n i : ℕ) → byte_at (replicate n 0) i ≡ 0
byte_at-zeros zero i = refl
byte_at-zeros (suc n) zero = refl
byte_at-zeros (suc n) (suc i) = byte_at-zeros n i

take-bytes :
    (n : ℕ) (xs : List ℕ) → ((i : ℕ) → byte_at xs i < 256) → (i : ℕ) → byte_at (take n xs) i < 256
take-bytes zero xs h i = omega arith
take-bytes (suc n) [] h i = omega arith
take-bytes (suc n) (x ∷ xs) h zero = h 0
take-bytes (suc n) (x ∷ xs) h (suc i) = take-bytes n xs (λ k. h (suc k)) i

resize-IsRealloc : IsRealloc resize
resize-IsRealloc = record {
  size = λ chars n block e. ground (
    arith,
    length-take n (chars ++ replicate n 0),
    length-append chars (replicate n 0),
    length-replicate {A = ℕ} n 0,
  );
  same = λ chars n block e i h k. ground (
    arith,
    get_or-take n i (chars ++ replicate n 0) 0 k,
    get_or-append chars (replicate n 0) i 0,
  );
  bytes = λ chars n block e h i. ground (
    arith,
    take-bytes n (chars ++ replicate n 0)
        (λ k.
          ground (
            arith,
            get_or-append chars (replicate n 0) k 0,
            h k,
            byte_at-zeros n (k - length chars),
          ))
        i,
  );
}

resize-Grows : Grows resize
resize-Grows = record { lawful = resize-IsRealloc; always = λ chars n e. cc }

-- A stream of `n` zero bytes with the cursor at bit `p`.
abbrev stream : Bool → ℕ → ℕ → SpeexBits
stream own n p = record {
  chars = replicate n 0;
  nb_bits = p;
  char_ptr = p / 8;
  bit_ptr = p % 8;
  owner = own;
  overflow = false;
  buf_size = n;
}

stream-IsValid : (own : Bool) (n p : ℕ) → p / 8 < n → IsValid (stream own n p)
stream-IsValid own n p h = record {
  sized = length-replicate {A = ℕ} n 0;
  inside = h;
  aligned = omega arith;
  bytes = λ i. omega (arith, byte_at-zeros n i);
}

abbrev own : SpeexBits
own = stream true 4 5

own-IsValid : IsValid own
own-IsValid = stream-IsValid true 4 5 (omega arith)

pack_lem_example :
    (IsStuck resize own 7 × (pack resize own 0x55 7 ≡ ok own))
    ⊎ ((s' : SpeexBits) × (pack resize own 0x55 7 ≡ ok s') × IsPacked own 7 0x55 s')
pack_lem_example = pack_lem resize own 0x55 7 resize-IsRealloc own-IsValid refl (omega arith)

abbrev two_fields : List Field
two_fields = record { value = 14; width = 5 } ∷ record { value = 0x19; width = 4 } ∷ []

abbrev fresh : SpeexBits
fresh = stream true 4 0

fresh-IsFresh : IsFresh fresh
fresh-IsFresh = record {
  valid = stream-IsValid true 4 0 (omega arith);
  blank = refl;
  owned = refl;
  start = refl;
  empty = refl;
}

unpack_all-pack_all_example :
    (s' : SpeexBits) × (pack_all resize fresh two_fields ≡ ok s')
    × (s'.nb_bits ≡ 9)
    × (unpack_all (rewind s') (5 ∷ 4 ∷ []) ≡ ok (14 ∷ 9 ∷ [], moved (rewind s') 9))
unpack_all-pack_all_example =
    unpack_all-pack_all resize fresh two_fields resize-Grows (omega arith) fresh-IsFresh

init-IsFresh_example :
    (s' : SpeexBits) × (init (some (replicate 2000 0)) own ≡ ok (some s')) × IsFresh s'
init-IsFresh_example =
    init-IsFresh own (replicate 2000 0) (length-replicate {A = ℕ} 2000 0)
      (λ i. omega (arith, byte_at-zeros 2000 i))

-- Two received bytes, three bits of them read.
abbrev received : SpeexBits
received = record {
  chars = 0xa5 ∷ 0x3c ∷ [];
  nb_bits = 16;
  char_ptr = 0;
  bit_ptr = 3;
  owner = false;
  overflow = false;
  buf_size = 2;
}

received-IsReadable : IsReadable received
received-IsReadable = omega arith

unpack_twice :
    (unpack_unsigned received 9 ≡ ok (0x53, moved received 9))
    × (unpack_unsigned received 14 ≡ ok (0, overflowed received))
unfolding unpack_unsigned
unpack_twice = (refl, refl)

unpack_unsigned-eq_example :
    unpack_unsigned received 14
    ≡ ok (
        if overruns received 14
        then (0, overflowed received)
        else (peeked received 14, moved received 14))
unpack_unsigned-eq_example = unpack_unsigned-eq received 14 received-IsReadable (omega arith)

peek_unsigned-advance_example :
    (peek_unsigned received 9 >>= λ (d, s'). ok (d, advance s' 9)) ≡ unpack_unsigned received 9
peek_unsigned-advance_example = peek_unsigned-advance received 9 received-IsReadable (omega arith)

unpack_signed_lem_example :
    (w : ℕ) × (unpack_signed received 4 ≡ ok (w, moved received 4))
    × (signed32 w ≡ signed_value 4 (peeked received 4))
unpack_signed_lem_example = unpack_signed_lem received 3 received-IsReadable (omega arith) refl

insert_terminator_lem_example :
    (s' : SpeexBits) × (insert_terminator 8 resize own ≡ ok s')
    × (s'.bit_ptr ≡ 0)
    × IsPacked own 3 3 s'
insert_terminator_lem_example = insert_terminator_lem resize own resize-Grows own-IsValid refl refl

-- One byte of the caller's, three bits of it written.
abbrev cornered : SpeexBits
cornered = stream false 1 3

cornered-IsCornered : IsCornered cornered
cornered-IsCornered = record {
  valid = stream-IsValid false 1 3 (omega arith);
  blank = refl;
  borrowed = refl;
  last = refl;
  inner = omega arith;
}

insert_terminator-diverges_example : insert_terminator 100 resize cornered ≡ diverges
insert_terminator-diverges_example =
    insert_terminator-diverges resize 100 cornered resize-IsRealloc cornered-IsCornered

abbrev packet : List ℕ
packet = 1 ∷ 2 ∷ 3 ∷ []

read_from_lem_example :
    (n : ℕ) × (s' : SpeexBits) × (read_from resize received packet 3 ≡ ok s')
    × IsTaken resize received 3 n
    × IsLoaded packet n s'
read_from_lem_example = read_from_lem resize received packet 3 resize-IsRealloc refl (omega arith)

write_lem_example : (w : Written) × (write 8 resize own packet 2 ≡ ok w) × IsSent own packet 2 w
write_lem_example =
    write_lem resize own packet 2 resize-Grows own-IsValid refl refl refl
      (unfold nbytes in omega arith)

transmit_lem_example :
    (r : SpeexBits) × (transmit resize fresh two_fields packet own ≡ ok (14 ∷ 9 ∷ [], r))
transmit_lem_example =
    transmit_lem resize fresh two_fields packet own resize-Grows (omega arith) fresh-IsFresh
      (omega arith) refl refl

-- A four-byte buffer of the caller's with an unread byte and five bits.
abbrev half_full : SpeexBits
half_full = record {
  chars = 7 ∷ 8 ∷ 9 ∷ 0 ∷ [];
  nb_bits = 21;
  char_ptr = 1;
  bit_ptr = 0;
  owner = false;
  overflow = false;
  buf_size = 4;
}

read_whole_bytes_lem_example :
    (s' : SpeexBits) × (read_whole_bytes resize half_full packet 1 ≡ ok s')
    × IsExtended half_full packet 1 s'
read_whole_bytes_lem_example =
    read_whole_bytes_lem resize half_full packet 1 refl (omega arith) (omega arith) (omega arith)

read_whole_bytes-fault_example : read_whole_bytes resize half_full packet 3 ≡ fault
read_whole_bytes-fault_example =
    read_whole_bytes-fault resize half_full packet 3 refl (omega arith) (omega arith) refl
      (omega arith) (omega arith)

abbrev streaming : SpeexBits
streaming = stream true 4 13

write_whole_bytes_lem_example :
    (w : Written) × (write_whole_bytes streaming packet 3 ≡ ok w) × IsDrained streaming w
write_whole_bytes_lem_example =
    write_whole_bytes_lem streaming packet 3 (stream-IsValid true 4 13 (omega arith)) refl refl
      (omega arith) (omega arith)

abbrev after_write : Written
after_write = record {
  count = 1;
  out = 3 ∷ 2 ∷ 3 ∷ [];
  stream = record own { chars = 3 ∷ 0 ∷ 0 ∷ 0 ∷ [] };
}

own_written : write 8 resize own packet 2 ≡ ok after_write
unfolding write
own_written = refl

write-not-IsBlank_example :
    (byte_at after_write.stream.chars after_write.stream.char_ptr
        % 2 ^ (8 - after_write.stream.bit_ptr)
      ≡ 2 ^ (7 - own.bit_ptr) - 1)
    × (after_write.stream.bit_ptr ≡ own.bit_ptr)
    × (after_write.stream.char_ptr ≡ own.char_ptr)
    × ¬ IsBlank after_write.stream
write-not-IsBlank_example =
    write-not-IsBlank resize own packet 2 after_write resize-Grows own-IsValid refl refl
      (omega arith) (omega arith) own_written
