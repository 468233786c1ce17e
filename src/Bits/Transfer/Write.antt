-- ===== src/Bits/Transfer/Write.antt =====
-- `speex_bits_write`, and a packet's way from the packing side to the unpacking side.
use speex.Common.{ℕ, ◌+◌, ◌*◌, ◌/◌, ◌≤◌, ◌<◌, ◌≡◌, refl, ◌∙◌}
use speex.Common.{arith, true, List, [], ◌∷◌, length, Result, ok, ◌>>=◌, min, All, inl, inr}
use speex.Bits.{SpeexBits, Realloc, nbytes}
use speex.Bits.View.{byte_at, bit_at, position, IsValid, IsBlank}
use speex.Bits.Pack.{bits_at-local}
use speex.Bits.Fresh.{IsFresh}
use speex.Bits.Unpack.{moved}
use speex.Bits.RoundTrip.{Field, IsNarrow, Grows, Stored, pack_all, pack_all-IsWritten}
use speex.Bits.RoundTrip.{unpack_all, unpack_all-eq, widths, values, total}
use speex.Bits.Terminator.{insert_terminator_lem}
use speex.Bits.Transfer.{read_from, Written, write}
use speex.Bits.Transfer.Copy.{IsCopied-start, copy_loop-IsCopied}
use speex.Bits.Transfer.ReadFrom.{IsTaken, read_from_lem}

-- `w` is what a write of `s` with at most `max` bytes gives: the bits of `s` in the caller's memory.
pub record IsSent (s : SpeexBits) (out : List ℕ) (max : ℕ) (w : Written) : Type 0 where
  pub counted : w.count ≡ min max (nbytes s)
  pub same_length : length w.out ≡ length out
  pub sent : (p : ℕ) → p < w.count * 8 → p < s.nb_bits → bit_at w.out p ≡ bit_at s.chars p
  pub beyond : (i : ℕ) → w.count ≤ i → byte_at w.out i ≡ byte_at out i
  pub same_position : position w.stream ≡ position s
  pub same_count : w.stream.nb_bits ≡ s.nb_bits

bit_at_byte :
    (a b : List ℕ) (p : ℕ) → byte_at a (p / 8) ≡ byte_at b (p / 8) → bit_at a p ≡ bit_at b p
unfolding bit_at
bit_at_byte a b p h = rw h

-- speex_bits_write on a valid, blank, owned stream whose cursor is at its end, with an allocator
-- that obeys realloc and never fails and room for the bytes in the caller's memory, returns
-- min(max, nbytes) bytes that carry the stream's bits in order, leaves the caller's memory
-- beyond them alone, and keeps cursor and bit count.
pub write_lem :
    (realloc : Realloc) (s : SpeexBits) (out : List ℕ) (max : ℕ)
    → Grows realloc
    → IsValid s
    → IsBlank s
    → s.owner ≡ true
    → s.nb_bits ≡ position s
    → min max (nbytes s) ≤ length out
    → (w : Written) × (write 8 realloc s out max ≡ ok w) × IsSent s out max w
unfolding write nbytes
write_lem realloc s out max g v b o full room =
    let (t, ends, aligned, p) = insert_terminator_lem realloc s g v b o in
    let n = min max ((s.nb_bits + 7) / 8) in
    let (out', copies, c) =
      copy_loop-IsCopied n 0 n 0 out t.chars (omega arith)
        (omega (arith, p.valid.sized, p.valid.inside, p.moved, v.aligned)) (omega arith) in
    (
      record {
        count = n;
        out = out';
        stream = record t { bit_ptr = s.bit_ptr; char_ptr = s.char_ptr; nb_bits = s.nb_bits };
      },
      ground (arith, ends, copies),
      record {
        counted = refl;
        same_length = c.same_length;
        sent = λ q h k.
            bit_at_byte out' t.chars q (IsCopied-start out t.chars out' n c (q / 8) (omega arith))
            ∙ p.before q (omega arith);
        beyond = λ i h. c.kept i (inr (omega arith));
        same_position = refl;
        same_count = refl;
      },
    )

Stored-local :
    (fs : List Field) (a b : List ℕ) (p : ℕ)
    → ((q : ℕ) → q < p + total fs → bit_at a q ≡ bit_at b q)
    → Stored b p fs
    → Stored a p fs
Stored-local [] a b p h st = tt
Stored-local (f ∷ fs) a b p h (here, later) = (
  bits_at-local a b p f.width (λ q k. h q (omega arith)) ∙ here,
  Stored-local fs a b (p + f.width) (λ q k. h q (omega arith)) later,
)

all_taken :
    (realloc : Realloc) (s : SpeexBits) (len n : ℕ)
    → Grows realloc
    → s.owner ≡ true
    → IsTaken realloc s len n
    → n ≡ len
all_taken realloc s len n g o (inl e) = e
all_taken realloc s len n g o (inr (_, _, inl borrowed)) = cc
all_taken realloc s len n g o (inr (_, _, inr failed)) = absurd (g.always s.chars len failed)

-- The sender packs the fields and writes the packet; the receiver reads it and unpacks.
pub transmit : Realloc → SpeexBits → List Field → List ℕ → SpeexBits → Result (List ℕ × SpeexBits)
transmit realloc s fs out receiver = do
  s' ← pack_all realloc s fs
  w ← write 8 realloc s' out (nbytes s')
  r ← read_from realloc receiver w.out w.count
  unpack_all r (widths fs)

-- A packet's whole way. From a fresh stream of its own, with an allocator that obeys realloc and
-- never fails, pack any fields of at most 32 bits, write the packet to a memory that is large
-- enough, read it into any owned stream whose memory has its stated size, and unpack the same
-- widths: every call returns, and the values are the packed ones, each reduced to its width.
pub transmit_lem :
    (realloc : Realloc) (s : SpeexBits) (fs : List Field) (out : List ℕ) (receiver : SpeexBits)
    → Grows realloc
    → All IsNarrow fs
    → IsFresh s
    → (total fs + 7) / 8 ≤ length out
    → length receiver.chars ≡ receiver.buf_size
    → receiver.owner ≡ true
    → (r : SpeexBits) × (transmit realloc s fs out receiver ≡ ok (values fs, r))
unfolding transmit
transmit_lem realloc s fs out receiver g few fresh room sized owned =
    let (s', packs, written) =
      pack_all-IsWritten realloc g fs s few fresh.valid fresh.blank fresh.owned in
    let all = total fs in
    let count : s'.nb_bits ≡ all = omega (arith, written.counted, fresh.empty) in
    let (w, writes, sent) =
      write_lem realloc s' out (nbytes s') g written.valid written.blank
        (written.same_owner ∙ fresh.owned) (omega (arith, written.moves, fresh.start, count))
        (unfold nbytes in omega arith) in
    let size : w.count ≡ (all + 7) / 8 = unfold nbytes in omega (arith, sent.counted) in
    let (n, r, reads, taken, loaded) =
      read_from_lem realloc receiver w.out w.count g.lawful sized
        (omega (arith, sent.same_length)) in
    let whole : n ≡ w.count = all_taken realloc receiver w.count n g owned taken in
    let stored : Stored r.chars (position r) fs = rw loaded.start (
      Stored-local fs r.chars s'.chars 0
        (λ q h.
          bit_at_byte r.chars w.out q (loaded.bytes (q / 8) (omega arith))
          ∙ sent.sent q (omega arith) (omega arith))
        (rw fresh.start at written.stored)) in
    (
      moved r all,
      rw (packs, writes, reads)
          (unpack_all-eq fs r few loaded.readable loaded.no_overflow
            (omega (arith, loaded.start, loaded.counted)) stored),
    )
