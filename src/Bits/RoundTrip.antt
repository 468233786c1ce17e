-- ===== src/Bits/RoundTrip.antt =====
-- Fields packed one after the other, read back from the start of the stream.
use speex.Common.{ℕ, ◌+◌, ◌%◌, ◌^◌, ◌≤◌, ◌<◌, ◌≡◌, ◌≢◌, refl, ◌∙◌}
use speex.Common.{arith, true, false, List, [], ◌∷◌, Result, ok, ◌>>=◌}
use speex.Common.{inl, inr, none, All}
use speex.Bits.{SpeexBits, Realloc, pack, unpack_unsigned, rewind}
use speex.Bits.View.{bit_at, bits_at, position, IsValid, IsBlank}
use speex.Bits.Pack.{IsPacked, bits_at-local}
use speex.Bits.Reserve.{IsRealloc, pack_lem}
use speex.Bits.Fresh.{IsFresh}
use speex.Bits.Unpack.{IsReadable, overruns, moved}
use speex.Bits.Read.{unpack_unsigned-eq}

-- A value and the number of bits that it is written in.
pub record Field : Type 0 where
  pub value : ℕ
  pub width : ℕ

-- Calls of `speex_bits_pack`, one for each field.
pub pack_all : Realloc → SpeexBits → List Field → Result SpeexBits
pack_all realloc s [] = ok s
pack_all realloc s (f ∷ fs) = do s' ← pack realloc s f.value f.width; pack_all realloc s' fs

-- Calls of `speex_bits_unpack_unsigned`, one for each width.
pub unpack_all : SpeexBits → List ℕ → Result (List ℕ × SpeexBits)
unpack_all s [] = ok ([], s)
unpack_all s (n ∷ ns) = do
  (v, s') ← unpack_unsigned s n
  (vs, s'') ← unpack_all s' ns
  ok (v ∷ vs, s'')

abbrev pub widths : List Field → List ℕ
widths [] = []
widths (f ∷ fs) = f.width ∷ widths fs

abbrev pub values : List Field → List ℕ
values [] = []
values (f ∷ fs) = f.value % 2 ^ f.width ∷ values fs

abbrev pub total : List Field → ℕ
total [] = 0
total (f ∷ fs) = f.width + total fs

abbrev pub IsNarrow : Field → Type 0
IsNarrow f = f.width ≤ 32

-- The fields stand in the memory from bit `p` on.
abbrev pub Stored : List ℕ → ℕ → List Field → Type 0
Stored chars p [] = Unit
Stored chars p (f ∷ fs) =
    (bits_at chars p f.width ≡ f.value % 2 ^ f.width) × Stored chars (p + f.width) fs

-- A buffer of the stream's own that `realloc` always enlarges.
pub record Grows (realloc : Realloc) : Type 0 where
  pub lawful : IsRealloc realloc
  pub always : (chars : List ℕ) (n : ℕ) → realloc chars n ≢ none

pub record IsWritten (s : SpeexBits) (fs : List Field) (s' : SpeexBits) : Type 0 where
  pub before : (p : ℕ) → p < position s → bit_at s'.chars p ≡ bit_at s.chars p
  pub stored : Stored s'.chars (position s) fs
  pub moves : position s' ≡ position s + total fs
  pub counted : s'.nb_bits ≡ s.nb_bits + total fs
  pub same_overflow : s'.overflow ≡ s.overflow
  pub same_owner : s'.owner ≡ s.owner
  pub valid : IsValid s'
  pub blank : IsBlank s'

module _ (realloc : Realloc) (g : Grows realloc) where
  pub pack_grows :
      (s : SpeexBits) (d n : ℕ)
      → IsValid s
      → IsBlank s
      → s.owner ≡ true
      → n ≤ 32
      → (s' : SpeexBits) × (pack realloc s d n ≡ ok s') × IsPacked s n (d % 2 ^ n) s'
  pack_grows s d n v b o few = elim (pack_lem realloc s d n g.lawful v b few) [
    | inr packed ↦ packed
    | inl (stuck, e) ↦
        absurd (elim stuck.fixed [ inl not_owner ↦ cc | inr failed ↦ g.always s.chars _ failed ])
  ]

  pub pack_all-IsWritten :
      (fs : List Field) (s : SpeexBits)
      → All IsNarrow fs
      → IsValid s
      → IsBlank s
      → s.owner ≡ true
      → (s' : SpeexBits) × (pack_all realloc s fs ≡ ok s') × IsWritten s fs s'
  unfolding pack_all
  pack_all-IsWritten [] s few v b o = (
    s,
    refl,
    record {
      before = λ p h. refl;
      stored = tt;
      moves = omega arith;
      counted = omega arith;
      same_overflow = refl;
      same_owner = refl;
      valid = v;
      blank = b;
    },
  )
  pack_all-IsWritten (f ∷ fs) s (few, more) v b o =
      let (s', e, p) = pack_grows s f.value f.width v b o few in
      let (s'', e', w) = pack_all-IsWritten fs s' more p.valid p.blank (p.same_owner ∙ o) in
      (
        s'',
        rw (e, e'),
        record {
          before = λ q h. w.before q (omega (arith, p.moved)) ∙ p.before q h;
          stored = (
            bits_at-local s''.chars s'.chars (position s) f.width
                  (λ q h. w.before q (omega (arith, p.moved)))
                ∙ p.written,
            rw (← p.moved) w.stored,
          );
          moves = omega (arith, p.moved, w.moves);
          counted = omega (arith, p.counted, w.counted);
          same_overflow = w.same_overflow ∙ p.same_overflow;
          same_owner = w.same_owner ∙ p.same_owner;
          valid = w.valid;
          blank = w.blank;
        },
      )

pub unpack_all-eq :
    (fs : List Field) (s : SpeexBits)
    → All IsNarrow fs
    → IsReadable s
    → s.overflow ≡ false
    → position s + total fs ≤ s.nb_bits
    → Stored s.chars (position s) fs
    → unpack_all s (widths fs) ≡ ok (values fs, moved s (total fs))
unfolding unpack_all
unpack_all-eq [] s few r o h st = ground (arith, r.aligned)
unpack_all-eq (f ∷ fs) s (few, more) r o h (here, later) =
    let fits : overruns s f.width ≡ false = ground arith in
    let along : position (moved s f.width) ≡ position s + f.width = omega arith in
    rw
      (
        unpack_unsigned-eq s f.width r few,
        fits,
        unpack_all-eq fs (moved s f.width) more
            (record { stored = r.stored; aligned = omega arith }) o (omega (arith, along))
            (rw along later),
        here,
      )
      (ground (arith, moved_twice s f.width (total fs)))
  where
    moved_twice : (s : SpeexBits) (m n : ℕ) → moved (moved s m) n ≡ moved s (m + n)
    moved_twice s m n = ground arith

-- From a fresh stream of its own and with an allocator that obeys realloc and never fails, any
-- sequence of fields of at most 32 bits that is packed is counted in nbBits, and after a rewind
-- the same widths unpack to the packed values, each reduced to its width, with the cursor behind
-- the last field.
pub unpack_all-pack_all :
    (realloc : Realloc) (s : SpeexBits) (fs : List Field)
    → Grows realloc
    → All IsNarrow fs
    → IsFresh s
    → (s' : SpeexBits) × (pack_all realloc s fs ≡ ok s')
      × (s'.nb_bits ≡ total fs)
      × (unpack_all (rewind s') (widths fs) ≡ ok (values fs, moved (rewind s') (total fs)))
unfolding rewind
unpack_all-pack_all realloc s fs g few fresh =
    let start = fresh.start in
    let empty = fresh.empty in
    let (s', e, w) = pack_all-IsWritten realloc g fs s few fresh.valid fresh.blank fresh.owned in
    let size = w.valid.sized in
    (
      s',
      e,
      omega (arith, w.counted),
      unpack_all-eq fs (rewind s') few
          (record {
            stored = omega (arith, size, w.valid.inside, w.valid.aligned, w.moves, w.counted);
            aligned = omega arith;
          })
          refl (omega (arith, w.counted)) (rw start at w.stored),
    )
