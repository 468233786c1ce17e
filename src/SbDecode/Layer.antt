-- ===== src/SbDecode/Layer.antt =====
-- The layer of the high band, on every stream and in every branch.
use speex.Common.{
  ℕ, ◌+◌, ◌<◌, ◌≡◌, ◌≢◌, inl, inr, refl, ◌∙◌, arith, length, get_elem?, Bool, true, false,
  Bool-cases, none, some, ok, ◌==◌, if◌then◌else◌, ltb_ℤ, pos,
}
use native.Mathlib.Decide.{dec_lt}
use mathlib.Core.Path.{subst}
use speex.Bits.{SpeexBits, peek, remaining, check_overflow}
use speex.Bits.View.{bit_at, position}
use speex.Bits.Unpack.{IsReadable, overruns, moved, bit_at-lt, current_bit-ok}
use speex.Bits.Field.{skip, field, field-lt, skip-IsReadable, unpack-field}
use speex.Bits.Consume.{IsBehind, skip-IsBehind, fits_first, fits_rest, moved_twice}
use speex.Modes.{SpeexSubmode, SpeexSbMode}
use speex.SbDecode.{
  read_submode, SbFields, sb_fields, SbLayer, invalid, null_layer, layer, decode_submode,
  sb_decode_layer,
}
use speex.SbDecode.Reading.{sb_fields-Consumes-parts}
use speex.SbDecode.Layout.{SbMode, sb_mode, IsSubmode, empty, holds, sb_mode-IsListed, unlisted}

-- The bit that the stream gives next, or 0 at its end.
abbrev pub next_bit : SpeexBits → ℕ
next_bit s = if overruns s 1 then 0 else bit_at s.chars (position s)

has_more : (s : SpeexBits) → overruns s 1 ≡ false → ltb_ℤ (pos 0) (remaining s) ≡ true
unfolding remaining
has_more s h = ground arith

at_end : (s : SpeexBits) → overruns s 1 ≡ true → ltb_ℤ (pos 0) (remaining s) ≡ false
unfolding remaining
at_end s h = ground arith

check_overflow-inside : (s : SpeexBits) → overruns s 1 ≡ false → check_overflow s 1 ≡ s
unfolding check_overflow
check_overflow-inside s h = ground arith

inside_memory : (s : SpeexBits) → IsReadable s → overruns s 1 ≡ false → s.char_ptr < length s.chars
inside_memory s r h = ground arith

no_overflow : (s : SpeexBits) → overruns s 1 ≡ false → s.overflow ≡ false
no_overflow s h = ground arith

chosen : (b : Bool) (x y : ℕ) → b ≡ false → (if b then 0 else x) ≡ y → x ≡ y
chosen b x y e h = ground arith

peek-next_bit :
    (s : SpeexBits)
    → IsReadable s
    → overruns s 1 ≡ false
    → peek s ≡ ok (bit_at s.chars (position s), s)
unfolding peek
peek-next_bit s r h =
    rw
      (check_overflow-inside s h, no_overflow s h, current_bit-ok s r.aligned (inside_memory s r h))
      refl

read_submode-narrow :
    (id : ℕ) (s : SpeexBits) → IsReadable s → next_bit s ≡ 0 → read_submode true id s ≡ ok (0, s)
unfolding read_submode
read_submode-narrow id s r e = elim (Bool-cases (overruns s 1)) [
  | inl over ↦ rw (at_end s over) refl
  | inr more ↦
      rw
        (
          has_more s more,
          peek-next_bit s r more,
          chosen (overruns s 1) (bit_at s.chars (position s)) 0 more e,
        )
        refl
]

read_submode-wide :
    (id : ℕ) (s : SpeexBits)
    → IsReadable s
    → next_bit s ≡ 1
    → read_submode true id s ≡ ok (field (moved s 1) 3, skip (moved s 1) 3)
unfolding read_submode
read_submode-wide id s r e = elim (Bool-cases (overruns s 1)) [
  | inl over ↦ absurd (not_both (overruns s 1) (bit_at s.chars (position s)) over e)
  | inr more ↦
      rw
        (
          has_more s more,
          peek-next_bit s r more,
          chosen (overruns s 1) (bit_at s.chars (position s)) 1 more e,
          unpack-field s 1 r (omega arith),
          more,
          unpack-field (moved s 1) 3 (moved-IsReadable s r) (omega arith),
        )
        refl
]
  where
    not_both : (b : Bool) (x : ℕ) → b ≡ true → (if b then 0 else x) ≢ 1
    not_both b x e h = ground arith

    moved-IsReadable : (s : SpeexBits) → IsReadable s → IsReadable (moved s 1)
    moved-IsReadable s r = ground arith

-- The sub-mode behind the wideband bit.
abbrev pub sb_id : SpeexBits → ℕ
sb_id s = field (moved s 1) 3

-- How the layer is taken: no layer, the null sub-mode, a sub-mode without a description, or one
-- with its fields, which end where bits_per_frame says.
pub data IsLayer (k : SbMode) (s : SpeexBits) (out : SbLayer) (s' : SpeexBits) : Type 0 where
  narrow : next_bit s ≡ 0 → out ≡ null_layer → s' ≡ s → IsLayer k s out s'
  silent : next_bit s ≡ 1 → sb_id s ≡ 0 → out ≡ null_layer → IsBehind s s' 4 → IsLayer k s out s'
  refused :
      next_bit s ≡ 1
      → sb_id s ≢ 0
      → get_elem? (sb_mode k).submodes (sb_id s) ≡ some none
      → out ≡ invalid
      → IsLayer k s out s'
  decoded :
      (m : SpeexSubmode) (x : SbFields)
      → next_bit s ≡ 1
      → get_elem? (sb_mode k).submodes (sb_id s) ≡ some (some m)
      → out ≡ layer x
      → IsBehind s s' m.bits_per_frame
      → IsLayer k s out s'

IsBehind-trans :
    (s s1 s2 : SpeexBits) (m n : ℕ) → IsBehind s s1 m → IsBehind s1 s2 n → IsBehind s s2 (m + n)
IsBehind-trans s s1 s2 m n first then_next h =
    let e = first (fits_first s m n h) in
    then_next (rw (e) (fits_rest s m n h)) ∙ rw (e) (moved_twice s m n)

IsBehind-submode : (s : SpeexBits) → IsBehind s (skip (moved s 1) 3) 4
IsBehind-submode s h = skip-IsBehind (moved s 1) 3 (fits_rest s 1 3 h) ∙ moved_twice s 1 3

moved-IsReadable : (s : SpeexBits) → IsReadable s → IsReadable (moved s 1)
moved-IsReadable s r = ground arith

sb_fields-Consumes :
    (mode : SpeexSbMode) (m : SpeexSubmode) (i : IsSubmode mode m) (seed : ℕ) (s s1 : SpeexBits)
    → IsReadable s1
    → IsBehind s s1 4
    → (x : SbFields) × (s' : SpeexBits) × (sb_fields mode m seed s1 ≡ ok (x, s'))
      × IsReadable s'
      × IsBehind s s' m.bits_per_frame
sb_fields-Consumes mode m i seed s s1 r behind =
    let (x, s', runs, r', moves) =
      sb_fields-Consumes-parts mode m i.innov seed s1 i.order i.high i.reads i.room r in
    (
      x,
      s',
      runs,
      r',
      subst (λ n. IsBehind s s' n) i.total (IsBehind-trans s s1 s' 4 _ behind moves),
    )

next_bit-lt : (s : SpeexBits) → next_bit s < 2
next_bit-lt s = ground (arith, bit_at-lt s.chars (position s))

wide :
    (k : SbMode) (submode_id seed : ℕ) (s : SpeexBits)
    → IsReadable s
    → next_bit s ≡ 1
    → (out : SbLayer) × (s' : SpeexBits) × (sb_decode_layer (sb_mode k) true submode_id seed s
        ≡ ok (out, s'))
      × IsReadable s'
      × IsLayer k s out s'
unfolding sb_decode_layer decode_submode
wide k submode_id seed s r e =
    let s1 = skip (moved s 1) 3 in
    let r1 = skip-IsReadable (moved s 1) 3 (moved-IsReadable s r) in
    let reads = read_submode-wide submode_id s r e in
    elim (sb_mode-IsListed k (sb_id s) (field-lt (moved s 1) 3)) [
      | empty at ↦ elim (Bool-cases (sb_id s == 0)) [
        | inl z ↦ (
          null_layer,
          s1,
          rw (reads, at, z) refl,
          r1,
          silent e (is_zero (sb_id s) z) refl (IsBehind-submode s),
        )
        | inr nz ↦
            (invalid, s1, rw (reads, at, nz) refl, r1, refused e (not_zero (sb_id s) nz) at refl)
      ]
      | holds m at i ↦
          let (x, s', runs, r', moves) =
            sb_fields-Consumes (sb_mode k) m i seed s s1 r1 (IsBehind-submode s) in
          (layer x, s', rw (reads, at, runs) refl, r', decoded m x e at refl moves)
    ]
  where
    is_zero : (n : ℕ) → (n == 0) ≡ true → n ≡ 0
    is_zero n h = ground arith

    not_zero : (n : ℕ) → (n == 0) ≡ false → n ≢ 0
    not_zero n h = ground arith

-- What sb_decode reads behind the narrowband frame, for the wideband and the ultra-wideband mode
-- with encode_submode set, on every stream whose announced bits are in memory, returns and never
-- faults, and the stream can be read on. Without a wideband bit there is no layer and the stream
-- is as it was; sub-mode 0 is the null sub-mode, of 4 bits if they are there; a sub-mode that
-- the mode does not describe is refused with -2; another one gives its fields, and where the
-- bits are there the layer takes exactly bits_per_frame.
pub sb_decode_layer-IsLayer :
    (k : SbMode) (submode_id seed : ℕ) (s : SpeexBits)
    → IsReadable s
    → (out : SbLayer) × (s' : SpeexBits) × (sb_decode_layer (sb_mode k) true submode_id seed s
        ≡ ok (out, s'))
      × IsReadable s'
      × IsLayer k s out s'
unfolding sb_decode_layer decode_submode
sb_decode_layer-IsLayer k submode_id seed s r = elim (dec_lt (next_bit s) 1) [
  | yes none_next ↦
      let e : next_bit s ≡ 0 = omega arith in
      (
        null_layer,
        s,
        rw (read_submode-narrow submode_id s r e, unlisted k) refl,
        r,
        narrow e refl refl,
      )
  | no some_next ↦ wide k submode_id seed s r (only_one (next_bit s) (next_bit-lt s) some_next)
]
  where
    only_one : (n : ℕ) → n < 2 → ¬ (n < 1) → n ≡ 1
    only_one n h h' = omega arith
