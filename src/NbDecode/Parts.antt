-- ===== src/NbDecode/Parts.antt =====
-- How many bits each part of a narrowband frame takes, on every stream.
use speex.Common.{
  ℕ, zero, suc, ◌+◌, ◌*◌, ◌^◌, ◌≤◌, ◌≡◌, refl, arith, List, [], ◌∷◌, length, ℤ, pos, negsuc, false,
  Bool-cases, inl, inr, some,
}
use speex.Common.{◌==◌, if◌then◌else◌, ok, ◌>>=◌, load, load-ok, get_or}
use speex.Bits.{SpeexBits, unpack_unsigned}
use speex.Bits.Unpack.{IsReadable}
use speex.Bits.Field.{skip, field, field-lt, skip-IsReadable, unpack-field}
use speex.Bits.Consume.{
  Consumes, IsBehind-skip, skip-IsBehind, Consumes-return, Consumes-bind, Consumes-map,
  unpack_unsigned-Consumes,
}
use speex.Lsp.{lsp_unquant_nb, lsp_unquant_lbr}
use speex.Lsp.Narrow.{lsp_unquant_nb_lem}
use speex.Lsp.LowRate.{lsp_unquant_lbr_lem}
use speex.Fixed.{add16, mult16_32_q14}
use speex.Modes.{LtpParams}
use speex.NbDecode.{
  ol_gain_table, exc_gain_quant_scal3, exc_gain_quant_scal1, Pitch, pitch_unquant_3tap,
  subframe_gain, read_ol_pitch, read_pitch_coef, read_ol_gain, read_dtx,
}

pub lsp_unquant_nb-Consumes : (s : SpeexBits) → IsReadable s → Consumes (lsp_unquant_nb 10 s) s 30
lsp_unquant_nb-Consumes s r =
    let (lsp, runs, same, r') = lsp_unquant_nb_lem s r in
    (
      lsp,
      _,
      runs,
      r',
      IsBehind-skip s _ 24 6 (
          IsBehind-skip s _ 18 6
            (IsBehind-skip s _ 12 6 (IsBehind-skip s _ 6 6 (skip-IsBehind s 6)))),
    )

pub lsp_unquant_lbr-Consumes : (s : SpeexBits) → IsReadable s → Consumes (lsp_unquant_lbr 10 s) s 18
lsp_unquant_lbr-Consumes s r =
    let (lsp, runs, same, r') = lsp_unquant_lbr_lem s r in
    (lsp, _, runs, r', IsBehind-skip s _ 12 6 (IsBehind-skip s _ 6 6 (skip-IsBehind s 6)))

-- A field of `n` bits that is looked up in a table of 2 ^ n entries.
looked_up {ℓ κ} :
    {A : Type ℓ} {B : Type κ} (table : List A) (d : A) (f : A → B) (s : SpeexBits) (n : ℕ)
    → length table ≡ 2 ^ n
    → n ≤ 32
    → IsReadable s
    → Consumes (unpack_unsigned s n >>= λ (i, s'). load table i >>= λ x. ok (f x, s')) s n
looked_up table d f s n size few r = (
  f (get_or table (field s n) d),
  skip s n,
  rw (unpack-field s n r few, load-ok table (field s n) d (omega (arith, size, field-lt s n))) refl,
  skip-IsReadable s n r,
  skip-IsBehind s n,
)

pub read_ol_gain-Consumes : (s : SpeexBits) → IsReadable s → Consumes (read_ol_gain s) s 5
unfolding read_ol_gain ol_gain_table
read_ol_gain-Consumes s r = looked_up ol_gain_table (pos 0) _ s 5 refl (omega arith) r

abbrev pub gain_bits : ℕ → ℕ
gain_bits h = if h == 3 then 3 else if h == 1 then 1 else 0

pub subframe_gain-Consumes :
    (h : ℕ) (g : ℤ) (s : SpeexBits) → IsReadable s → Consumes (subframe_gain h g s) s (gain_bits h)
unfolding subframe_gain exc_gain_quant_scal3 exc_gain_quant_scal1
subframe_gain-Consumes h g s r = elim (Bool-cases (h == 3)) [
  | inl e ↦
      rw (e)
        (looked_up exc_gain_quant_scal3 (pos 0) (λ x. mult16_32_q14 x g) s 3 refl (omega arith) r)
  | inr e ↦ elim (Bool-cases (h == 1)) [
    | inl e' ↦
        rw (e, e')
          (looked_up exc_gain_quant_scal1 (pos 0) (λ x. mult16_32_q14 x g) s 1 refl (omega arith) r)
    | inr e' ↦ rw (e, e') (Consumes-return g s r)
  ]
]

abbrev pub ol_pitch_bits : ℤ → ℕ
ol_pitch_bits (negsuc zero) = 0
ol_pitch_bits (negsuc (suc n)) = 7
ol_pitch_bits (pos n) = 7

pub read_ol_pitch-Consumes :
    (z : ℤ) (s : SpeexBits) → IsReadable s → Consumes (read_ol_pitch z s) s (ol_pitch_bits z)
unfolding read_ol_pitch
read_ol_pitch-Consumes (negsuc zero) s r = Consumes-return 0 s r
read_ol_pitch-Consumes (negsuc (suc n)) s r =
    Consumes-map (unpack_unsigned s 7) (λ n. 17 + n) s 7
      (unpack_unsigned-Consumes s 7 r (omega arith))
read_ol_pitch-Consumes (pos n) s r =
    Consumes-map (unpack_unsigned s 7) (λ n. 17 + n) s 7
      (unpack_unsigned-Consumes s 7 r (omega arith))

abbrev pub coef_bits : ℕ → ℕ
coef_bits zero = 0
coef_bits (suc n) = 4

pub read_pitch_coef-Consumes :
    (n : ℕ) (s : SpeexBits) → IsReadable s → Consumes (read_pitch_coef n s) s (coef_bits n)
unfolding read_pitch_coef
read_pitch_coef-Consumes zero s r = Consumes-return (pos 0) s r
read_pitch_coef-Consumes (suc n) s r =
    Consumes-map (unpack_unsigned s 4) _ s 4 (unpack_unsigned-Consumes s 4 r (omega arith))

abbrev pub dtx_bits : ℕ → ℕ
dtx_bits id = if id == 1 then 4 else 0

pub read_dtx-Consumes :
    (id : ℕ) (s : SpeexBits) → IsReadable s → Consumes (read_dtx id s) s (dtx_bits id)
unfolding read_dtx
read_dtx-Consumes id s r = elim (Bool-cases (id == 1)) [
  | inl e ↦ rw (e) (
      Consumes-map (unpack_unsigned s 4) (λ x. x == 15) s 4
        (unpack_unsigned-Consumes s 4 r (omega arith)))
  | inr e ↦ rw (e) (Consumes-return false s r)
]

-- The pitch and the taps that two indices give.
abbrev three_taps : LtpParams → ℕ → ℕ → ℕ → Pitch
three_taps par start p i =
    let tap = λ (k : ℕ). add16 (pos 32) (get_or par.gain_cdbk k (pos 0)) in
    record { pitch = p + start; gain = tap (i * 4) ∷ tap (i * 4 + 1) ∷ tap (i * 4 + 2) ∷ [] }

-- A codebook with four entries for each index.
pub pitch_unquant_3tap-Consumes :
    (par : LtpParams) (start : ℕ) (s : SpeexBits)
    → length par.gain_cdbk ≡ 4 * 2 ^ par.gain_bits
    → par.pitch_bits ≤ 32
    → par.gain_bits ≤ 32
    → IsReadable s
    → Consumes (pitch_unquant_3tap start (some par) s) s (par.pitch_bits + par.gain_bits)
unfolding pitch_unquant_3tap
pitch_unquant_3tap-Consumes par start s size few few' r =
    Consumes-bind (unpack_unsigned s par.pitch_bits) _ s par.pitch_bits par.gain_bits
      (unpack_unsigned-Consumes s par.pitch_bits r few)
      (λ p s1 e r1.
        let i = field s1 par.gain_bits in
        let inside = field-lt s1 par.gain_bits in
        (
          three_taps par start p i,
          skip s1 par.gain_bits,
          rw
              (
                unpack-field s1 par.gain_bits r1 few',
                load-ok par.gain_cdbk (i * 4) (pos 0) (omega (arith, size, inside)),
                load-ok par.gain_cdbk (i * 4 + 1) (pos 0) (omega (arith, size, inside)),
                load-ok par.gain_cdbk (i * 4 + 2) (pos 0) (omega (arith, size, inside)),
              )
              refl,
          skip-IsReadable s1 par.gain_bits r1,
          skip-IsBehind s1 par.gain_bits,
        ))
