-- ===== src/CbSearch/Inside.antt =====
-- The parameter sets of the modes, and reading the indices of a subframe.
use speex.Common.{inl, inr}
use speex.Common.{ℕ, zero, suc, ◌*◌, ◌^◌, ◌≤◌, ◌<◌, ◌≡◌, refl, arith, List, [], ◌∷◌, length, All}
use speex.Common.{if◌then◌else◌, Bool-cases, inl, inr, ok}
use speex.Bits.{SpeexBits}
use speex.Bits.Unpack.{IsReadable}
use speex.Bits.Field.{skip, field, field-lt, skip-IsReadable, unpack-field}
use speex.CbSearch.{
  SplitCbParams, decode_indices, split_cb_nb_vlbr, split_cb_nb_ulbr, split_cb_nb_lbr, split_cb_nb,
  split_cb_nb_med, split_cb_sb, split_cb_high, split_cb_high_lbr,
}
use speex.Codebook.Exc5.{exc_5_256_table}
use speex.Codebook.Exc5Small.{exc_5_64_table}
use speex.Codebook.Exc8.{exc_8_128_table}
use speex.Codebook.Exc10Small.{exc_10_16_table}
use speex.Codebook.Exc10.{exc_10_32_table}
use speex.Codebook.Exc20.{exc_20_32_table}
use speex.Codebook.Hexc10.{hexc_10_32_table}
use speex.Codebook.Hexc8.{hexc_table}

-- A codebook with one codeword for each index, for subframes of 40 samples.
pub record IsSplit (p : SplitCbParams) : Type 0 where
  pub complete : length p.shape_cb ≡ p.subvect_size * 2 ^ p.shape_bits
  pub subframe : p.subvect_size * p.nb_subvect ≡ 40
  pub few : p.shape_bits ≤ 32

-- The parameter sets of the modes.
pub data SplitCb : Type 0 where
  of_nb_vlbr : SplitCb
  of_nb_ulbr : SplitCb
  of_nb_lbr : SplitCb
  of_nb : SplitCb
  of_nb_med : SplitCb
  of_sb : SplitCb
  of_high : SplitCb
  of_high_lbr : SplitCb

abbrev pub params : SplitCb → SplitCbParams
params of_nb_vlbr = split_cb_nb_vlbr
params of_nb_ulbr = split_cb_nb_ulbr
params of_nb_lbr = split_cb_nb_lbr
params of_nb = split_cb_nb
params of_nb_med = split_cb_nb_med
params of_sb = split_cb_sb
params of_high = split_cb_high
params of_high_lbr = split_cb_high_lbr

pub params-IsSplit : (k : SplitCb) → IsSplit (params k)
unfolding split_cb_nb_vlbr split_cb_nb_ulbr split_cb_nb_lbr split_cb_nb split_cb_nb_med split_cb_sb
    split_cb_high split_cb_high_lbr exc_10_16_table exc_20_32_table exc_10_32_table exc_5_64_table
    exc_8_128_table exc_5_256_table hexc_table hexc_10_32_table
params-IsSplit of_nb_vlbr = record { complete = refl; subframe = refl; few = omega arith }
params-IsSplit of_nb_ulbr = record { complete = refl; subframe = refl; few = omega arith }
params-IsSplit of_nb_lbr = record { complete = refl; subframe = refl; few = omega arith }
params-IsSplit of_nb = record { complete = refl; subframe = refl; few = omega arith }
params-IsSplit of_nb_med = record { complete = refl; subframe = refl; few = omega arith }
params-IsSplit of_sb = record { complete = refl; subframe = refl; few = omega arith }
params-IsSplit of_high = record { complete = refl; subframe = refl; few = omega arith }
params-IsSplit of_high_lbr = record { complete = refl; subframe = refl; few = omega arith }

-- The subvectors' signs and indices are the fields that follow each other in the stream: a field
-- of one bit where there is a sign, and a field of `shape_bits` bits. The last field ends at `s'`.
abbrev pub AreRead : SplitCbParams → List (ℕ × ℕ) → SpeexBits → SpeexBits → Type 0
AreRead p [] s s' = s' ≡ s
AreRead p ((sign, ind) ∷ rest) s s' =
    let behind_sign = if p.have_sign then skip s 1 else s in
    (sign ≡ (if p.have_sign then field s 1 else 0))
    × (ind ≡ field behind_sign p.shape_bits)
    × AreRead p rest (skip behind_sign p.shape_bits) s'

-- Every index that is read names a codeword.
pub decode_indices-ok :
    (p : SplitCbParams) (left : ℕ) (s : SpeexBits)
    → p.shape_bits ≤ 32
    → IsReadable s
    → (indices : List (ℕ × ℕ)) × (s' : SpeexBits) × (decode_indices p s left ≡ ok (indices, s'))
      × (length indices ≡ left)
      × All (λ (x : ℕ × ℕ). x.1 < 2 ^ p.shape_bits) indices
      × IsReadable s'
      × AreRead p indices s s'
unfolding decode_indices
decode_indices-ok p zero s few r = ([], s, refl, refl, tt, r, refl)
decode_indices-ok p (suc left) s few r = elim (Bool-cases p.have_sign) [
  | inl e ↦
      let r1 = skip-IsReadable s 1 r in
      let r2 = skip-IsReadable (skip s 1) p.shape_bits r1 in
      let (rest, s', runs, size, small, r3, reads) =
        decode_indices-ok p left (skip (skip s 1) p.shape_bits) few r2 in
      (
        (field s 1, field (skip s 1) p.shape_bits) ∷ rest,
        s',
        rw (e, unpack-field s 1 r (omega arith), unpack-field (skip s 1) p.shape_bits r1 few, runs)
            refl,
        omega (arith, size),
        (field-lt (skip s 1) p.shape_bits, small),
        r3,
        rw (e) (refl, refl, reads),
      )
  | inr e ↦
      let r1 = skip-IsReadable s p.shape_bits r in
      let (rest, s', runs, size, small, r3, reads) =
        decode_indices-ok p left (skip s p.shape_bits) few r1 in
      (
        (0, field s p.shape_bits) ∷ rest,
        s',
        rw (e, unpack-field s p.shape_bits r few, runs) refl,
        omega (arith, size),
        (field-lt s p.shape_bits, small),
        r3,
        rw (e) (refl, refl, reads),
      )
]
