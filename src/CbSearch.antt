-- ===== src/CbSearch.antt =====
-- libspeex/cb_search.c: decoding the innovation, in the fixed-point build, with the parameters of
-- libspeex/modes.c and libspeex/modes_wb.c. Accesses outside an array are a `fault`.
pub mod Inside
pub mod Samples
pub mod Reading
pub mod Noise
mod Examples
use speex.Common.{
  ℕ, zero, suc, ◌+◌, ◌*◌, List, [], ◌∷◌, ℤ, pos, neg, pos_part, neg_part, sub_ℕ, Bool, true, false,
}
use speex.Common.{signed32, pattern32, ◌==◌, if◌then◌else◌, Result, ok, ◌>>=◌, load, store}
use speex.Fixed.{shl32, neg32}
use speex.MathApprox.{speex_rand}
use speex.Bits.{SpeexBits, unpack_unsigned}
use speex.Codebook.Exc5.{exc_5_256_table}
use speex.Codebook.Exc5Small.{exc_5_64_table}
use speex.Codebook.Exc8.{exc_8_128_table}
use speex.Codebook.Exc10Small.{exc_10_16_table}
use speex.Codebook.Exc10.{exc_10_32_table}
use speex.Codebook.Exc20.{exc_20_32_table}
use speex.Codebook.Hexc10.{hexc_10_32_table}
use speex.Codebook.Hexc8.{hexc_table}

pub record SplitCbParams : Type 0 where
  pub subvect_size : ℕ
  pub nb_subvect : ℕ
  pub shape_cb : List ℤ
  pub shape_bits : ℕ
  pub have_sign : Bool

-- The sign and the index of each of the `left` subvectors that are still to be read.
unfoldable pub decode_indices : SplitCbParams → SpeexBits → ℕ → Result (List (ℕ × ℕ) × SpeexBits)
unfolding unpack_unsigned
decode_indices p bits zero = ok ([], bits)
decode_indices p bits (suc left) = do
  (sign, bits1) ← if p.have_sign then unpack_unsigned bits 1 else ok (0, bits)
  (ind, bits2) ← unpack_unsigned bits1 p.shape_bits
  (rest, bits3) ← decode_indices p bits2 left
  ok ((sign, ind) ∷ rest, bits3)

-- for (j=0;j<subvect_size;j++) exc[start+j] = .., with `left` rounds left; SIG_SHIFT is 14
unfoldable pub fill : List ℤ → ℕ → ℕ → ℕ → List ℤ → ℕ → ℕ → Result (List ℤ)
unfolding shl32 neg32
fill shape_cb sign base start exc j zero = ok exc
fill shape_cb sign base start exc j (suc left) = do
  c ← load shape_cb (base + j)
  exc' ← store exc (start + j) (if sign == 0 then shl32 c 9 else neg32 (shl32 c 9))
  fill shape_cb sign base start exc' (j + 1) left

-- Subvector `i` and those behind it.
unfoldable pub fill_all : SplitCbParams → List (ℕ × ℕ) → ℕ → List ℤ → Result (List ℤ)
unfolding fill
fill_all p [] i exc = ok exc
fill_all p ((sign, ind) ∷ rest) i exc = do
  exc' ← fill p.shape_cb sign (ind * p.subvect_size) (p.subvect_size * i) exc 0 p.subvect_size
  fill_all p rest (i + 1) exc'

unfoldable pub split_cb_shape_sign_unquant :
    List ℤ → SplitCbParams → SpeexBits → Result (List ℤ × SpeexBits)
unfolding decode_indices fill_all
split_cb_shape_sign_unquant exc p bits = do
  (indices, bits') ← decode_indices p bits p.nb_subvect
  exc' ← fill_all p indices 0 exc
  ok (exc', bits')

unfoldable pub split_cb_nb_vlbr : SplitCbParams
split_cb_nb_vlbr = record {
  subvect_size = 10;
  nb_subvect = 4;
  shape_cb = exc_10_16_table;
  shape_bits = 4;
  have_sign = false;
}

unfoldable pub split_cb_nb_ulbr : SplitCbParams
split_cb_nb_ulbr = record {
  subvect_size = 20;
  nb_subvect = 2;
  shape_cb = exc_20_32_table;
  shape_bits = 5;
  have_sign = false;
}

unfoldable pub split_cb_nb_lbr : SplitCbParams
split_cb_nb_lbr = record {
  subvect_size = 10;
  nb_subvect = 4;
  shape_cb = exc_10_32_table;
  shape_bits = 5;
  have_sign = false;
}

unfoldable pub split_cb_nb : SplitCbParams
split_cb_nb = record {
  subvect_size = 5;
  nb_subvect = 8;
  shape_cb = exc_5_64_table;
  shape_bits = 6;
  have_sign = false;
}

unfoldable pub split_cb_nb_med : SplitCbParams
split_cb_nb_med = record {
  subvect_size = 8;
  nb_subvect = 5;
  shape_cb = exc_8_128_table;
  shape_bits = 7;
  have_sign = false;
}

unfoldable pub split_cb_sb : SplitCbParams
split_cb_sb = record {
  subvect_size = 5;
  nb_subvect = 8;
  shape_cb = exc_5_256_table;
  shape_bits = 8;
  have_sign = false;
}

unfoldable pub split_cb_high : SplitCbParams
split_cb_high = record {
  subvect_size = 8;
  nb_subvect = 5;
  shape_cb = hexc_table;
  shape_bits = 7;
  have_sign = true;
}

unfoldable pub split_cb_high_lbr : SplitCbParams
split_cb_high_lbr = record {
  subvect_size = 10;
  nb_subvect = 4;
  shape_cb = hexc_10_32_table;
  shape_bits = 5;
  have_sign = false;
}

-- speex_rand(1, seed) for each of the `left` samples; the new seed comes with them.
unfoldable pub noise_codebook_unquant : List ℤ → ℕ → ℕ → ℕ → Result (List ℤ × ℕ)
unfolding speex_rand shl32
noise_codebook_unquant exc i seed zero = ok (exc, seed)
noise_codebook_unquant exc i seed (suc left) = do
  let (r, seed') = speex_rand (pos 1) seed
  exc' ← store exc i (shl32 r 14)
  noise_codebook_unquant exc' (i + 1) seed' left
