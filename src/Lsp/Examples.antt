-- ===== src/Lsp/Examples.antt =====
-- The decoders of quant_lsp.c at a stream that meets their hypotheses.
use speex.Common.{◌≡◌, refl, arith, false, List, [], ◌∷◌, ℤ, ok}
use speex.Bits.{SpeexBits}
use speex.Bits.View.{bits_at}
use speex.Bits.Unpack.{IsReadable}
use speex.Lsp.{lsp_unquant_nb, lsp_unquant_lbr, lsp_unquant_high}
use speex.Lsp.Decode.{index, after_index}
use speex.Lsp.Narrow.{IsDecodedNb, lsp_unquant_nb_lem}
use speex.Lsp.LowRate.{IsDecodedLbr, lsp_unquant_lbr_lem}
use speex.Lsp.High.{IsDecodedHigh, lsp_unquant_high_lem}

-- Twenty bits: three indices, and two bits that are no index.
abbrev frame : SpeexBits
frame = record {
  chars = 180 ∷ 77 ∷ 225 ∷ [];
  nb_bits = 20;
  char_ptr = 0;
  bit_ptr = 0;
  owner = false;
  overflow = false;
  buf_size = 3;
}

frame-IsReadable : IsReadable frame
frame-IsReadable = record { stored = omega arith; aligned = omega arith }

indices_of_frame : index frame ∷ index (after_index frame) ∷ [] ≡ 45 ∷ 4 ∷ []
unfolding bits_at
indices_of_frame = refl

lsp_unquant_nb_lem_example :
    let s1 = after_index frame in
    let s2 = after_index s1 in
    let s3 = after_index s2 in
    let s4 = after_index s3 in
    (lsp : List ℤ) × (lsp_unquant_nb 10 frame ≡ ok (lsp, after_index s4))
    × IsDecodedNb (index frame) (index s1) (index s2) (index s3) (index s4) lsp
    × IsReadable (after_index s4)
lsp_unquant_nb_lem_example = lsp_unquant_nb_lem frame frame-IsReadable

lsp_unquant_lbr_lem_example :
    let s1 = after_index frame in
    let s2 = after_index s1 in
    (lsp : List ℤ) × (lsp_unquant_lbr 10 frame ≡ ok (lsp, after_index s2))
    × IsDecodedLbr (index frame) (index s1) (index s2) lsp
    × IsReadable (after_index s2)
lsp_unquant_lbr_lem_example = lsp_unquant_lbr_lem frame frame-IsReadable

lsp_unquant_high_lem_example :
    let s1 = after_index frame in
    (lsp : List ℤ) × (lsp_unquant_high 8 frame ≡ ok (lsp, after_index s1))
    × IsDecodedHigh (index frame) (index s1) lsp
    × IsReadable (after_index s1)
lsp_unquant_high_lem_example = lsp_unquant_high_lem frame frame-IsReadable
