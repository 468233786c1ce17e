-- ===== src/Lsp/High.antt =====
-- libspeex/quant_lsp.c: lsp_unquant_high on every stream.
use speex.Common.{ℕ, ◌*◌, ◌<◌, ◌≡◌, refl}
use speex.Common.{arith, List, length, ℤ, ◌+ℤ◌, ok}
use speex.Fixed.{Within}
use speex.Bits.{SpeexBits}
use speex.Bits.Unpack.{IsReadable}
use speex.Codebook.LspHigh.{high_lsp_cdbk, high_lsp_cdbk2}
use speex.Lsp.{lsp_linear_high, start_from}
use speex.Lsp.{lsp_unquant_high}
use speex.Lsp.Stage.{entry, IsAdded-at}
use speex.Lsp.Decode.{
  index, after_index, stage-IsStage, part, start_high-IsStage, high_lsp_cdbk-IsCodebook,
  high_lsp_cdbk2-IsCodebook,
}

-- What the high band's decoder means for the indices i0 and i1.
pub record IsDecodedHigh (i0 i1 : ℕ) (lsp : List ℤ) : Type 0 where
  pub size : length lsp ≡ 8
  pub sums :
      (j : ℕ)
      → j < 8
      → entry lsp j
        ≡ entry (start_from lsp_linear_high 0 8) j
          +ℤ part high_lsp_cdbk i0 8 j 5
          +ℤ part high_lsp_cdbk2 i1 8 j 4
  pub fits : (j : ℕ) → Within 30208 (entry lsp j)

-- lsp_unquant_high of order 8, on every stream whose announced bits are in memory, never faults
-- and reads exactly two indices of 6 bits. Each of the 8 entries is the exact integer sum of its
-- linear start value and the entries of the two codebooks that the indices select, times 32 and
-- 16. No entry exceeds 30208, so no 16-bit sum wraps.
pub lsp_unquant_high_lem :
    (s0 : SpeexBits)
    → IsReadable s0
    → let s1 = after_index s0 in
      (lsp : List ℤ) × (lsp_unquant_high 8 s0 ≡ ok (lsp, after_index s1))
      × IsDecodedHigh (index s0) (index s1) lsp
      × IsReadable (after_index s1)
unfolding lsp_unquant_high
lsp_unquant_high_lem s0 r =
    let start = start_from lsp_linear_high 0 8 in
    let s1 = after_index s0 in
    let (a, ea, pa, ia) =
      stage-IsStage high_lsp_cdbk 8 8 5 0 24064 start s0 high_lsp_cdbk-IsCodebook (omega arith)
        (omega arith) (start_high-IsStage s0 r) in
    let (b, eb, pb, ib) =
      stage-IsStage high_lsp_cdbk2 8 8 4 0 28160 a s1 high_lsp_cdbk2-IsCodebook (omega arith)
        (omega arith) ia in
    (
      b,
      rw (ea, eb) refl,
      record {
        size = ib.size;
        sums = λ j h.
            rw
              (
                IsAdded-at high_lsp_cdbk2 (index s1 * 8) 4 0 8 a b pb j j (omega arith) h,
                IsAdded-at high_lsp_cdbk (index s0 * 8) 5 0 8 start a pa j j (omega arith) h,
              )
              refl;
        fits = ib.fits;
      },
      ib.readable,
    )
