-- ===== src/Lsp/LowRate.antt =====
-- libspeex/quant_lsp.c: lsp_unquant_lbr on every stream.
use speex.Common.{ℕ, ◌+◌, ◌*◌, ◌<◌, ◌≡◌, refl}
use speex.Common.{arith, List, length, ℤ, ◌+ℤ◌, ok}
use speex.Common.{inl, inr}
use speex.Fixed.{Within}
use speex.Bits.{SpeexBits}
use speex.Bits.Unpack.{IsReadable}
use speex.Codebook.LspNb.{cdbk_nb}
use speex.Codebook.LspNbLow.{cdbk_nb_low1}
use speex.Codebook.LspNbHigh.{cdbk_nb_high1}
use speex.Lsp.{lsp_linear, start_from}
use speex.Lsp.{lsp_unquant_lbr}
use speex.Lsp.Stage.{entry, IsAdded, IsAdded-at}
use speex.Lsp.Decode.{
  index, after_index, stage-IsStage, part, start_nb-IsStage, cdbk_nb-IsCodebook,
  cdbk_nb_low1-IsCodebook, cdbk_nb_high1-IsCodebook,
}

-- What the decoder of the low rates means for the indices i0 to i2.
pub record IsDecodedLbr (i0 i1 i2 : ℕ) (lsp : List ℤ) : Type 0 where
  pub size : length lsp ≡ 10
  pub lower :
      (j : ℕ)
      → j < 5
      → entry lsp j
        ≡ entry (start_from lsp_linear 0 10) j
          +ℤ part cdbk_nb i0 10 j 5
          +ℤ part cdbk_nb_low1 i1 5 j 4
  pub upper :
      (j : ℕ)
      → j < 5
      → entry lsp (j + 5)
        ≡ entry (start_from lsp_linear 0 10) (j + 5)
          +ℤ part cdbk_nb i0 10 (j + 5) 5
          +ℤ part cdbk_nb_high1 i2 5 j 4
  pub fits : (j : ℕ) → Within 28672 (entry lsp j)

module _ (i0 i1 i2 : ℕ) (start a b c : List ℤ) (pa : IsAdded cdbk_nb (i0 * 10) 5 0 0 10 start a)
    (pb : IsAdded cdbk_nb_low1 (i1 * 5) 4 0 0 5 a b)
    (pc : IsAdded cdbk_nb_high1 (i2 * 5) 4 5 0 5 b c) where
  lbr_lower :
      (j : ℕ)
      → j < 5
      → entry c j ≡ entry start j +ℤ part cdbk_nb i0 10 j 5 +ℤ part cdbk_nb_low1 i1 5 j 4
  lbr_lower j h =
      rw
        (
          pc.kept j (inl (omega arith)),
          IsAdded-at cdbk_nb_low1 (i1 * 5) 4 0 5 a b pb j j (omega arith) h,
          IsAdded-at cdbk_nb (i0 * 10) 5 0 10 start a pa j j (omega arith) (omega arith),
        )
        refl

  lbr_upper :
      (j : ℕ)
      → j < 5
      → entry c (j + 5)
        ≡ entry start (j + 5) +ℤ part cdbk_nb i0 10 (j + 5) 5 +ℤ part cdbk_nb_high1 i2 5 j 4
  lbr_upper j h =
      rw
        (
          IsAdded-at cdbk_nb_high1 (i2 * 5) 4 5 5 b c pc (j + 5) j refl h,
          pb.kept (j + 5) (inr (omega arith)),
          IsAdded-at cdbk_nb (i0 * 10) 5 0 10 start a pa (j + 5) (j + 5) (omega arith)
              (omega arith),
        )
        refl

-- lsp_unquant_lbr of order 10, on every stream whose announced bits are in memory, never faults
-- and reads exactly three indices of 6 bits. Each of the 10 entries is the exact integer sum of
-- its linear start value and the entries that the indices select, times 32 and 16. No entry
-- exceeds 28672, so no 16-bit sum wraps.
pub lsp_unquant_lbr_lem :
    (s0 : SpeexBits)
    → IsReadable s0
    → let s1 = after_index s0 in
      let s2 = after_index s1 in
      (lsp : List ℤ) × (lsp_unquant_lbr 10 s0 ≡ ok (lsp, after_index s2))
      × IsDecodedLbr (index s0) (index s1) (index s2) lsp
      × IsReadable (after_index s2)
unfolding lsp_unquant_lbr
lsp_unquant_lbr_lem s0 r =
    let start = start_from lsp_linear 0 10 in
    let s1 = after_index s0 in
    let s2 = after_index s1 in
    let (a, ea, pa, ia) =
      stage-IsStage cdbk_nb 10 10 5 0 20480 start s0 cdbk_nb-IsCodebook (omega arith) (omega arith)
        (start_nb-IsStage s0 r) in
    let (b, eb, pb, ib) =
      stage-IsStage cdbk_nb_low1 10 5 4 0 24576 a s1 cdbk_nb_low1-IsCodebook (omega arith)
        (omega arith) ia in
    let (c, ec, pc, ic) =
      stage-IsStage cdbk_nb_high1 10 5 4 5 26624 b s2 cdbk_nb_high1-IsCodebook (omega arith)
        (omega arith) ib in
    (
      c,
      rw (ea, eb, ec) refl,
      record {
        size = ic.size;
        lower = lbr_lower (index s0) (index s1) (index s2) start a b c pa pb pc;
        upper = lbr_upper (index s0) (index s1) (index s2) start a b c pa pb pc;
        fits = ic.fits;
      },
      ic.readable,
    )
