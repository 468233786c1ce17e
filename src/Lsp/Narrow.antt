-- ===== src/Lsp/Narrow.antt =====
-- libspeex/quant_lsp.c: lsp_unquant_nb on every stream.
use speex.Common.{ℕ, ◌+◌, ◌*◌, ◌<◌, ◌≡◌, refl}
use speex.Common.{arith, List, length, ℤ, ◌+ℤ◌, ok}
use speex.Common.{inl, inr}
use speex.Fixed.{Within}
use speex.Bits.{SpeexBits}
use speex.Bits.Unpack.{IsReadable}
use speex.Codebook.LspNb.{cdbk_nb}
use speex.Codebook.LspNbLow.{cdbk_nb_low1, cdbk_nb_low2}
use speex.Codebook.LspNbHigh.{cdbk_nb_high1, cdbk_nb_high2}
use speex.Lsp.{lsp_linear, start_from}
use speex.Lsp.{lsp_unquant_nb}
use speex.Lsp.Stage.{entry, IsAdded, IsAdded-at}
use speex.Lsp.Decode.{
  index, after_index, stage-IsStage, part, start_nb-IsStage, cdbk_nb-IsCodebook,
  cdbk_nb_low1-IsCodebook, cdbk_nb_low2-IsCodebook, cdbk_nb_high1-IsCodebook,
  cdbk_nb_high2-IsCodebook,
}

-- What the narrowband decoder means for the indices i0 to i4.
pub record IsDecodedNb (i0 i1 i2 i3 i4 : ℕ) (lsp : List ℤ) : Type 0 where
  pub size : length lsp ≡ 10
  pub lower :
      (j : ℕ)
      → j < 5
      → entry lsp j
        ≡ entry (start_from lsp_linear 0 10) j
          +ℤ part cdbk_nb i0 10 j 5
          +ℤ part cdbk_nb_low1 i1 5 j 4
          +ℤ part cdbk_nb_low2 i2 5 j 3
  pub upper :
      (j : ℕ)
      → j < 5
      → entry lsp (j + 5)
        ≡ entry (start_from lsp_linear 0 10) (j + 5)
          +ℤ part cdbk_nb i0 10 (j + 5) 5
          +ℤ part cdbk_nb_high1 i3 5 j 4
          +ℤ part cdbk_nb_high2 i4 5 j 3
  pub fits : (j : ℕ) → Within 30720 (entry lsp j)

nb_lower :
    (i0 i1 i2 i3 i4 : ℕ) (start a b c d e : List ℤ)
    → IsAdded cdbk_nb (i0 * 10) 5 0 0 10 start a
    → IsAdded cdbk_nb_low1 (i1 * 5) 4 0 0 5 a b
    → IsAdded cdbk_nb_low2 (i2 * 5) 3 0 0 5 b c
    → IsAdded cdbk_nb_high1 (i3 * 5) 4 5 0 5 c d
    → IsAdded cdbk_nb_high2 (i4 * 5) 3 5 0 5 d e
    → (j : ℕ) → j < 5
    → entry e j
      ≡ entry start j
        +ℤ part cdbk_nb i0 10 j 5
        +ℤ part cdbk_nb_low1 i1 5 j 4
        +ℤ part cdbk_nb_low2 i2 5 j 3
nb_lower i0 i1 i2 i3 i4 start a b c d e pa pb pc pd pe j h =
    rw
      (
        pe.kept j (inl (omega arith)),
        pd.kept j (inl (omega arith)),
        IsAdded-at cdbk_nb_low2 (i2 * 5) 3 0 5 b c pc j j (omega arith) h,
        IsAdded-at cdbk_nb_low1 (i1 * 5) 4 0 5 a b pb j j (omega arith) h,
        IsAdded-at cdbk_nb (i0 * 10) 5 0 10 start a pa j j (omega arith) (omega arith),
      )
      refl

nb_upper :
    (i0 i1 i2 i3 i4 : ℕ) (start a b c d e : List ℤ)
    → IsAdded cdbk_nb (i0 * 10) 5 0 0 10 start a
    → IsAdded cdbk_nb_low1 (i1 * 5) 4 0 0 5 a b
    → IsAdded cdbk_nb_low2 (i2 * 5) 3 0 0 5 b c
    → IsAdded cdbk_nb_high1 (i3 * 5) 4 5 0 5 c d
    → IsAdded cdbk_nb_high2 (i4 * 5) 3 5 0 5 d e
    → (j : ℕ) → j < 5
    → entry e (j + 5)
      ≡ entry start (j + 5)
        +ℤ part cdbk_nb i0 10 (j + 5) 5
        +ℤ part cdbk_nb_high1 i3 5 j 4
        +ℤ part cdbk_nb_high2 i4 5 j 3
nb_upper i0 i1 i2 i3 i4 start a b c d e pa pb pc pd pe j h =
    rw
      (
        IsAdded-at cdbk_nb_high2 (i4 * 5) 3 5 5 d e pe (j + 5) j refl h,
        IsAdded-at cdbk_nb_high1 (i3 * 5) 4 5 5 c d pd (j + 5) j refl h,
        pc.kept (j + 5) (inr (omega arith)),
        pb.kept (j + 5) (inr (omega arith)),
        IsAdded-at cdbk_nb (i0 * 10) 5 0 10 start a pa (j + 5) (j + 5) (omega arith) (omega arith),
      )
      refl

-- lsp_unquant_nb of order 10, on every stream whose announced bits are in memory, never faults
-- and reads exactly five indices of 6 bits. Each of the 10 entries is the exact integer sum of
-- its linear start value and the entries that the indices select, times 32, 16 and 8: five of
-- the low and five of the high codebooks. No entry exceeds 30720, so no 16-bit sum wraps.
pub lsp_unquant_nb_lem :
    (s0 : SpeexBits)
    → IsReadable s0
    → let s1 = after_index s0 in
      let s2 = after_index s1 in
      let s3 = after_index s2 in
      let s4 = after_index s3 in
      (lsp : List ℤ) × (lsp_unquant_nb 10 s0 ≡ ok (lsp, after_index s4))
      × IsDecodedNb (index s0) (index s1) (index s2) (index s3) (index s4) lsp
      × IsReadable (after_index s4)
unfolding lsp_unquant_nb
lsp_unquant_nb_lem s0 r =
    let start = start_from lsp_linear 0 10 in
    let s1 = after_index s0 in
    let s2 = after_index s1 in
    let s3 = after_index s2 in
    let s4 = after_index s3 in
    let (a, ea, pa, ia) =
      stage-IsStage cdbk_nb 10 10 5 0 20480 start s0 cdbk_nb-IsCodebook (omega arith) (omega arith)
        (start_nb-IsStage s0 r) in
    let (b, eb, pb, ib) =
      stage-IsStage cdbk_nb_low1 10 5 4 0 24576 a s1 cdbk_nb_low1-IsCodebook (omega arith)
        (omega arith) ia in
    let (c, ec, pc, ic) =
      stage-IsStage cdbk_nb_low2 10 5 3 0 26624 b s2 cdbk_nb_low2-IsCodebook (omega arith)
        (omega arith) ib in
    let (d, ed, pd, id) =
      stage-IsStage cdbk_nb_high1 10 5 4 5 27648 c s3 cdbk_nb_high1-IsCodebook (omega arith)
        (omega arith) ic in
    let (e, ee, pe, ie) =
      stage-IsStage cdbk_nb_high2 10 5 3 5 29696 d s4 cdbk_nb_high2-IsCodebook (omega arith)
        (omega arith) id in
    (
      e,
      rw (ea, eb, ec, ed, ee) refl,
      record {
        size = ie.size;
        lower =
            nb_lower (index s0) (index s1) (index s2) (index s3) (index s4) start a b c d e pa pb pc
              pd pe;
        upper =
            nb_upper (index s0) (index s1) (index s2) (index s3) (index s4) start a b c d e pa pb pc
              pd pe;
        fits = ie.fits;
      },
      ie.readable,
    )
