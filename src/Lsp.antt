-- ===== src/Lsp.antt =====
-- libspeex/quant_lsp.c: decoding the line spectral pairs, in the fixed-point build.
-- An spx_lsp_t is an int16_t in Q13. Codebook reads outside a codebook are a `fault`.
pub mod Stage
pub mod Decode
pub mod Narrow
pub mod LowRate
pub mod High
mod Examples
use speex.Common.{
  ℕ, zero, suc, ◌+◌, ◌*◌, List, [], ◌∷◌, ℤ, pos, ◌+ℤ◌, Result, ok, ◌>>=◌, load, store,
}
use speex.Fixed.{extract16, shl16, add16, mult16_16}
use speex.Bits.{SpeexBits, unpack_unsigned}
use speex.Codebook.LspNb.{cdbk_nb}
use speex.Codebook.LspNbLow.{cdbk_nb_low1, cdbk_nb_low2}
use speex.Codebook.LspNbHigh.{cdbk_nb_high1, cdbk_nb_high2}
use speex.Codebook.LspHigh.{high_lsp_cdbk, high_lsp_cdbk2}

-- `LSP_LINEAR(i)` and `LSP_LINEAR_HIGH(i)`
unfoldable pub lsp_linear : ℕ → ℤ
unfolding shl16
lsp_linear i = shl16 (pos (i + 1)) 11

unfoldable pub lsp_linear_high : ℕ → ℤ
unfolding add16 mult16_16
lsp_linear_high i = add16 (mult16_16 (pos i) (pos 2560)) (pos 6144)

-- for (;i<order;i++) lsp[i]=start(i); on an array of exactly `order` elements
unfoldable pub start_from : (ℕ → ℤ) → ℕ → ℕ → List ℤ
start_from start i zero = []
start_from start i (suc left) = start i ∷ start_from start (i + 1) left

-- for (;i<n;i++) lsp[i+off] += SHL16(cdbk[base+i],k); stored in 16 bits, with `n - i` rounds left
unfoldable pub add_codeword : List ℤ → ℕ → ℕ → ℕ → List ℤ → ℕ → ℕ → Result (List ℤ)
unfolding extract16 shl16 ◌+ℤ◌
add_codeword cdbk base k off lsp i zero = ok lsp
add_codeword cdbk base k off lsp i (suc left) = do
  c ← load cdbk (base + i)
  x ← load lsp (i + off)
  lsp' ← store lsp (i + off) (extract16 (x +ℤ shl16 c k))
  add_codeword cdbk base k off lsp' (i + 1) left

-- One index of 6 bits and the codeword of `dim` entries that it names.
unfoldable pub stage : List ℤ → ℕ → ℕ → ℕ → List ℤ × SpeexBits → Result (List ℤ × SpeexBits)
unfolding add_codeword
stage cdbk dim k off (lsp, bits) = do
  (id, bits') ← unpack_unsigned bits 6
  lsp' ← add_codeword cdbk (id * dim) k off lsp 0 dim
  ok (lsp', bits')

unfoldable pub lsp_unquant_nb : ℕ → SpeexBits → Result (List ℤ × SpeexBits)
unfolding stage start_from
lsp_unquant_nb order bits = do
  a ← stage cdbk_nb 10 5 0 (start_from lsp_linear 0 order, bits)
  b ← stage cdbk_nb_low1 5 4 0 a
  c ← stage cdbk_nb_low2 5 3 0 b
  d ← stage cdbk_nb_high1 5 4 5 c
  stage cdbk_nb_high2 5 3 5 d

unfoldable pub lsp_unquant_lbr : ℕ → SpeexBits → Result (List ℤ × SpeexBits)
unfolding stage start_from
lsp_unquant_lbr order bits = do
  a ← stage cdbk_nb 10 5 0 (start_from lsp_linear 0 order, bits)
  b ← stage cdbk_nb_low1 5 4 0 a
  stage cdbk_nb_high1 5 4 5 b

unfoldable pub lsp_unquant_high : ℕ → SpeexBits → Result (List ℤ × SpeexBits)
unfolding stage start_from
lsp_unquant_high order bits = do
  a ← stage high_lsp_cdbk order 5 0 (start_from lsp_linear_high 0 order, bits)
  stage high_lsp_cdbk2 order 4 0 a
