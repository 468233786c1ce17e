-- ===== src/SbDecode.antt =====
-- libspeex/sb_celp.c: what sb_decode reads of the high band, behind the narrowband frame, in the
-- fixed-point build. The synthesis is left out. Accesses outside an array are a `fault`.
pub mod Reading
pub mod Layout
pub mod Layer
mod Examples
use speex.Common.{
  ℕ, zero, suc, ◌/◌, List, [], ◌∷◌, ℤ, pos, Bool, true, false, not, ◌&&◌, Option, none, some,
}
use speex.Common.{◌==◌, ltb_ℤ, if◌then◌else◌, Result, ok, fault, ◌>>=◌, load, replicate}
use speex.Fixed.{extract16, mult16_16_q15, mult16_16_p14}
use speex.Bits.{SpeexBits, unpack_unsigned, peek, remaining}
use speex.Modes.{SpeexSubmode, SpeexSbMode, InnovationCoder}
use speex.NbDecode.{Innovation, lsp_unquant, innovation_unquant}

unfoldable pub gc_quant_bound : List ℤ
gc_quant_bound =
    pos 125
    ∷ pos 164
    ∷ pos 215
    ∷ pos 282
    ∷ pos 370
    ∷ pos 484
    ∷ pos 635
    ∷ pos 832
    ∷ pos 1090
    ∷ pos 1428
    ∷ pos 1871
    ∷ pos 2452
    ∷ pos 3213
    ∷ pos 4210
    ∷ pos 5516
    ∷ pos 7228
    ∷ []

-- The wideband bit and the sub-mode behind it; `id` is st->submodeID.
unfoldable pub read_submode : Bool → ℕ → SpeexBits → Result (ℕ × SpeexBits)
unfolding remaining peek unpack_unsigned
read_submode encode_submode id bits =
    if encode_submode
    then (do
      (wideband, bits1) ← if ltb_ℤ (pos 0) (remaining bits) then peek bits else ok (0, bits)
      if wideband == 0
          then ok (0, bits1)
          else (do (_, bits2) ← unpack_unsigned bits1 1; unpack_unsigned bits2 3))
    else ok (id, bits)

-- The index of the gain of a folded low band, or the gain and the innovations of a codebook.
pub data SbSubframe : Type 0 where
  folded : ℕ → SbSubframe
  coded : ℤ → Innovation → Innovation → SbSubframe

-- A subframe, and the seed of the noise behind it.
pub record SbRead : Type 0 where
  pub subframe : SbSubframe
  pub seed : ℕ

-- The gain of a subframe of `size` samples.
unfoldable pub codebook_gain : ℕ → ℤ → ℤ
unfolding extract16 mult16_16_q15 mult16_16_p14
codebook_gain size bound =
    let gc = extract16 (mult16_16_q15 (pos 28626) bound) in
    if size == 80 then extract16 (mult16_16_p14 (pos 23170) gc) else gc

unfoldable pub sb_second_innovation :
    SpeexSubmode → ℕ → ℕ → SpeexBits → Result (Innovation × SpeexBits)
unfolding innovation_unquant
sb_second_innovation m size seed bits =
    if m.double_codebook == 0
    then ok (record { innov = []; seed = seed }, bits)
    else innovation_unquant m.innovation m.innovation_params (replicate size (pos 0)) seed bits

unfoldable pub read_coded : SpeexSubmode → ℕ → ℕ → SpeexBits → Result (SbRead × SpeexBits)
unfolding unpack_unsigned gc_quant_bound codebook_gain innovation_unquant sb_second_innovation
read_coded m size seed bits = do
  (qgc, bits1) ← unpack_unsigned bits 4
  bound ← load gc_quant_bound qgc
  (a, bits2) ←
      innovation_unquant m.innovation m.innovation_params (replicate size (pos 0)) seed bits1
  (b, bits3) ← sb_second_innovation m size a.seed bits2
  ok (record { subframe = coded (codebook_gain size bound) a b; seed = b.seed }, bits3)

unfoldable pub read_folded : ℕ → SpeexBits → Result (SbRead × SpeexBits)
unfolding unpack_unsigned
read_folded seed bits = do
  (quant, bits') ← unpack_unsigned bits 5
  ok (record { subframe = folded quant; seed = seed }, bits')

unfoldable pub has_coder : Option InnovationCoder → Bool
has_coder none = false
has_coder (some c) = true

unfoldable pub sb_subframe : SpeexSubmode → ℕ → ℕ → SpeexBits → Result (SbRead × SpeexBits)
unfolding has_coder read_coded read_folded
sb_subframe m size seed bits =
    if has_coder m.innovation then read_coded m size seed bits else read_folded seed bits

-- for (sub=..;sub<st->nbSubframes;sub++), with `left` subframes left
unfoldable pub sb_subframes :
    SpeexSubmode → ℕ → ℕ → SpeexBits → ℕ → Result (List SbSubframe × SpeexBits)
unfolding sb_subframe
sb_subframes m size seed bits zero = ok ([], bits)
sb_subframes m size seed bits (suc left) = do
  (x, bits1) ← sb_subframe m size seed bits
  (rest, bits2) ← sb_subframes m size x.seed bits1 left
  ok (x.subframe ∷ rest, bits2)

pub record SbFields : Type 0 where
  pub qlsp : List ℤ
  pub subframes : List SbSubframe

unfoldable pub sb_fields :
    SpeexSbMode → SpeexSubmode → ℕ → SpeexBits → Result (SbFields × SpeexBits)
unfolding lsp_unquant sb_subframes
sb_fields mode m seed bits = do
  (qlsp, bits1) ← lsp_unquant m.lsp mode.lpc_size bits
  (subframes, bits2) ←
      sb_subframes m mode.subframe_size seed bits1 (mode.frame_size / mode.subframe_size)
  ok (record { qlsp = qlsp; subframes = subframes }, bits2)

-- `invalid` is `return -2`.
pub data SbLayer : Type 0 where
  invalid : SbLayer
  null_layer : SbLayer
  layer : SbFields → SbLayer

unfoldable pub decode_submode :
    SpeexSbMode → Bool → ℕ → Option SpeexSubmode → ℕ → SpeexBits → Result (SbLayer × SpeexBits)
unfolding sb_fields
decode_submode mode encode_submode id none seed bits =
    ok ((if encode_submode && not (id == 0) then invalid else null_layer), bits)
decode_submode mode encode_submode id (some m) seed bits = do
  (x, bits') ← sb_fields mode m seed bits
  ok (layer x, bits')

unfoldable pub sb_decode_layer :
    SpeexSbMode → Bool → ℕ → ℕ → SpeexBits → Result (SbLayer × SpeexBits)
unfolding read_submode decode_submode
sb_decode_layer mode encode_submode submode_id seed bits = do
  (id, bits1) ← read_submode encode_submode submode_id bits
  m ← load mode.submodes id
  decode_submode mode encode_submode id m seed bits1
