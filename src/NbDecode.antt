-- ===== src/NbDecode.antt =====
-- libspeex/nb_celp.c and libspeex/ltp.c: what nb_decode takes from the stream behind the sub-mode,
-- in the fixed-point build, where no frame was lost before. The synthesis of the samples is left
-- out. Accesses outside an array and through a null pointer are a `fault`.
pub mod Parts
pub mod Reading
pub mod Layout
mod Examples
use speex.Common.{
  ℕ, zero, suc, ◌+◌, ◌-◌, ◌*◌, List, [], ◌∷◌, ℤ, pos, negsuc, Bool, true, false, Option, none, some,
}
use speex.Common.{
  ◌==◌, ltb, if◌then◌else◌, Result, ok, fault, ◌>>=◌, load, replicate, pos_part, neg_part,
}
use speex.Fixed.{shl16, add16, mult16_16_p15, mult16_32_q14, mult16_32_q15}
use speex.Bits.{SpeexBits, unpack_unsigned}
use speex.Lsp.{lsp_unquant_nb, lsp_unquant_lbr, lsp_unquant_high}
use speex.CbSearch.{SplitCbParams, split_cb_shape_sign_unquant, noise_codebook_unquant}
use speex.Modes.{
  SpeexSubmode, LtpParams, LspCoder, lsp_nb, lsp_lbr, lsp_high, LtpCoder, forced_pitch, pitch_3tap,
  noise_codebook, split_cb, InnovationCoder,
}

unfoldable pub ol_gain_table : List ℤ
ol_gain_table =
    pos 18900
    ∷ pos 25150
    ∷ pos 33468
    ∷ pos 44536
    ∷ pos 59265
    ∷ pos 78865
    ∷ pos 104946
    ∷ pos 139653
    ∷ pos 185838
    ∷ pos 247297
    ∷ pos 329081
    ∷ pos 437913
    ∷ pos 582736
    ∷ pos 775454
    ∷ pos 1031906
    ∷ pos 1373169
    ∷ pos 1827293
    ∷ pos 2431601
    ∷ pos 3235761
    ∷ pos 4305867
    ∷ pos 5729870
    ∷ pos 7624808
    ∷ pos 10146425
    ∷ pos 13501971
    ∷ pos 17967238
    ∷ pos 23909222
    ∷ pos 31816294
    ∷ pos 42338330
    ∷ pos 56340132
    ∷ pos 74972501
    ∷ pos 99766822
    ∷ pos 132760927
    ∷ []

unfoldable pub exc_gain_quant_scal3 : List ℤ
exc_gain_quant_scal3 =
    pos 1002 ∷ pos 2680 ∷ pos 5086 ∷ pos 7016 ∷ pos 9108 ∷ pos 11781 ∷ pos 15380 ∷ pos 21740 ∷ []

unfoldable pub exc_gain_quant_scal1 : List ℤ
exc_gain_quant_scal1 = pos 11546 ∷ pos 17224 ∷ []

pub record Pitch : Type 0 where
  pub pitch : ℕ
  pub gain : List ℤ

-- The pitch and the gains of the three taps.
unfoldable pub pitch_unquant_3tap : ℕ → Option LtpParams → SpeexBits → Result (Pitch × SpeexBits)
unfolding add16
pitch_unquant_3tap start none bits = fault
pitch_unquant_3tap start (some par) bits = do
  (pitch, bits1) ← unpack_unsigned bits par.pitch_bits
  (gain_index, bits2) ← unpack_unsigned bits1 par.gain_bits
  g0 ← load par.gain_cdbk (gain_index * 4)
  g1 ← load par.gain_cdbk (gain_index * 4 + 1)
  g2 ← load par.gain_cdbk (gain_index * 4 + 2)
  let gain = add16 (pos 32) g0 ∷ add16 (pos 32) g1 ∷ add16 (pos 32) g2 ∷ []
  ok (record { pitch = pitch + start; gain = gain }, bits2)

unfoldable pub at_most_63 : ℤ → ℤ
at_most_63 z = if ltb 63 (pos_part z) then pos 63 else z

unfoldable pub forced_pitch_unquant : ℕ → ℤ → SpeexBits → Result (Pitch × SpeexBits)
unfolding at_most_63
forced_pitch_unquant start pitch_coef bits =
    ok (record { pitch = start; gain = pos 0 ∷ at_most_63 pitch_coef ∷ pos 0 ∷ [] }, bits)

unfoldable pub ltp_unquant :
    Option LtpCoder → Option LtpParams → ℕ → ℤ → SpeexBits → Result (Pitch × SpeexBits)
unfolding pitch_unquant_3tap forced_pitch_unquant
ltp_unquant none par pit_min pitch_coef bits = fault
ltp_unquant (some pitch_3tap) par pit_min pitch_coef bits = pitch_unquant_3tap pit_min par bits
ltp_unquant (some forced_pitch) par pit_min pitch_coef bits =
    forced_pitch_unquant pit_min pitch_coef bits

-- Where the search for the pitch of a subframe starts; NB_PITCH_START is 17.
unfoldable pub pit_min : ℤ → ℕ → ℕ
pit_min (negsuc n) ol_pitch = if n == 0 then 17 else ol_pitch + (n + 1) + 1
pit_min (pos zero) ol_pitch = ol_pitch
pit_min (pos (suc n)) ol_pitch = if ltb (ol_pitch - n) 17 then 17 else ol_pitch - n

-- The line spectral pairs of `order` coefficients.
unfoldable pub lsp_unquant : LspCoder → ℕ → SpeexBits → Result (List ℤ × SpeexBits)
unfolding lsp_unquant_nb lsp_unquant_lbr lsp_unquant_high
lsp_unquant lsp_nb order bits = lsp_unquant_nb order bits
lsp_unquant lsp_lbr order bits = lsp_unquant_lbr order bits
lsp_unquant lsp_high order bits = lsp_unquant_high order bits

-- The samples of a subframe, and the seed of the noise behind them.
pub record Innovation : Type 0 where
  pub innov : List ℤ
  pub seed : ℕ

-- Into the subframe `exc`.
unfoldable pub innovation_unquant :
    Option InnovationCoder
    → Option SplitCbParams
    → List ℤ
    → ℕ
    → SpeexBits
    → Result (Innovation × SpeexBits)
unfolding split_cb_shape_sign_unquant noise_codebook_unquant
innovation_unquant none par exc seed bits = fault
innovation_unquant (some noise_codebook) par exc seed bits = do
  (innov, seed') ← noise_codebook_unquant exc 0 seed 40
  ok (record { innov = innov; seed = seed' }, bits)
innovation_unquant (some split_cb) none exc seed bits = fault
innovation_unquant (some split_cb) (some par) exc seed bits = do
  (innov, bits') ← split_cb_shape_sign_unquant exc par bits
  ok (record { innov = innov; seed = seed }, bits')

-- The gain of a subframe: 3 bits, 1 bit, or that of the frame.
unfoldable pub subframe_gain : ℕ → ℤ → SpeexBits → Result (ℤ × SpeexBits)
unfolding unpack_unsigned mult16_32_q14 exc_gain_quant_scal3 exc_gain_quant_scal1
subframe_gain have_subframe_gain ol_gain bits =
    if have_subframe_gain == 3
    then (unpack_unsigned bits 3 >>= λ (q_energy, bits').
        load exc_gain_quant_scal3 q_energy >>= λ g. ok (mult16_32_q14 g ol_gain, bits'))
    else if have_subframe_gain == 1
    then (unpack_unsigned bits 1 >>= λ (q_energy, bits').
        load exc_gain_quant_scal1 q_energy >>= λ g. ok (mult16_32_q14 g ol_gain, bits'))
    else ok (ol_gain, bits)

-- The second innovation, where the sub-mode has one.
unfoldable pub second_innovation : SpeexSubmode → ℕ → SpeexBits → Result (Innovation × SpeexBits)
unfolding innovation_unquant
second_innovation m seed bits =
    if m.double_codebook == 0
    then ok (record { innov = []; seed = seed }, bits)
    else innovation_unquant m.innovation m.innovation_params (replicate 40 (pos 0)) seed bits

pub record Subframe : Type 0 where
  pub ltp : Pitch
  pub ener : ℤ
  pub first : Innovation
  pub second : Innovation

-- The parameters of the frame that hold for its four subframes.
pub record Frame : Type 0 where
  pub qlsp : List ℤ
  pub ol_pitch : ℕ
  pub ol_pitch_coef : ℤ
  pub ol_gain : ℤ
  pub dtx_enabled : Bool

unfoldable pub read_subframe : SpeexSubmode → Frame → ℕ → SpeexBits → Result (Subframe × SpeexBits)
unfolding ltp_unquant pit_min subframe_gain innovation_unquant second_innovation
read_subframe m f seed bits = do
  (p, bits1) ← ltp_unquant m.ltp m.ltp_params (pit_min m.lbr_pitch f.ol_pitch) f.ol_pitch_coef bits
  (ener, bits2) ← subframe_gain m.have_subframe_gain f.ol_gain bits1
  (a, bits3) ← innovation_unquant m.innovation m.innovation_params (replicate 40 (pos 0)) seed bits2
  (b, bits4) ← second_innovation m a.seed bits3
  ok (record { ltp = p; ener = ener; first = a; second = b }, bits4)

-- for (sub=..;sub<NB_NB_SUBFRAMES;sub++), with `left` subframes left
unfoldable pub read_subframes :
    SpeexSubmode → Frame → ℕ → SpeexBits → ℕ → Result (List Subframe × SpeexBits)
unfolding read_subframe
read_subframes m f seed bits zero = ok ([], bits)
read_subframes m f seed bits (suc left) = do
  (x, bits1) ← read_subframe m f seed bits
  (rest, bits2) ← read_subframes m f x.second.seed bits1 left
  ok (x ∷ rest, bits2)

unfoldable pub read_ol_pitch : ℤ → SpeexBits → Result (ℕ × SpeexBits)
unfolding unpack_unsigned
read_ol_pitch (negsuc zero) bits = ok (0, bits)
read_ol_pitch lbr_pitch bits = unpack_unsigned bits 7 >>= λ (n, bits'). ok (17 + n, bits')

unfoldable pub read_pitch_coef : ℕ → SpeexBits → Result (ℤ × SpeexBits)
unfolding unpack_unsigned mult16_16_p15 shl16
read_pitch_coef zero bits = ok (pos 0, bits)
read_pitch_coef (suc n) bits = unpack_unsigned bits 4 >>= λ (quant, bits').
    ok (mult16_16_p15 (pos 2185) (shl16 (pos quant) 6), bits')

unfoldable pub read_ol_gain : SpeexBits → Result (ℤ × SpeexBits)
unfolding unpack_unsigned mult16_32_q15 ol_gain_table
read_ol_gain bits = do
  (qe, bits') ← unpack_unsigned bits 5
  g ← load ol_gain_table qe
  ok (mult16_32_q15 (pos 28406) g, bits')

unfoldable pub read_dtx : ℕ → SpeexBits → Result (Bool × SpeexBits)
unfolding unpack_unsigned
read_dtx submode_id bits =
    if submode_id == 1
    then (unpack_unsigned bits 4 >>= λ (extra, bits'). ok (extra == 15, bits'))
    else ok (false, bits)

unfoldable pub read_frame : SpeexSubmode → ℕ → SpeexBits → Result (Frame × SpeexBits)
unfolding lsp_unquant read_ol_pitch read_pitch_coef read_ol_gain read_dtx
read_frame m submode_id bits = do
  (qlsp, bits1) ← lsp_unquant m.lsp 10 bits
  (ol_pitch, bits2) ← read_ol_pitch m.lbr_pitch bits1
  (coef, bits3) ← read_pitch_coef m.forced_pitch_gain bits2
  (ol_gain, bits4) ← read_ol_gain bits3
  (dtx, bits5) ← read_dtx submode_id bits4
  ok (
    record {
      qlsp = qlsp;
      ol_pitch = ol_pitch;
      ol_pitch_coef = coef;
      ol_gain = ol_gain;
      dtx_enabled = dtx;
    },
    bits5,
  )

pub record Decoded : Type 0 where
  pub frame : Frame
  pub subframes : List Subframe

-- Behind the sub-mode, with the seed of the noise.
unfoldable pub nb_decode_fields : SpeexSubmode → ℕ → ℕ → SpeexBits → Result (Decoded × SpeexBits)
unfolding read_frame read_subframes
nb_decode_fields m submode_id seed bits = do
  (f, bits1) ← read_frame m submode_id bits
  (subframes, bits2) ← read_subframes m f seed bits1 4
  ok (record { frame = f; subframes = subframes }, bits2)
