-- ===== src/Modes.antt =====
-- libspeex/modes.h: the description of a mode and of its sub-modes.
-- A pointer to a quantizer and the one to its decoder are the name of the pair; NULL is `none`.
pub mod Narrow
pub mod Wide
pub mod Query
mod Examples
use speex.Common.{ℕ, ℤ, List, Option}
use speex.CbSearch.{SplitCbParams}

-- `ltp_params` of libspeex/ltp.h
pub record LtpParams : Type 0 where
  pub gain_cdbk : List ℤ
  pub gain_bits : ℕ
  pub pitch_bits : ℕ

pub data LspCoder : Type 0 where
  lsp_nb : LspCoder
  lsp_lbr : LspCoder
  lsp_high : LspCoder

pub data LtpCoder : Type 0 where
  forced_pitch : LtpCoder
  pitch_3tap : LtpCoder

pub data InnovationCoder : Type 0 where
  noise_codebook : InnovationCoder
  split_cb : InnovationCoder

pub record SpeexSubmode : Type 0 where
  pub lbr_pitch : ℤ
  pub forced_pitch_gain : ℕ
  pub have_subframe_gain : ℕ
  pub double_codebook : ℕ
  pub lsp : LspCoder
  pub ltp : Option LtpCoder
  pub ltp_params : Option LtpParams
  pub innovation : Option InnovationCoder
  pub innovation_params : Option SplitCbParams
  pub comb_gain : ℤ
  pub bits_per_frame : ℕ

pub record SpeexNbMode : Type 0 where
  pub frame_size : ℕ
  pub subframe_size : ℕ
  pub lpc_size : ℕ
  pub pitch_start : ℕ
  pub pitch_end : ℕ
  pub gamma1 : ℕ
  pub gamma2 : ℕ
  pub lpc_floor : ℕ
  pub submodes : List (Option SpeexSubmode)
  pub default_submode : ℕ
  pub quality_map : List ℕ

-- Without the embedded mode and the thresholds of variable bit-rate.
pub record SpeexSbMode : Type 0 where
  pub frame_size : ℕ
  pub subframe_size : ℕ
  pub lpc_size : ℕ
  pub gamma1 : ℕ
  pub gamma2 : ℕ
  pub lpc_floor : ℕ
  pub folding_gain : ℕ
  pub submodes : List (Option SpeexSubmode)
  pub default_submode : ℕ
  pub low_quality_map : List ℕ
  pub quality_map : List ℕ
  pub nb_modes : ℕ
