-- ===== src/Modes/Narrow.antt =====
-- libspeex/modes.c: the narrowband mode. Fixed-point constants are those of the fixed-point build.
use speex.Common.{pos, negsuc, [], ◌∷◌, none, some}
use speex.CbSearch.{
  split_cb_nb_vlbr, split_cb_nb_ulbr, split_cb_nb_lbr, split_cb_nb, split_cb_nb_med, split_cb_sb,
}
use speex.Codebook.GainNb.{gain_cdbk_nb}
use speex.Codebook.GainLbr.{gain_cdbk_lbr}
use speex.Modes.{
  LtpParams, SpeexSubmode, SpeexNbMode, lsp_nb, lsp_lbr, forced_pitch, pitch_3tap, noise_codebook,
  split_cb,
}

unfoldable pub ltp_params_nb : LtpParams
ltp_params_nb = record { gain_cdbk = gain_cdbk_nb; gain_bits = 7; pitch_bits = 7 }

unfoldable pub ltp_params_vlbr : LtpParams
ltp_params_vlbr = record { gain_cdbk = gain_cdbk_lbr; gain_bits = 5; pitch_bits = 0 }

unfoldable pub ltp_params_lbr : LtpParams
ltp_params_lbr = record { gain_cdbk = gain_cdbk_lbr; gain_bits = 5; pitch_bits = 7 }

unfoldable pub ltp_params_med : LtpParams
ltp_params_med = record { gain_cdbk = gain_cdbk_lbr; gain_bits = 5; pitch_bits = 7 }

unfoldable pub nb_submode1 : SpeexSubmode
nb_submode1 = record {
  lbr_pitch = pos 0;
  forced_pitch_gain = 1;
  have_subframe_gain = 0;
  double_codebook = 0;
  lsp = lsp_lbr;
  ltp = some forced_pitch;
  ltp_params = none;
  innovation = some noise_codebook;
  innovation_params = none;
  comb_gain = negsuc 0;
  bits_per_frame = 43;
}

unfoldable pub nb_submode8 : SpeexSubmode
nb_submode8 = record {
  lbr_pitch = pos 0;
  forced_pitch_gain = 1;
  have_subframe_gain = 0;
  double_codebook = 0;
  lsp = lsp_lbr;
  ltp = some forced_pitch;
  ltp_params = none;
  innovation = some split_cb;
  innovation_params = some split_cb_nb_ulbr;
  comb_gain = pos 16384;
  bits_per_frame = 79;
}

unfoldable pub nb_submode2 : SpeexSubmode
nb_submode2 = record {
  lbr_pitch = pos 0;
  forced_pitch_gain = 0;
  have_subframe_gain = 0;
  double_codebook = 0;
  lsp = lsp_lbr;
  ltp = some pitch_3tap;
  ltp_params = some ltp_params_vlbr;
  innovation = some split_cb;
  innovation_params = some split_cb_nb_vlbr;
  comb_gain = pos 19661;
  bits_per_frame = 119;
}

unfoldable pub nb_submode3 : SpeexSubmode
nb_submode3 = record {
  lbr_pitch = negsuc 0;
  forced_pitch_gain = 0;
  have_subframe_gain = 1;
  double_codebook = 0;
  lsp = lsp_lbr;
  ltp = some pitch_3tap;
  ltp_params = some ltp_params_lbr;
  innovation = some split_cb;
  innovation_params = some split_cb_nb_lbr;
  comb_gain = pos 18022;
  bits_per_frame = 160;
}

unfoldable pub nb_submode4 : SpeexSubmode
nb_submode4 = record {
  lbr_pitch = negsuc 0;
  forced_pitch_gain = 0;
  have_subframe_gain = 1;
  double_codebook = 0;
  lsp = lsp_lbr;
  ltp = some pitch_3tap;
  ltp_params = some ltp_params_med;
  innovation = some split_cb;
  innovation_params = some split_cb_nb_med;
  comb_gain = pos 14746;
  bits_per_frame = 220;
}

unfoldable pub nb_submode5 : SpeexSubmode
nb_submode5 = record {
  lbr_pitch = negsuc 0;
  forced_pitch_gain = 0;
  have_subframe_gain = 3;
  double_codebook = 0;
  lsp = lsp_nb;
  ltp = some pitch_3tap;
  ltp_params = some ltp_params_nb;
  innovation = some split_cb;
  innovation_params = some split_cb_nb;
  comb_gain = pos 8192;
  bits_per_frame = 300;
}

unfoldable pub nb_submode6 : SpeexSubmode
nb_submode6 = record {
  lbr_pitch = negsuc 0;
  forced_pitch_gain = 0;
  have_subframe_gain = 3;
  double_codebook = 0;
  lsp = lsp_nb;
  ltp = some pitch_3tap;
  ltp_params = some ltp_params_nb;
  innovation = some split_cb;
  innovation_params = some split_cb_sb;
  comb_gain = pos 4915;
  bits_per_frame = 364;
}

unfoldable pub nb_submode7 : SpeexSubmode
nb_submode7 = record {
  lbr_pitch = negsuc 0;
  forced_pitch_gain = 0;
  have_subframe_gain = 3;
  double_codebook = 1;
  lsp = lsp_nb;
  ltp = some pitch_3tap;
  ltp_params = some ltp_params_nb;
  innovation = some split_cb;
  innovation_params = some split_cb_nb;
  comb_gain = pos 1638;
  bits_per_frame = 492;
}

unfoldable pub nb_mode : SpeexNbMode
nb_mode = record {
  frame_size = 160;
  subframe_size = 40;
  lpc_size = 10;
  pitch_start = 17;
  pitch_end = 144;
  gamma1 = 30147;
  gamma2 = 19661;
  lpc_floor = 7;
  submodes =
      none
      ∷ some nb_submode1
      ∷ some nb_submode2
      ∷ some nb_submode3
      ∷ some nb_submode4
      ∷ some nb_submode5
      ∷ some nb_submode6
      ∷ some nb_submode7
      ∷ some nb_submode8
      ∷ none
      ∷ none
      ∷ none
      ∷ none
      ∷ none
      ∷ none
      ∷ none
      ∷ [];
  default_submode = 5;
  quality_map = 1 ∷ 8 ∷ 2 ∷ 3 ∷ 3 ∷ 4 ∷ 4 ∷ 5 ∷ 5 ∷ 6 ∷ 7 ∷ [];
}
