-- ===== src/Modes/Wide.antt =====
-- libspeex/modes_wb.c: the wideband and ultra-wideband modes.
use speex.Common.{pos, negsuc, [], ◌∷◌, none, some}
use speex.CbSearch.{split_cb_high, split_cb_high_lbr}
use speex.Modes.{SpeexSubmode, SpeexSbMode, lsp_high, split_cb}

unfoldable pub wb_submode1 : SpeexSubmode
wb_submode1 = record {
  lbr_pitch = pos 0;
  forced_pitch_gain = 0;
  have_subframe_gain = 1;
  double_codebook = 0;
  lsp = lsp_high;
  ltp = none;
  ltp_params = none;
  innovation = none;
  innovation_params = none;
  comb_gain = negsuc 0;
  bits_per_frame = 36;
}

unfoldable pub wb_submode2 : SpeexSubmode
wb_submode2 = record {
  lbr_pitch = pos 0;
  forced_pitch_gain = 0;
  have_subframe_gain = 1;
  double_codebook = 0;
  lsp = lsp_high;
  ltp = none;
  ltp_params = none;
  innovation = some split_cb;
  innovation_params = some split_cb_high_lbr;
  comb_gain = negsuc 0;
  bits_per_frame = 112;
}

unfoldable pub wb_submode3 : SpeexSubmode
wb_submode3 = record {
  lbr_pitch = pos 0;
  forced_pitch_gain = 0;
  have_subframe_gain = 1;
  double_codebook = 0;
  lsp = lsp_high;
  ltp = none;
  ltp_params = none;
  innovation = some split_cb;
  innovation_params = some split_cb_high;
  comb_gain = negsuc 0;
  bits_per_frame = 192;
}

unfoldable pub wb_submode4 : SpeexSubmode
wb_submode4 = record {
  lbr_pitch = pos 0;
  forced_pitch_gain = 0;
  have_subframe_gain = 1;
  double_codebook = 1;
  lsp = lsp_high;
  ltp = none;
  ltp_params = none;
  innovation = some split_cb;
  innovation_params = some split_cb_high;
  comb_gain = negsuc 0;
  bits_per_frame = 352;
}

unfoldable pub sb_wb_mode : SpeexSbMode
sb_wb_mode = record {
  frame_size = 160;
  subframe_size = 40;
  lpc_size = 8;
  gamma1 = 29491;
  gamma2 = 19661;
  lpc_floor = 7;
  folding_gain = 29491;
  submodes =
      none
      ∷ some wb_submode1
      ∷ some wb_submode2
      ∷ some wb_submode3
      ∷ some wb_submode4
      ∷ none
      ∷ none
      ∷ none
      ∷ [];
  default_submode = 3;
  low_quality_map = 1 ∷ 8 ∷ 2 ∷ 3 ∷ 4 ∷ 5 ∷ 5 ∷ 6 ∷ 6 ∷ 7 ∷ 7 ∷ [];
  quality_map = 1 ∷ 1 ∷ 1 ∷ 1 ∷ 1 ∷ 1 ∷ 2 ∷ 2 ∷ 3 ∷ 3 ∷ 4 ∷ [];
  nb_modes = 5;
}

unfoldable pub sb_uwb_mode : SpeexSbMode
sb_uwb_mode = record {
  frame_size = 320;
  subframe_size = 80;
  lpc_size = 8;
  gamma1 = 29491;
  gamma2 = 19661;
  lpc_floor = 7;
  folding_gain = 22938;
  submodes = none ∷ some wb_submode1 ∷ none ∷ none ∷ none ∷ none ∷ none ∷ none ∷ [];
  default_submode = 1;
  low_quality_map = 0 ∷ 1 ∷ 2 ∷ 3 ∷ 4 ∷ 5 ∷ 6 ∷ 7 ∷ 8 ∷ 9 ∷ 10 ∷ [];
  quality_map = 0 ∷ 1 ∷ 1 ∷ 1 ∷ 1 ∷ 1 ∷ 1 ∷ 1 ∷ 1 ∷ 1 ∷ 1 ∷ [];
  nb_modes = 2;
}
