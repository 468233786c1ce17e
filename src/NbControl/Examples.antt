-- ===== src/NbControl/Examples.antt =====
-- Requests to a fresh narrowband encoder.
use speex.Common.{ℕ, ◌≤◌, ◌<◌, ◌≡◌, ◌≢◌, ◌↔◌, refl, arith, ap, pos, pos_part, fault}
use speex.Modes.Narrow.{
  nb_mode, nb_submode1, nb_submode2, nb_submode3, nb_submode4, nb_submode5, nb_submode6,
  nb_submode7, nb_submode8,
}
use speex.NbControl.{
  EncState, set_bitrate, set_abr, set_quality, get_bitrate, done, gives, nb_encoder_ctl,
}
use speex.NbControl.Rate.{rate}
use speex.NbControl.Quality.{
  submode_of, at_quality, IsBestQuality, with_abr, set_bitrate-IsBestQuality, set_abr-IsBestQuality,
}
use speex.NbControl.Checks.{mode_then_bitrate, IsPlace, set_mode-IsPlace, get_bitrate-bounds}

-- As nb_encoder_init leaves it.
abbrev encoder : EncState
encoder = record {
  submode_id = pos 5;
  submode_select = pos 5;
  complexity = pos 2;
  sampling_rate = pos 8000;
  encode_submode = pos 1;
  plc_tuning = pos 2;
  vbr_enabled = pos 0;
  vad_enabled = pos 0;
  dtx_enabled = pos 0;
  abr_enabled = pos 0;
  vbr_quality = pos 8;
  vbr_max = pos 0;
  highpass_enabled = pos 1;
  is_wideband = pos 0;
}

fits_quality4 :
    nb_encoder_ctl nb_mode (set_bitrate (pos 9000)) encoder ≡ done (at_quality 4 encoder)
unfolding nb_encoder_ctl nb_mode nb_submode1 nb_submode2 nb_submode3 nb_submode4 nb_submode5
    nb_submode6 nb_submode7 nb_submode8
fits_quality4 = refl

set_bitrate-IsBestQuality_example :
    (q : ℕ) × (nb_encoder_ctl nb_mode (set_bitrate (pos 9000)) encoder
      ≡ done (at_quality q encoder))
    × (nb_encoder_ctl nb_mode (set_quality (pos q)) encoder ≡ done (at_quality q encoder))
    × (nb_encoder_ctl nb_mode get_bitrate (at_quality q encoder)
        ≡ gives (pos (rate 8000 (submode_of q))) (at_quality q encoder))
    × IsBestQuality 8000 (pos 9000) 11 q
set_bitrate-IsBestQuality_example =
    set_bitrate-IsBestQuality (pos 9000) 8000 encoder refl (omega arith)

on : pos 9000 ≢ pos 0
on e = absurd (nonzero (ap pos_part e))
  where
    nonzero : ◌≢◌ {A = ℕ} 9000 0
    nonzero h = omega arith

set_abr-IsBestQuality_example :
    (q : ℕ) × (nb_encoder_ctl nb_mode (set_abr (pos 9000)) encoder
      ≡ done (record (at_quality q (with_abr (pos 9000) encoder)) { vbr_quality = pos q }))
    × IsBestQuality 8000 (pos 9000) 11 q
set_abr-IsBestQuality_example = set_abr-IsBestQuality (pos 9000) 8000 encoder on refl (omega arith)

set_mode-IsPlace_example : (mode_then_bitrate (pos 16) encoder ≡ fault) ↔ ¬ IsPlace (pos 16)
set_mode-IsPlace_example = set_mode-IsPlace (pos 16) 8000 encoder refl (omega arith)

get_bitrate-bounds_example :
    ((n : ℕ) → n < 16 → mode_then_bitrate (pos n) encoder ≢ fault) ↔ (8000 ≤ 4364804)
get_bitrate-bounds_example = get_bitrate-bounds 8000 encoder refl
