-- ===== src/SbDecode/Layout.antt =====
-- The high band of the wideband and ultra-wideband modes, on every stream.
use mathlib.Core.Bool.{true≢false}
use speex.Common.{
  ℕ, zero, suc, ◌/◌, ◌+◌, ◌*◌, ◌≤◌, ◌<◌, ◌≡◌, refl, sym, ◌∙◌, arith, get_elem?, false, none, some,
}
use speex.CbSearch.{split_cb_high, split_cb_high_lbr}
use speex.CbSearch.Inside.{of_high, of_high_lbr}
use speex.NbDecode.Reading.{split_cb-Consumes}
use speex.Modes.{SpeexSubmode, SpeexSbMode, lsp_high}
use speex.Modes.Wide.{sb_wb_mode, sb_uwb_mode, wb_submode1, wb_submode2, wb_submode3, wb_submode4}
use speex.SbDecode.{has_coder}
use speex.SbDecode.Reading.{ReadsInnovation, sb_subframe_bits}

pub data SbMode : Type 0 where
  of_wb : SbMode
  of_uwb : SbMode

abbrev pub sb_mode : SbMode → SpeexSbMode
sb_mode of_wb = sb_wb_mode
sb_mode of_uwb = sb_uwb_mode

-- What is known of a sub-mode that a mode lists.
pub record IsSubmode (mode : SpeexSbMode) (m : SpeexSubmode) : Type 0 where
  pub innov : ℕ
  pub reads : ReadsInnovation m innov
  pub room : 40 ≤ mode.subframe_size
  pub order : mode.lpc_size ≡ 8
  pub high : m.lsp ≡ lsp_high
  pub total :
      4
        + (12
            + mode.frame_size
              / mode.subframe_size
              * sb_subframe_bits m innov mode.subframe_size reads room)
      ≡ m.bits_per_frame

no_coder : (m : SpeexSubmode) → has_coder m.innovation ≡ false → ReadsInnovation m 0
no_coder m e e' = absurd (true≢false (sym e' ∙ e))

lbr_coder : ReadsInnovation wb_submode2 20
unfolding wb_submode2 split_cb_high_lbr
lbr_coder e = split_cb-Consumes of_high_lbr

high_coder3 : ReadsInnovation wb_submode3 40
unfolding wb_submode3 split_cb_high
high_coder3 e = split_cb-Consumes of_high

high_coder4 : ReadsInnovation wb_submode4 40
unfolding wb_submode4 split_cb_high
high_coder4 e = split_cb-Consumes of_high

wb1-IsSubmode : IsSubmode sb_wb_mode wb_submode1
unfolding sb_wb_mode wb_submode1 has_coder
wb1-IsSubmode = record {
  innov = 0;
  reads = no_coder wb_submode1 refl;
  room = omega arith;
  order = refl;
  high = refl;
  total = refl;
}

wb2-IsSubmode : IsSubmode sb_wb_mode wb_submode2
unfolding sb_wb_mode wb_submode2 has_coder
wb2-IsSubmode = record {
  innov = 20;
  reads = lbr_coder;
  room = omega arith;
  order = refl;
  high = refl;
  total = refl;
}

wb3-IsSubmode : IsSubmode sb_wb_mode wb_submode3
unfolding sb_wb_mode wb_submode3 has_coder
wb3-IsSubmode = record {
  innov = 40;
  reads = high_coder3;
  room = omega arith;
  order = refl;
  high = refl;
  total = refl;
}

wb4-IsSubmode : IsSubmode sb_wb_mode wb_submode4
unfolding sb_wb_mode wb_submode4 has_coder
wb4-IsSubmode = record {
  innov = 40;
  reads = high_coder4;
  room = omega arith;
  order = refl;
  high = refl;
  total = refl;
}

uwb1-IsSubmode : IsSubmode sb_uwb_mode wb_submode1
unfolding sb_uwb_mode wb_submode1 has_coder
uwb1-IsSubmode = record {
  innov = 0;
  reads = no_coder wb_submode1 refl;
  room = omega arith;
  order = refl;
  high = refl;
  total = refl;
}

-- Every place of the array is empty or holds such a sub-mode.
pub data IsListed (mode : SpeexSbMode) (id : ℕ) : Type 0 where
  empty : get_elem? mode.submodes id ≡ some none → IsListed mode id
  holds :
      (m : SpeexSubmode)
      → get_elem? mode.submodes id ≡ some (some m)
      → IsSubmode mode m
      → IsListed mode id

sb_wb_mode-IsListed : (id : ℕ) → id < 8 → IsListed sb_wb_mode id
unfolding sb_wb_mode
sb_wb_mode-IsListed zero h = empty refl
sb_wb_mode-IsListed (suc zero) h = holds wb_submode1 refl wb1-IsSubmode
sb_wb_mode-IsListed (suc (suc zero)) h = holds wb_submode2 refl wb2-IsSubmode
sb_wb_mode-IsListed (suc (suc (suc zero))) h = holds wb_submode3 refl wb3-IsSubmode
sb_wb_mode-IsListed (suc (suc (suc (suc zero)))) h = holds wb_submode4 refl wb4-IsSubmode
sb_wb_mode-IsListed (suc (suc (suc (suc (suc zero))))) h = empty refl
sb_wb_mode-IsListed (suc (suc (suc (suc (suc (suc zero)))))) h = empty refl
sb_wb_mode-IsListed (suc (suc (suc (suc (suc (suc (suc zero))))))) h = empty refl
sb_wb_mode-IsListed (suc (suc (suc (suc (suc (suc (suc (suc id)))))))) h = absurd (omega arith)

sb_uwb_mode-IsListed : (id : ℕ) → id < 8 → IsListed sb_uwb_mode id
unfolding sb_uwb_mode
sb_uwb_mode-IsListed zero h = empty refl
sb_uwb_mode-IsListed (suc zero) h = holds wb_submode1 refl uwb1-IsSubmode
sb_uwb_mode-IsListed (suc (suc zero)) h = empty refl
sb_uwb_mode-IsListed (suc (suc (suc zero))) h = empty refl
sb_uwb_mode-IsListed (suc (suc (suc (suc zero)))) h = empty refl
sb_uwb_mode-IsListed (suc (suc (suc (suc (suc zero))))) h = empty refl
sb_uwb_mode-IsListed (suc (suc (suc (suc (suc (suc zero)))))) h = empty refl
sb_uwb_mode-IsListed (suc (suc (suc (suc (suc (suc (suc zero))))))) h = empty refl
sb_uwb_mode-IsListed (suc (suc (suc (suc (suc (suc (suc (suc id)))))))) h = absurd (omega arith)

pub sb_mode-IsListed : (k : SbMode) (id : ℕ) → id < 8 → IsListed (sb_mode k) id
sb_mode-IsListed of_wb id h = sb_wb_mode-IsListed id h
sb_mode-IsListed of_uwb id h = sb_uwb_mode-IsListed id h

pub unlisted : (k : SbMode) → get_elem? (sb_mode k).submodes 0 ≡ some none
unfolding sb_wb_mode sb_uwb_mode
unlisted of_wb = refl
unlisted of_uwb = refl
