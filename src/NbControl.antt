-- ===== src/NbControl.antt =====
-- libspeex/nb_celp.c: the requests to a narrowband encoder that set or read a parameter. Requests
-- for floats and arrays, the float state of the average bit-rate and the reset are left out. An access
-- outside an array and an int32 product that overflows are a `fault`.
pub mod Rate
pub mod Quality
pub mod Checks
mod Examples
use speex.Common.{
  ℕ, zero, suc, ◌+◌, ◌-◌, ◌*◌, ◌/◌, ◌^◌, List, Option, none, some, Bool, true, false, ltb, leb,
  ◌==◌, ◌&&◌, if◌then◌else◌,
}
use speex.Common.{
  ℤ, pos, negsuc, neg, pos_part, neg_part, ◌*ℤ◌, ltb_ℤ, Result, ok, fault, ◌>>=◌, load,
}
use speex.Modes.{SpeexSubmode, SpeexNbMode}

-- Of `EncState`, what the requests below set.
pub record EncState : Type 0 where
  pub submode_id : ℤ
  pub submode_select : ℤ
  pub complexity : ℤ
  pub sampling_rate : ℤ
  pub encode_submode : ℤ
  pub plc_tuning : ℤ
  pub vbr_enabled : ℤ
  pub vad_enabled : ℤ
  pub dtx_enabled : ℤ
  pub abr_enabled : ℤ
  pub vbr_quality : ℤ
  pub vbr_max : ℤ
  pub highpass_enabled : ℤ
  pub is_wideband : ℤ

pub data Request : Type 0 where
  get_frame_size : Request
  set_mode : ℤ → Request
  get_mode : Request
  set_vbr : ℤ → Request
  get_vbr : Request
  set_vad : ℤ → Request
  get_vad : Request
  set_dtx : ℤ → Request
  get_dtx : Request
  set_abr : ℤ → Request
  get_abr : Request
  set_quality : ℤ → Request
  set_complexity : ℤ → Request
  get_complexity : Request
  set_bitrate : ℤ → Request
  get_bitrate : Request
  set_sampling_rate : ℤ → Request
  get_sampling_rate : Request
  set_submode_encoding : ℤ → Request
  get_submode_encoding : Request
  get_lookahead : Request
  set_plc_tuning : ℤ → Request
  get_plc_tuning : Request
  set_vbr_max_bitrate : ℤ → Request
  get_vbr_max_bitrate : Request
  set_highpass : ℤ → Request
  get_highpass : Request
  set_wideband : ℤ → Request
  unknown_request : Request

unfoldable pub clamp_quality : ℤ → ℕ
clamp_quality (negsuc n) = 0
clamp_quality (pos n) = if ltb 10 n then 10 else n

unfoldable pub select_quality : SpeexNbMode → ℤ → EncState → Result EncState
unfolding clamp_quality
select_quality m quality st = do
  id ← load m.quality_map (clamp_quality quality)
  ok (record st { submode_id = pos id; submode_select = pos id })

-- A signed product in 32 bits.
unfoldable pub mul32 : ℤ → ℕ → Result ℤ
unfolding ◌*ℤ◌
mul32 a b =
    let p = a *ℤ pos b in
    if ltb (pos_part p) (2 ^ 31) && leb (neg_part p) (2 ^ 31) then ok p else fault

-- `/` of C truncates.
unfoldable pub quotient : ℤ → ℕ → ℤ
quotient (pos n) d = pos (n / d)
quotient (negsuc n) d = neg (suc n / d)

-- st->submodes[st->submodeID], a pointer; NB_SUBMODE_BITS is 4.
unfoldable pub current_bits : List (Option SpeexSubmode) → ℤ → Result ℕ
current_bits submodes (negsuc n) = fault
current_bits submodes (pos n) = load submodes n >>= λ m. ok (bits m)
  where
    bits : Option SpeexSubmode → ℕ
    bits none = 5
    bits (some m) = m.bits_per_frame

unfoldable pub bitrate : SpeexNbMode → EncState → Result ℤ
unfolding current_bits mul32 quotient
bitrate m st = do
  n ← current_bits m.submodes st.submode_id
  p ← mul32 st.sampling_rate n
  ok (quotient p 160)

-- The state behind the search, and the index that it stops at.
pub record Search : Type 0 where
  pub state : EncState
  pub index : ℤ

-- while (i>=0) { .. i--; } from i = n - 1
unfoldable pub search_rate : SpeexNbMode → ℤ → ℕ → EncState → Result Search
unfolding select_quality bitrate
search_rate m target zero st = ok (record { state = st; index = negsuc 0 })
search_rate m target (suc i) st = do
  st' ← select_quality m (pos i) st
  rate ← bitrate m st'
  let rest = search_rate m target i st'
  if ltb_ℤ target rate then rest else ok (record { state = st'; index = pos i })

unfoldable pub enable_abr : SpeexNbMode → ℤ → EncState → Result EncState
unfolding search_rate
enable_abr m (pos zero) st = ok (record st { abr_enabled = pos 0; vbr_enabled = pos 0 })
enable_abr m target st = do
  r ← search_rate m target 11 (record st { abr_enabled = target; vbr_enabled = pos 1 })
  ok (record (r.state) { vbr_quality = pos (pos_part r.index) })

-- What the call returns, the int behind its pointer where it writes one, and the state.
pub record Reply : Type 0 where
  pub ret : ℤ
  pub value : Option ℤ
  pub state : EncState

abbrev pub done : EncState → Result Reply
done st = ok (record { ret = pos 0; value = none; state = st })

abbrev pub gives : ℤ → EncState → Result Reply
gives z st = ok (record { ret = pos 0; value = some z; state = st })

unfoldable pub at_least_0 : ℤ → ℤ
at_least_0 (pos n) = pos n
at_least_0 (negsuc n) = pos 0

unfoldable pub at_most_100 : ℤ → ℤ
at_most_100 z = if ltb_ℤ (pos 100) z then pos 100 else z

unfoldable pub nb_encoder_ctl : SpeexNbMode → Request → EncState → Result Reply
unfolding select_quality bitrate search_rate enable_abr at_least_0 at_most_100
nb_encoder_ctl m get_frame_size st = gives (pos 160) st
nb_encoder_ctl m (set_mode v) st = done (record st { submode_id = v; submode_select = v })
nb_encoder_ctl m get_mode st = gives st.submode_id st
nb_encoder_ctl m (set_vbr v) st = done (record st { vbr_enabled = v })
nb_encoder_ctl m get_vbr st = gives st.vbr_enabled st
nb_encoder_ctl m (set_vad v) st = done (record st { vad_enabled = v })
nb_encoder_ctl m get_vad st = gives st.vad_enabled st
nb_encoder_ctl m (set_dtx v) st = done (record st { dtx_enabled = v })
nb_encoder_ctl m get_dtx st = gives st.dtx_enabled st
nb_encoder_ctl m (set_abr v) st = enable_abr m v st >>= λ st'. done st'
nb_encoder_ctl m get_abr st = gives st.abr_enabled st
nb_encoder_ctl m (set_quality v) st = select_quality m v st >>= λ st'. done st'
nb_encoder_ctl m (set_complexity v) st = done (record st { complexity = at_least_0 v })
nb_encoder_ctl m get_complexity st = gives st.complexity st
nb_encoder_ctl m (set_bitrate v) st = search_rate m v 11 st >>= λ r. done r.state
nb_encoder_ctl m get_bitrate st = bitrate m st >>= λ z. gives z st
nb_encoder_ctl m (set_sampling_rate v) st = done (record st { sampling_rate = v })
nb_encoder_ctl m get_sampling_rate st = gives st.sampling_rate st
nb_encoder_ctl m (set_submode_encoding v) st = done (record st { encode_submode = v })
nb_encoder_ctl m get_submode_encoding st = gives st.encode_submode st
nb_encoder_ctl m get_lookahead st = gives (pos 40) st
nb_encoder_ctl m (set_plc_tuning v) st = done (record st { plc_tuning = at_most_100 v })
nb_encoder_ctl m get_plc_tuning st = gives st.plc_tuning st
nb_encoder_ctl m (set_vbr_max_bitrate v) st = done (record st { vbr_max = v })
nb_encoder_ctl m get_vbr_max_bitrate st = gives st.vbr_max st
nb_encoder_ctl m (set_highpass v) st = done (record st { highpass_enabled = v })
nb_encoder_ctl m get_highpass st = gives st.highpass_enabled st
nb_encoder_ctl m (set_wideband v) st = done (record st { is_wideband = v })
nb_encoder_ctl m unknown_request st = ok (record { ret = negsuc 0; value = none; state = st })
