-- ===== src/Callbacks.antt =====
-- libspeex/speex_callbacks.c: the in-band requests.
-- `State` stands for the objects behind `state` and `data`; the codec's controls
-- (speex_encoder_ctl, speex_decoder_ctl) and _speex_putc are parameters that change it.
pub mod Skip
pub mod Stereo
pub mod Standard
mod Examples
use speex.Common.{ℕ, ◌+◌, ◌*◌, List, Option, none, some, ℤ, pos, Result, ok, ◌>>=◌, load}
use speex.Common.{ltb, if◌then◌else◌}
use speex.Bits.{SpeexBits, unpack_unsigned, advance}

-- The controls that a request may set.
pub data Control : Type 0 where
  set_mode : Control
  set_low_mode : Control
  set_high_mode : Control
  set_vbr : Control
  set_enh : Control
  set_vbr_quality : Control

module _ (State : Type 0) where
  -- `int func(bits, state, data)`
  abbrev pub Handler : Type 0
  Handler = SpeexBits → State → Result (ℤ × SpeexBits × State)

-- The bits to skip for a request without a callback.
unfoldable pub skipped : ℕ → ℕ
skipped id =
    if ltb id 2
    then 1
    else if ltb id 8
    then 4
    else if ltb id 10
    then 8
    else if ltb id 12
    then 16
    else if ltb id 14
    then 32
    else 64

module _ {State : Type 0} where
  -- `none` is a callback whose func is NULL.
  unfoldable pub inband_handler : List (Option (Handler State)) → Handler State
  unfolding unpack_unsigned advance skipped
  inband_handler callback_list bits state = do
    (id, bits') ← unpack_unsigned bits 4
    callback ← load callback_list id
    elim callback [
      | some func ↦ func bits' state
      | none ↦ ok (pos 0, advance bits' (skipped id), state)
    ]

  module _ (ctl : Control → ℕ → State → State) where
    unfoldable pub std_mode_request_handler : Handler State
    unfolding unpack_unsigned
    std_mode_request_handler bits state = do
      (m, bits') ← unpack_unsigned bits 4
      ok (pos 0, bits', ctl set_mode m state)

    unfoldable pub std_low_mode_request_handler : Handler State
    unfolding unpack_unsigned
    std_low_mode_request_handler bits state = do
      (m, bits') ← unpack_unsigned bits 4
      ok (pos 0, bits', ctl set_low_mode m state)

    unfoldable pub std_high_mode_request_handler : Handler State
    unfolding unpack_unsigned
    std_high_mode_request_handler bits state = do
      (m, bits') ← unpack_unsigned bits 4
      ok (pos 0, bits', ctl set_high_mode m state)

    unfoldable pub std_vbr_request_handler : Handler State
    unfolding unpack_unsigned
    std_vbr_request_handler bits state = do
      (vbr, bits') ← unpack_unsigned bits 1
      ok (pos 0, bits', ctl set_vbr vbr state)

    unfoldable pub std_enh_request_handler : Handler State
    unfolding unpack_unsigned
    std_enh_request_handler bits state = do
      (enh, bits') ← unpack_unsigned bits 1
      ok (pos 0, bits', ctl set_enh enh state)

    unfoldable pub std_vbr_quality_request_handler : Handler State
    unfolding unpack_unsigned
    std_vbr_quality_request_handler bits state = do
      (qual, bits') ← unpack_unsigned bits 4
      ok (pos 0, bits', ctl set_vbr_quality qual state)

  unfoldable pub std_char_handler : (ℕ → State → State) → Handler State
  unfolding unpack_unsigned
  std_char_handler putc bits state = do
    (ch, bits') ← unpack_unsigned bits 8
    ok (pos 0, bits', putc ch state)

  unfoldable pub default_user_handler : Handler State
  unfolding unpack_unsigned advance
  default_user_handler bits state = do
    (req_size, bits') ← unpack_unsigned bits 4
    ok (pos 0, advance bits' (5 + 8 * req_size), state)
