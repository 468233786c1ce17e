-- ===== src/Callbacks/Standard.antt =====
-- The standard handlers and the length of the requests that they answer.
use speex.Common.{ℕ, zero, suc, ◌+◌, ◌<◌, ◌≡◌, ◌≢◌, refl, ap, ◌∙◌, arith}
use speex.Common.{false, List, [], ◌∷◌, get_or, Option, none, some, replicate}
use speex.Common.{ℤ, pos, Result, ok}
use speex.Bits.{SpeexBits}
use speex.Bits.View.{position}
use speex.Bits.Unpack.{IsReadable, overruns}
use speex.Callbacks.{
  Handler, Control, set_mode, set_low_mode, set_high_mode, set_vbr, set_enh, set_vbr_quality,
  skipped, inband_handler, std_mode_request_handler, std_low_mode_request_handler,
  std_high_mode_request_handler, std_vbr_request_handler, std_enh_request_handler,
  std_vbr_quality_request_handler, std_char_handler,
}
use speex.Callbacks.Stereo.{
  RealSpeexStereoState, std_stereo_request_handler, std_stereo_request_handler_lem,
}
use speex.Bits.Field.{skip, field, field-lt, skip-IsReadable, unpack-field}
use speex.Callbacks.Skip.{inband_handler_lem}

-- A handler that returns 0, leaves the stream behind a field of `n` bits and uses the field's value.
abbrev pub Reads : {State : Type 0} → Handler State → ℕ → (ℕ → State → State) → Type 0
Reads {State} h n use_value =
    (s : SpeexBits) (state : State)
    → IsReadable s
    → h s state ≡ ok (pos 0, skip s n, use_value (field s n) state)

module _ {State : Type 0} (ctl : Control → ℕ → State → State) (putc : ℕ → State → State)
    (with_stereo : (RealSpeexStereoState → RealSpeexStereoState) → State → State) where
  std_mode_request_handler-Reads : Reads (std_mode_request_handler ctl) 4 (ctl set_mode)
  unfolding std_mode_request_handler
  std_mode_request_handler-Reads s state r = rw (unpack-field s 4 r (omega arith)) refl

  std_low_mode_request_handler-Reads : Reads (std_low_mode_request_handler ctl) 4 (ctl set_low_mode)
  unfolding std_low_mode_request_handler
  std_low_mode_request_handler-Reads s state r = rw (unpack-field s 4 r (omega arith)) refl

  std_high_mode_request_handler-Reads :
      Reads (std_high_mode_request_handler ctl) 4 (ctl set_high_mode)
  unfolding std_high_mode_request_handler
  std_high_mode_request_handler-Reads s state r = rw (unpack-field s 4 r (omega arith)) refl

  std_vbr_request_handler-Reads : Reads (std_vbr_request_handler ctl) 1 (ctl set_vbr)
  unfolding std_vbr_request_handler
  std_vbr_request_handler-Reads s state r = rw (unpack-field s 1 r (omega arith)) refl

  std_enh_request_handler-Reads : Reads (std_enh_request_handler ctl) 1 (ctl set_enh)
  unfolding std_enh_request_handler
  std_enh_request_handler-Reads s state r = rw (unpack-field s 1 r (omega arith)) refl

  std_vbr_quality_request_handler-Reads :
      Reads (std_vbr_quality_request_handler ctl) 4 (ctl set_vbr_quality)
  unfolding std_vbr_quality_request_handler
  std_vbr_quality_request_handler-Reads s state r = rw (unpack-field s 4 r (omega arith)) refl

  std_char_handler-Reads : Reads (std_char_handler putc) 8 putc
  unfolding std_char_handler
  std_char_handler-Reads s state r = rw (unpack-field s 8 r (omega arith)) refl

  -- Every standard handler of speex_callbacks.h and speex_stereo.h at its request.
  abbrev pub std_callbacks : List (Option (Handler State))
  std_callbacks =
      some (std_enh_request_handler ctl)
      ∷ none
      ∷ some (std_mode_request_handler ctl)
      ∷ some (std_low_mode_request_handler ctl)
      ∷ some (std_high_mode_request_handler ctl)
      ∷ some (std_vbr_quality_request_handler ctl)
      ∷ none
      ∷ some (std_vbr_request_handler ctl)
      ∷ some (std_char_handler putc)
      ∷ some (std_stereo_request_handler with_stereo)
      ∷ none
      ∷ none
      ∷ none
      ∷ none
      ∷ none
      ∷ none
      ∷ []

  -- What the callback of request `id` does to the stream.
  abbrev Answers : ℕ → SpeexBits → State → Type 0
  Answers id s state =
      (state' : State) × (elim (get_or std_callbacks id none)
          as (λ _. Result (ℤ × SpeexBits × State)) [
            | some func ↦ func s state
            | none ↦ ok (pos 0, skip s (skipped id), state)
          ]
        ≡ ok (pos 0, skip s (skipped id), state'))

  std_callbacks-Answers :
      (id : ℕ) (s : SpeexBits) (state : State)
      → IsReadable s
      → id < 16
      → id ≢ 7
      → (id ≡ 9 → overruns s 8 ≡ false)
      → Answers id s state
  unfolding skipped
  std_callbacks-Answers zero s state r h n o =
      (ctl set_enh (field s 1) state, std_enh_request_handler-Reads s state r)
  std_callbacks-Answers (suc zero) s state r h n o = (state, refl)
  std_callbacks-Answers (suc (suc zero)) s state r h n o =
      (ctl set_mode (field s 4) state, std_mode_request_handler-Reads s state r)
  std_callbacks-Answers (suc (suc (suc zero))) s state r h n o =
      (ctl set_low_mode (field s 4) state, std_low_mode_request_handler-Reads s state r)
  std_callbacks-Answers (suc (suc (suc (suc zero)))) s state r h n o =
      (ctl set_high_mode (field s 4) state, std_high_mode_request_handler-Reads s state r)
  std_callbacks-Answers (suc (suc (suc (suc (suc zero))))) s state r h n o =
      (ctl set_vbr_quality (field s 4) state, std_vbr_quality_request_handler-Reads s state r)
  std_callbacks-Answers (suc (suc (suc (suc (suc (suc zero)))))) s state r h n o = (state, refl)
  std_callbacks-Answers (suc (suc (suc (suc (suc (suc (suc zero))))))) s state r h n o =
      absurd (n refl)
  std_callbacks-Answers (suc (suc (suc (suc (suc (suc (suc (suc zero)))))))) s state r h n o =
      (putc (field s 8) state, std_char_handler-Reads s state r)
  std_callbacks-Answers (suc (suc (suc (suc (suc (suc (suc (suc (suc zero))))))))) s state r h n o =
      std_stereo_request_handler_lem with_stereo s state r (o refl)
  std_callbacks-Answers (suc (suc (suc (suc (suc (suc (suc (suc (suc (suc zero)))))))))) s state r h
        n o =
      (state, refl)
  std_callbacks-Answers (suc (suc (suc (suc (suc (suc (suc (suc (suc (suc (suc zero))))))))))) s
        state r h n o =
      (state, refl)
  std_callbacks-Answers (suc (suc (suc (suc (suc (suc (suc (suc (suc (suc (suc (suc zero))))))))))))
        s state r h n o =
      (state, refl)
  std_callbacks-Answers
        (suc (suc (suc (suc (suc (suc (suc (suc (suc (suc (suc (suc (suc zero))))))))))))) s state r
        h n o =
      (state, refl)
  std_callbacks-Answers
        (suc (suc (suc (suc (suc (suc (suc (suc (suc (suc (suc (suc (suc (suc zero)))))))))))))) s
        state r h n o =
      (state, refl)
  std_callbacks-Answers
        (suc
          (suc (suc (suc (suc (suc (suc (suc (suc (suc (suc (suc (suc (suc (suc zero)))))))))))))))
        s state r h n o =
      (state, refl)
  std_callbacks-Answers
        (suc (
          suc
            (suc (suc (suc (suc (suc (suc (suc (suc (suc (suc (suc (suc (suc (suc id))))))))))))))))
        s state r h n o =
      absurd (omega arith)

  get_or-none : (k i : ℕ) → get_or {A = Option (Handler State)} (replicate k none) i none ≡ none
  get_or-none zero i = refl
  get_or-none (suc k) zero = refl
  get_or-none (suc k) (suc i) = get_or-none k i

  unhandled :
      (state : State) (s : SpeexBits) (i : ℕ)
      → elim (get_or {A = Option (Handler State)} (replicate 16 none) i none)
          as (λ _. Result (ℤ × SpeexBits × State)) [
            | some func ↦ func s state
            | none ↦ ok (pos 0, skip s (skipped i), state)
          ]
        ≡ ok (pos 0, skip s (skipped i), state)
  unhandled state s i = rw (get_or-none 16 i) refl

  -- speex_inband_handler on every stream whose announced bits are in memory and whose request is
  -- not number 7, and has its 8 bits left if it is the stereo request, number 9: with every
  -- standard handler registered for its request, the one of stereo.c too, it returns 0 and
  -- leaves the stream exactly as it does with no callback registered at all, where it skips the
  -- request and keeps the state.
  pub inband_handler-std :
      (s : SpeexBits) (state : State)
      → IsReadable s
      → field s 4 ≢ 7
      → (field s 4 ≡ 9 → overruns (skip s 4) 8 ≡ false)
      → (state' : State) × (inband_handler std_callbacks s state
          ≡ ok (pos 0, skip (skip s 4) (skipped (field s 4)), state'))
        × (inband_handler (replicate 16 none) s state
            ≡ ok (pos 0, skip (skip s 4) (skipped (field s 4)), state))
  inband_handler-std s state r n o =
      let (state', e) =
        std_callbacks-Answers (field s 4) (skip s 4) state (skip-IsReadable s 4 r) (field-lt s 4) n
          o in
      (
        state',
        inband_handler_lem std_callbacks refl s state r ∙ e,
        inband_handler_lem (replicate 16 none) refl s state r
            ∙ unhandled state (skip s 4) (field s 4),
      )

  -- speex_inband_handler on a stream with at least 8 bits left whose request is number 7, the
  -- VBR request: with the standard handlers registered it returns 0 and ends 3 bits before the
  -- place where it ends with no callback registered.
  pub inband_handler-vbr :
      (s : SpeexBits) (state : State)
      → IsReadable s
      → field s 4 ≡ 7
      → overruns s 8 ≡ false
      → (end end' : SpeexBits) × (state' : State) × (inband_handler std_callbacks s state
          ≡ ok (pos 0, end, state'))
        × (inband_handler (replicate 16 none) s state ≡ ok (pos 0, end', state))
        × (position end + 3 ≡ position end')
  unfolding skipped
  inband_handler-vbr s state r is_vbr holds = (
    skip (skip s 4) 1,
    skip (skip s 4) 4,
    ctl set_vbr (field (skip s 4) 1) state,
    inband_handler_lem std_callbacks refl s state r
        ∙ rw (is_vbr) (std_vbr_request_handler-Reads (skip s 4) state (skip-IsReadable s 4 r)),
    inband_handler_lem (replicate 16 none) refl s state r
        ∙ unhandled state (skip s 4) (field s 4)
        ∙ ap (λ (t : ℕ). ok (pos 0, skip (skip s 4) (skipped t), state)) is_vbr,
    ground arith,
  )
