-- ===== src/NbControl/Checks.antt =====
-- The sub-mode that SET_MODE stores without a check, and the rates that 32 bits hold.
use native.Mathlib.Decide.{dec_lt}
use mathlib.Core.Bool.{true≢false}
use speex.Common.{ℕ, ◌≤◌, ◌<◌, ◌≡◌, ◌≢◌, ◌↔◌, refl, sym, ap, ◌∙◌, arith}
use speex.Common.{Bool, true, false, ℤ, pos, negsuc, Result, ok, fault, diverges, ◌>>=◌}
use speex.Modes.Narrow.{nb_mode}
use speex.NbControl.{
  EncState, set_mode, get_bitrate, current_bits, mul32, quotient, bitrate, Reply, gives,
  nb_encoder_ctl,
}
use speex.NbControl.Rate.{
  rate, bitrate-inside, current_bits-outside, current_bits-inside, mul32-overflows,
}

-- SET_MODE, then GET_BITRATE.
abbrev pub mode_then_bitrate : ℤ → EncState → Result Reply
mode_then_bitrate id st =
    nb_encoder_ctl nb_mode (set_mode id) st >>= λ r. nb_encoder_ctl nb_mode get_bitrate r.state

-- A sub-mode that has a place in the array.
pub data IsPlace : ℤ → Type 0 where
  in_array : (n : ℕ) → n < 16 → IsPlace (pos n)

bitrate-outside :
    (id : ℤ) (st : EncState) → st.submode_id ≡ id → ¬ IsPlace id → bitrate nb_mode st ≡ fault
unfolding bitrate current_bits
bitrate-outside (pos n) st e ne = rw (e) (
    ap (λ c. c >>= λ b. mul32 st.sampling_rate b >>= λ p. ok (quotient p 160))
      (current_bits-outside n
        (elim (dec_lt n 16) [ yes p ↦ absurd (ne (in_array n p)) | no p ↦ omega arith ])))
bitrate-outside (negsuc n) st e ne = rw (e) refl

bitrate-overflows :
    (r : ℕ) (st : EncState)
    → 4364804 < r
    → st.sampling_rate ≡ pos r
    → st.submode_id ≡ pos 7
    → bitrate nb_mode st ≡ fault
unfolding bitrate
bitrate-overflows r st many e e' =
    rw (e', e, current_bits-inside 7 (omega arith), mul32-overflows r 492 (omega arith)) refl

returns : Result Reply → Bool
returns (ok r) = true
returns fault = false
returns diverges = false

ok-not-fault : (r : Reply) → ok r ≢ fault
unfolding returns
ok-not-fault r e = true≢false (ap returns e)

abbrev with_mode : ℤ → EncState → EncState
with_mode id st = record st { submode_id = id; submode_select = id }

mode_then_bitrate-inside :
    (n r : ℕ) (st : EncState)
    → n < 16
    → st.sampling_rate ≡ pos r
    → r ≤ 4364804
    → mode_then_bitrate (pos n) st ≡ gives (pos (rate r n)) (with_mode (pos n) st)
unfolding nb_encoder_ctl
mode_then_bitrate-inside n r st inside e few =
    rw (bitrate-inside r n (with_mode (pos n) st) few inside e refl) refl

-- SPEEX_SET_MODE followed by SPEEX_GET_BITRATE, to a narrowband encoder whose sampling rate is
-- at least 0 and at most 4364804, reads outside the array of sub-modes exactly if the sub-mode
-- that was set is not one of 0 to 15.
pub set_mode-IsPlace :
    (id : ℤ) (r : ℕ) (st : EncState)
    → st.sampling_rate ≡ pos r
    → r ≤ 4364804
    → (mode_then_bitrate id st ≡ fault) ↔ ¬ IsPlace id
unfolding nb_encoder_ctl
set_mode-IsPlace id r st e few = (
  λ faults place. refute id place faults,
  λ outside. rw (bitrate-outside id (with_mode id st) refl outside) refl,
)
  where
    refute : (id : ℤ) → IsPlace id → mode_then_bitrate id st ≢ fault
    refute id (in_array n inside) faults =
        ok-not-fault _ (sym (mode_then_bitrate-inside n r st inside e few) ∙ faults)

-- For a sampling rate that is not negative, SPEEX_GET_BITRATE returns, without an overflow in 32
-- bits, after every SPEEX_SET_MODE to one of 0 to 15 exactly if the sampling rate is at most
-- 4364804.
pub get_bitrate-bounds :
    (r : ℕ) (st : EncState)
    → st.sampling_rate ≡ pos r
    → ((n : ℕ) → n < 16 → mode_then_bitrate (pos n) st ≢ fault) ↔ (r ≤ 4364804)
unfolding nb_encoder_ctl
get_bitrate-bounds r st e = (
  λ safe. elim (dec_lt 4364804 r) [
    | yes many ↦
        absurd
          (safe 7 (omega arith) (rw (bitrate-overflows r (with_mode (pos 7) st) many e refl) refl))
    | no few ↦ omega arith
  ],
  λ few n inside faults.
      ok-not-fault _ (sym (mode_then_bitrate-inside n r st inside e few) ∙ faults),
)
