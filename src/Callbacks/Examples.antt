-- ===== src/Callbacks/Examples.antt =====
-- The request handlers at small streams.
use speex.Common.{ℕ, ◌+◌, ◌*◌, ◌≡◌, ◌≢◌, refl, arith, false, List, [], ◌∷◌, length}
use speex.Common.{none, replicate, pos, ok}
use speex.Common.{pos_part}
use speex.Bits.{SpeexBits}
use speex.Callbacks.Stereo.{RealSpeexStereoState, stereo_balance, compatibility_hack}
use speex.Bits.View.{position, bits_at}
use speex.Bits.Unpack.{IsReadable, overruns}
use speex.Callbacks.{Control, skipped, inband_handler, default_user_handler}
use speex.Bits.Field.{skip, field}
use speex.Callbacks.Skip.{default_user_handler-manual}
use speex.Callbacks.Standard.{std_callbacks, inband_handler-std, inband_handler-vbr}

abbrev stream : List ℕ → ℕ → SpeexBits
stream chars nb_bits = record {
  chars = chars;
  nb_bits = nb_bits;
  char_ptr = 0;
  bit_ptr = 0;
  owner = false;
  overflow = false;
  buf_size = length chars;
}

-- A request to turn VBR on.
abbrev vbr_request : SpeexBits
vbr_request = stream (113 ∷ 0 ∷ []) 16

-- A request to set the balance to the exponent 4 with a sign, and the ratio to the last one.
abbrev stereo_request : SpeexBits
stereo_request = stream (153 ∷ 48 ∷ []) 16

-- A message of one byte, 00001 and the byte.
abbrev message : SpeexBits
message = stream (13 ∷ 80 ∷ 0 ∷ []) 24

-- The controls of a state that keeps the last value.
abbrev last : Control → ℕ → ℕ → ℕ
last c value state = value

-- A state that the static initialiser made, with nothing in it.
abbrev fresh : RealSpeexStereoState
fresh = record {
  balance = pos 0;
  e_ratio = pos 0;
  smooth_left = pos 0;
  smooth_right = pos 0;
  reserved1 = 0;
  reserved2 = pos 0;
}

abbrev putc : ℕ → ℕ → ℕ
putc ch state = ch

-- A stereo state that keeps only what a change makes of the ratio.
abbrev with_ratio : (RealSpeexStereoState → RealSpeexStereoState) → ℕ → ℕ
with_ratio change state = pos_part (change fresh).e_ratio

stereo_request-IsReadable : IsReadable stereo_request
stereo_request-IsReadable = record { stored = omega arith; aligned = omega arith }

vbr_request-IsReadable : IsReadable vbr_request
vbr_request-IsReadable = record { stored = omega arith; aligned = omega arith }

message-IsReadable : IsReadable message
message-IsReadable = record { stored = omega arith; aligned = omega arith }

field_of_stereo_request : field stereo_request 4 ≡ 9
unfolding bits_at
field_of_stereo_request = refl

field_of_vbr_request : field vbr_request 4 ≡ 7
unfolding bits_at
field_of_vbr_request = refl

-- The exponents 0, 4 and -4: 1, and nearly e and 1/e, in Q16.
balance_of_0 : stereo_balance 0 0 ≡ pos 65536
unfolding stereo_balance
balance_of_0 = refl

balance_of_4 : stereo_balance 0 4 ≡ pos 178048
unfolding stereo_balance
balance_of_4 = refl

balance_of_minus_4 : stereo_balance 1 4 ≡ pos 24091
unfolding stereo_balance
balance_of_minus_4 = refl

hack_of_fresh : (compatibility_hack fresh).e_ratio ≡ pos 16384
unfolding compatibility_hack
hack_of_fresh = refl

message_fits : overruns message (9 + 8 * field message 4) ≡ false
unfolding bits_at
message_fits = refl

inband_handler-std_example :
    (state' : ℕ) × (inband_handler {State = ℕ}
        (std_callbacks {State = ℕ} last putc with_ratio)
        stereo_request
        0
      ≡ ok (pos 0, skip (skip stereo_request 4) (skipped (field stereo_request 4)), state'))
    × (inband_handler {State = ℕ} (replicate 16 none) stereo_request 0
        ≡ ok (pos 0, skip (skip stereo_request 4) (skipped (field stereo_request 4)), 0))
inband_handler-std_example =
    inband_handler-std last putc with_ratio stereo_request 0 stereo_request-IsReadable
      (omega (arith, field_of_stereo_request)) (λ e. refl)

inband_handler-vbr_example :
    (end end' : SpeexBits) × (state' : ℕ) × (inband_handler {State = ℕ}
        (std_callbacks {State = ℕ} last putc with_ratio)
        vbr_request
        0
      ≡ ok (pos 0, end, state'))
    × (inband_handler {State = ℕ} (replicate 16 none) vbr_request 0 ≡ ok (pos 0, end', 0))
    × (position end + 3 ≡ position end')
inband_handler-vbr_example =
    inband_handler-vbr last putc with_ratio vbr_request 0 vbr_request-IsReadable
      field_of_vbr_request refl

default_user_handler-manual_example :
    (end : SpeexBits) × (default_user_handler {State = ℕ} message 0 ≡ ok (pos 0, end, 0))
    × (position end ≡ position message + 9 + 8 * field message 4)
    × (position end ≢ position message + 5 + 8 * field message 5)
default_user_handler-manual_example =
    default_user_handler-manual message 0 message-IsReadable message_fits
