-- ===== src/Callbacks/Stereo.antt =====
-- libspeex/stereo.c: the handler of the intensity stereo request, in the fixed-point build.
-- `with_stereo` changes the RealSpeexStereoState behind `data`.
use speex.Common.{ℕ, ◌≡◌, refl, arith, false, List, [], ◌∷◌, get_or}
use speex.Common.{ℤ, pos, negsuc, ok, ◌>>=◌, load, load-ok, ◌==◌, if◌then◌else◌}
use speex.Bits.{SpeexBits, unpack_unsigned}
use speex.Bits.Unpack.{IsReadable, overruns}
use speex.Bits.Field.{skip, field, field-lt, skip-IsReadable, unpack-field}
use speex.Fixed.{extract16, shl16, mult16_16}
use speex.MathApprox.{spx_exp}
use speex.Callbacks.{Handler}

pub record RealSpeexStereoState : Type 0 where
  pub balance : ℤ
  pub e_ratio : ℤ
  pub smooth_left : ℤ
  pub smooth_right : ℤ
  pub reserved1 : ℕ
  pub reserved2 : ℤ

-- 0xdeadbeef
abbrev pub initialised : ℕ
initialised = 3735928559

unfoldable pub e_ratio_quant : List ℤ
e_ratio_quant = pos 8192 ∷ pos 10332 ∷ pos 13009 ∷ pos 16384 ∷ []

unfoldable pub speex_stereo_state_reset : RealSpeexStereoState → RealSpeexStereoState
speex_stereo_state_reset stereo = record {
  balance = pos 65536;
  e_ratio = pos 16384;
  smooth_left = pos 16384;
  smooth_right = pos 16384;
  reserved1 = initialised;
  reserved2 = pos 0;
}

-- The state that a deprecated static initialiser made is reset.
unfoldable pub compatibility_hack : RealSpeexStereoState → RealSpeexStereoState
unfolding speex_stereo_state_reset
compatibility_hack stereo =
    if stereo.reserved1 == initialised then stereo else speex_stereo_state_reset stereo

-- The balance of a sign bit and a 5-bit exponent.
unfoldable pub stereo_balance : ℕ → ℕ → ℤ
unfolding spx_exp mult16_16 shl16 extract16
stereo_balance is_negative dexp =
    let sign : ℤ = if is_negative == 0 then pos 1 else negsuc 0 in
    spx_exp (extract16 (mult16_16 sign (shl16 (pos dexp) 9)))

module _ {State : Type 0}
    (with_stereo : (RealSpeexStereoState → RealSpeexStereoState) → State → State) where
  unfoldable pub std_stereo_request_handler : Handler State
  unfolding unpack_unsigned compatibility_hack stereo_balance e_ratio_quant
  std_stereo_request_handler bits state = do
    (is_negative, bits1) ← unpack_unsigned bits 1
    (dexp, bits2) ← unpack_unsigned bits1 5
    (tmp, bits3) ← unpack_unsigned bits2 2
    ratio ← load e_ratio_quant tmp
    ok (
      pos 0,
      bits3,
      with_stereo
          (λ stereo. record (compatibility_hack stereo) {
            balance = stereo_balance is_negative dexp;
            e_ratio = ratio;
          })
          state,
    )

  skip-stereo : (s : SpeexBits) → overruns s 8 ≡ false → skip (skip (skip s 1) 5) 2 ≡ skip s 8
  skip-stereo s h = ground arith

  pub std_stereo_request_handler_lem :
      (s : SpeexBits) (state : State)
      → IsReadable s
      → overruns s 8 ≡ false
      → (state' : State) × (std_stereo_request_handler s state ≡ ok (pos 0, skip s 8, state'))
  unfolding std_stereo_request_handler
  std_stereo_request_handler_lem s state r h =
      let s1 = skip s 1 in
      let s2 = skip s1 5 in
      let r1 = skip-IsReadable s 1 r in
      let r2 = skip-IsReadable s1 5 r1 in
      (
        with_stereo
            (λ stereo. record (compatibility_hack stereo) {
              balance = stereo_balance (field s 1) (field s1 5);
              e_ratio = get_or e_ratio_quant (field s2 2) (pos 0);
            })
            state,
        rw
            (
              unpack-field s 1 r (omega arith),
              unpack-field s1 5 r1 (omega arith),
              unpack-field s2 2 r2 (omega arith),
              load-ok e_ratio_quant (field s2 2) (pos 0) (field-lt s2 2),
              skip-stereo s h,
            )
            refl,
      )
