-- ===== src/Callbacks/Skip.antt =====
-- A request that no one handles is skipped.
use speex.Common.{ℕ, ◌+◌, ◌*◌, ◌≡◌, ◌≢◌, refl, ap, arith}
use speex.Common.{false, List, length, get_or, Option, none, some}
use speex.Common.{pos, ok, load-ok}
use speex.Bits.{SpeexBits}
use speex.Bits.View.{position}
use speex.Bits.Unpack.{IsReadable, overruns}
use speex.Bits.Field.{skip, advance-skip, field, field-lt, unpack-field}
use speex.Callbacks.{Handler, skipped, inband_handler, default_user_handler}

module _ {State : Type 0} (callbacks : List (Option (Handler State)))
    (all : length callbacks ≡ 16) where
  pub inband_handler_lem :
      (s : SpeexBits) (state : State)
      → IsReadable s
      → inband_handler callbacks s state ≡ elim (get_or callbacks (field s 4) none) [
        | some func ↦ func (skip s 4) state
        | none ↦ ok (pos 0, skip (skip s 4) (skipped (field s 4)), state)
      ]
  unfolding inband_handler
  inband_handler_lem s state r =
      rw
        (
          unpack-field s 4 r (omega arith),
          load-ok callbacks (field s 4) none (omega (arith, field-lt s 4, all)),
        )
        (ap
          (λ (t : SpeexBits). elim (get_or callbacks (field s 4) none) [
            | some func ↦ func (skip s 4) state
            | none ↦ ok (pos 0, t, state)
          ])
          (advance-skip (skip s 4) (skipped (field s 4))))

module _ {State : Type 0} (s : SpeexBits) (state : State) (r : IsReadable s) where
  pub default_user_handler_lem :
      default_user_handler s state ≡ ok (pos 0, skip (skip s 4) (5 + 8 * field s 4), state)
  unfolding default_user_handler
  default_user_handler_lem =
      rw (unpack-field s 4 r (omega arith), advance-skip (skip s 4) (5 + 8 * field s 4)) refl

  -- speex_default_user_handler on a stream that holds the bits it skips returns 0 and moves the
  -- cursor by 9 bits and 8 for each byte that the first 4 bits announce. This is never the end
  -- of a message of the manual's form, which is a size of 5 bits and that many bytes.
  pub default_user_handler-manual :
      overruns s (9 + 8 * field s 4) ≡ false
      → (end : SpeexBits) × (default_user_handler s state ≡ ok (pos 0, end, state))
        × (position end ≡ position s + 9 + 8 * field s 4)
        × (position end ≢ position s + 5 + 8 * field s 5)
  default_user_handler-manual h =
      let size = field s 4 in
      let short : overruns s 4 ≡ false = ground (arith, h) in
      let here : position (skip s 4) ≡ position s + 4 = ground (arith, short) in
      let there : position (skip (skip s 4) (5 + 8 * size)) ≡ position s + 9 + 8 * size =
        landing size h short in
      (
        skip (skip s 4) (5 + 8 * size),
        default_user_handler_lem,
        there,
        λ e. omega (arith, there, e),
      )
    where
      landing :
          (k : ℕ)
          → overruns s (9 + 8 * k) ≡ false
          → overruns s 4 ≡ false
          → position (skip (skip s 4) (5 + 8 * k)) ≡ position s + 9 + 8 * k
      landing k long short = ground arith
