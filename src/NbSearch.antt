-- ===== src/NbSearch.antt =====
-- libspeex/nb_celp.c: how nb_decode finds the next narrowband frame of a packet.
-- The decoder's state enters only through its callbacks, which are parameters.
pub mod Layers
pub mod Progress
pub mod NullLayer
pub mod Examples
use speex.Common.{ℕ, zero, suc, List, [], ◌∷◌, Option, none, some, ltb, ◌==◌, Bool, true, false}
use speex.Common.{ℤ, pos, negsuc, ◌-ℤ◌, ltb_ℤ, if◌then◌else◌, Result, ok, diverges, ◌>>=◌, load}
use speex.Bits.{SpeexBits, unpack_unsigned, advance_int, remaining}
use speex.Callbacks.{Handler, inband_handler}

unfoldable pub wb_skip_table : List ℤ
wb_skip_table = pos 0 ∷ pos 36 ∷ pos 112 ∷ pos 192 ∷ pos 352 ∷ pos 0 ∷ pos 0 ∷ pos 0 ∷ []

-- The rest of a wideband block behind its first bit; `false` is "Invalid mode encountered".
unfoldable pub skip_block : SpeexBits → Result (Bool × SpeexBits)
unfolding unpack_unsigned wb_skip_table advance_int ◌-ℤ◌
skip_block bits = do
  (submode, bits1) ← unpack_unsigned bits 3
  advance ← load wb_skip_table submode
  if ltb_ℤ advance (pos 0)
      then ok (false, bits1)
      else (do bits2 ← advance_int bits1 (advance -ℤ pos 4); ok (true, bits2))

-- `some z` is `return z`.
unfoldable pub second_layer : SpeexBits → Result (Option ℤ × SpeexBits)
unfolding unpack_unsigned remaining skip_block
second_layer bits = if ltb_ℤ (remaining bits) (pos 5) then ok (some (negsuc 0), bits) else (do
  (wideband, bits1) ← unpack_unsigned bits 1
  if wideband == 0 then ok (none, bits1) else (do
    (valid, bits2) ← skip_block bits1
    if valid
        then (do
          (wideband', bits3) ← unpack_unsigned bits2 1
          ok ((if wideband' == 0 then none else some (negsuc 1)), bits3))
        else ok (some (negsuc 1), bits2)))

unfoldable pub skip_wideband : SpeexBits → Result (Option ℤ × SpeexBits)
unfolding unpack_unsigned skip_block second_layer
skip_wideband bits = do
  (wideband, bits1) ← unpack_unsigned bits 1
  if wideband == 0 then ok (none, bits1) else (do
    (valid, bits2) ← skip_block bits1
    if valid then second_layer bits2 else ok (some (negsuc 1), bits2))

-- How a round ends: another round, the sub-mode of a frame, or the value that nb_decode returns.
pub data Round : Type 0 where
  again : Round
  frame : ℕ → Round
  returns : ℤ → Round

-- `if (ret) return ret;`
abbrev pub after_handler : ℤ → Round
after_handler (pos zero) = again
after_handler (pos (suc n)) = returns (pos (suc n))
after_handler (negsuc n) = returns (negsuc n)

module _ {State : Type 0} (callbacks : List (Option (Handler State))) (user : Handler State) where
  unfoldable pub dispatch : ℕ → SpeexBits → State → Result (Round × SpeexBits × State)
  unfolding inband_handler
  dispatch m bits state =
      if m == 15
      then ok (returns (negsuc 0), bits, state)
      else if m == 14
      then (do
        (ret, bits', state') ← inband_handler callbacks bits state
        ok (after_handler ret, bits', state'))
      else if m == 13
      then (do (ret, bits', state') ← user bits state; ok (after_handler ret, bits', state'))
      else if ltb 8 m
      then ok (returns (negsuc 1), bits, state)
      else ok (frame m, bits, state)

  unfoldable pub search_round : SpeexBits → State → Result (Round × SpeexBits × State)
  unfolding unpack_unsigned remaining skip_wideband dispatch
  search_round bits state =
      if ltb_ℤ (remaining bits) (pos 5) then ok (returns (negsuc 0), bits, state) else (do
        (stop, bits1) ← skip_wideband bits
        elim stop [
          | some z ↦ ok (returns z, bits1, state)
          | none ↦
              if ltb_ℤ (remaining bits1) (pos 4)
              then ok (returns (negsuc 0), bits1, state)
              else (do (m, bits2) ← unpack_unsigned bits1 4; dispatch m bits2 state)
        ])

  -- do { .. } while (m>8), on fuel
  unfoldable pub search : ℕ → SpeexBits → State → Result (Round × SpeexBits × State)
  unfolding search_round
  search zero bits state = diverges
  search (suc fuel) bits state = do
    (round, bits', state') ← search_round bits state
    elim round [
      | again ↦ search fuel bits' state'
      | frame m ↦ ok (frame m, bits', state')
      | returns z ↦ ok (returns z, bits', state')
    ]
