-- ===== src/NbPacket.antt =====
-- libspeex/nb_celp.c: reading a packet in nb_decode with encode_submode set: the search for a frame, then its fields.
pub mod Total
mod Examples
use speex.Common.{ℕ, List, ℤ, Option, none, some, Result, ok, diverges, ◌>>=◌, load}
use speex.Bits.{SpeexBits}
use speex.Callbacks.{Handler}
use speex.Modes.{SpeexSubmode, SpeexNbMode}
use speex.NbSearch.{Round, again, frame, returns, search}
use speex.NbDecode.{Decoded, nb_decode_fields}

-- A frame without transmission, the fields of a frame, or a value that nb_decode returns.
pub data Outcome : Type 0 where
  null_frame : Outcome
  fields : Decoded → Outcome
  returned : ℤ → Outcome

-- Behind the loop; `again` is not how the loop ends.
unfoldable pub decode_found : SpeexNbMode → ℕ → Round → SpeexBits → Result (Outcome × SpeexBits)
unfolding nb_decode_fields
decode_found mode seed again bits = diverges
decode_found mode seed (returns z) bits = ok (returned z, bits)
decode_found mode seed (frame m) bits = load mode.submodes m >>= λ sub. decode sub
  where
    decode : Option SpeexSubmode → Result (Outcome × SpeexBits)
    decode none = ok (null_frame, bits)
    decode (some sub) = nb_decode_fields sub m seed bits >>= λ (x, bits'). ok (fields x, bits')

module _ {State : Type 0} (callbacks : List (Option (Handler State))) (user : Handler State) where
  unfoldable pub read_packet :
      SpeexNbMode → ℕ → ℕ → SpeexBits → State → Result (Outcome × SpeexBits × State)
  unfolding search decode_found
  read_packet mode seed fuel bits state = do
    (round, bits1, state1) ← search callbacks user fuel bits state
    (out, bits2) ← decode_found mode seed round bits1
    ok (out, bits2, state1)
