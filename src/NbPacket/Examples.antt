-- ===== src/NbPacket/Examples.antt =====
-- A packet with a request that no one handles, and a frame of sub-mode 8.
use speex.Common.{
  ℕ, ◌≡◌, refl, arith, false, [], ◌∷◌, Option, none, some, ok, Result, fault, diverges,
}
use speex.Bits.{SpeexBits}
use speex.Bits.View.{position}
use speex.Bits.Unpack.{IsReadable}
use speex.Callbacks.{default_user_handler}
use speex.Modes.Narrow.{nb_mode}
use speex.NbSearch.{Round, frame, search}
use speex.NbSearch.Examples.{unhandled, unhandled-AllForward, default_user_handler-IsForward}
use speex.NbPacket.{Outcome, read_packet}
use speex.NbPacket.Total.{IsOutcome, read_packet-IsOutcome}

abbrev packet : SpeexBits
packet = record {
  chars = 113 ∷ 42 ∷ 45 ∷ 225 ∷ 9 ∷ 64 ∷ 200 ∷ 31 ∷ 7 ∷ 66 ∷ 128 ∷ 17 ∷ [];
  nb_bits = 96;
  char_ptr = 0;
  bit_ptr = 0;
  owner = false;
  overflow = false;
  buf_size = 12;
}

packet-IsReadable : IsReadable packet
packet-IsReadable = record { stored = omega arith; aligned = omega arith }

read_packet-IsOutcome_example :
    (round : Round) × (s1 : SpeexBits) × (out : Outcome) × (s' : SpeexBits) × (state' : ℕ) × (search
        unhandled default_user_handler 24 packet 0
      ≡ ok (round, s1, state'))
    × (read_packet unhandled default_user_handler nb_mode 1000 24 packet 0 ≡ ok (out, s', state'))
    × IsReadable s'
    × IsOutcome round s1 out s'
read_packet-IsOutcome_example =
    read_packet-IsOutcome unhandled default_user_handler refl unhandled-AllForward
      default_user_handler-IsForward 23 1000 packet 0 packet-IsReadable (omega arith)

ends_of : Result (Round × SpeexBits × ℕ) → Option (Round × ℕ)
ends_of (ok (round, s, state)) = some (round, position s)
ends_of fault = none
ends_of diverges = none

frame_found : ends_of (search unhandled default_user_handler 24 packet 0) ≡ some (frame 8, 18)
unfolding ends_of search
frame_found = refl
