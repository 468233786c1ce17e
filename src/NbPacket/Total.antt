-- ===== src/NbPacket/Total.antt =====
-- nb_decode reads every packet to an end.
use speex.Common.{
  ℕ, zero, suc, ◌+◌, ◌-◌, ◌*◌, ◌≤◌, ◌≡◌, ◌⊎◌, inl, inr, refl, ap, arith, List, length, get_elem?, ℤ,
  Option, none, some, ok,
}
use speex.Bits.{SpeexBits}
use speex.Bits.View.{position}
use speex.Bits.Unpack.{IsReadable}
use speex.Bits.Consume.{IsBehind}
use speex.Callbacks.{Handler}
use speex.Modes.Narrow.{nb_mode}
use speex.NbSearch.{Round, frame, returns, search}
use speex.NbSearch.Progress.{IsForward, AllForward, IsEnd, found, stopped, search_lem}
use speex.NbDecode.{Decoded}
use speex.NbDecode.Layout.{
  NbSubmode, of_submode1, of_submode2, of_submode3, of_submode4, of_submode5, of_submode6,
  of_submode7, of_submode8, submode, submode_id, nb_decode_fields-Consumes,
}
use speex.NbPacket.{Outcome, null_frame, fields, returned, decode_found, read_packet}

submode-cases : (m : ℕ) → m ≤ 8 → (m ≡ 0) ⊎ ((k : NbSubmode) × (m ≡ submode_id k))
submode-cases zero h = inl refl
submode-cases (suc zero) h = inr (of_submode1, refl)
submode-cases (suc (suc zero)) h = inr (of_submode2, refl)
submode-cases (suc (suc (suc zero))) h = inr (of_submode3, refl)
submode-cases (suc (suc (suc (suc zero)))) h = inr (of_submode4, refl)
submode-cases (suc (suc (suc (suc (suc zero))))) h = inr (of_submode5, refl)
submode-cases (suc (suc (suc (suc (suc (suc zero)))))) h = inr (of_submode6, refl)
submode-cases (suc (suc (suc (suc (suc (suc (suc zero))))))) h = inr (of_submode7, refl)
submode-cases (suc (suc (suc (suc (suc (suc (suc (suc zero)))))))) h = inr (of_submode8, refl)
submode-cases (suc (suc (suc (suc (suc (suc (suc (suc (suc m))))))))) h = absurd (omega arith)

-- How the packet ends, where the search ends with `round` at `s1`.
pub data IsOutcome (round : Round) (s1 : SpeexBits) (out : Outcome) (s' : SpeexBits) : Type 0 where
  stops : (z : ℤ) → round ≡ returns z → out ≡ returned z → s' ≡ s1 → IsOutcome round s1 out s'
  silence : round ≡ frame 0 → out ≡ null_frame → s' ≡ s1 → IsOutcome round s1 out s'
  reads :
      (k : NbSubmode) (x : Decoded)
      → round ≡ frame (submode_id k)
      → out ≡ fields x
      → IsBehind s1 s' ((submode k).bits_per_frame - 5)
      → IsOutcome round s1 out s'

silent_submode : get_elem? nb_mode.submodes 0 ≡ some none
unfolding nb_mode
silent_submode = refl

decode_found-IsOutcome :
    (seed : ℕ) (round : Round) (s1 : SpeexBits)
    → IsReadable s1
    → IsEnd round
    → (out : Outcome) × (s' : SpeexBits) × (decode_found nb_mode seed round s1 ≡ ok (out, s'))
      × IsReadable s'
      × IsOutcome round s1 out s'
unfolding decode_found
decode_found-IsOutcome seed _ s1 r (stopped z) = (returned z, s1, refl, r, stops z refl refl refl)
decode_found-IsOutcome seed _ s1 r (found m few) = elim (submode-cases m few) [
  | inl e ↦ (null_frame, s1, rw (e, silent_submode) refl, r, silence (ap frame e) refl refl)
  | inr (k, e) ↦
      let (listed, reading) = nb_decode_fields-Consumes k seed s1 r in
      let (x, s', runs, r', moves) = reading in
      (fields x, s', rw (e, listed, runs) refl, r', reads k x (ap frame e) refl moves)
]

module _ {State : Type 0} (callbacks : List (Option (Handler State))) (user : Handler State)
    (all : length callbacks ≡ 16) (forward : AllForward callbacks)
    (user_forward : IsForward user) where
  -- nb_decode with encode_submode set reads every packet whose announced bits are in memory to
  -- an end, within one round of its loop for each 4 bits that are left and one more, and never
  -- accesses memory outside the packet: behind the search it ends with the value that is
  -- returned or, for sub-mode 0, with a null frame, both without reading on, or with the fields
  -- of one of the sub-modes 1 to 8, and then has read bits_per_frame less 5 bits behind the
  -- sub-mode if they are there. There are 16 callbacks, and each registered handler returns,
  -- leaves the packet's bits alone and does not move the cursor back.
  pub read_packet-IsOutcome :
      (n seed : ℕ) (s : SpeexBits) (state : State)
      → IsReadable s
      → s.nb_bits ≤ position s + 4 * suc n
      → (round : Round) × (s1 : SpeexBits) × (out : Outcome) × (s' : SpeexBits) × (state' : State)
        × (search callbacks user (suc n) s state ≡ ok (round, s1, state'))
        × (read_packet callbacks user nb_mode seed (suc n) s state ≡ ok (out, s', state'))
        × IsReadable s'
        × IsOutcome round s1 out s'
  unfolding read_packet
  read_packet-IsOutcome n seed s state r h =
      let (round, s1, state', finds, r1, ends) =
        search_lem callbacks user all forward user_forward n s state r h in
      let (out, s', runs, r', how) = decode_found-IsOutcome seed round s1 r1 ends in
      (round, s1, out, s', state', finds, rw (finds, runs) refl, r', how)
