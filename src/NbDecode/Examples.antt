-- ===== src/NbDecode/Examples.antt =====
-- The fields of a frame of sub-mode 8.
use speex.Common.{◌-◌, ◌≡◌, refl, arith, false, [], ◌∷◌, get_elem?, some, pos, negsuc}
use speex.Bits.{SpeexBits}
use speex.Bits.Unpack.{IsReadable}
use speex.Bits.Consume.{Consumes}
use speex.Modes.Narrow.{nb_mode}
use speex.NbDecode.{nb_decode_fields, pit_min}
use speex.NbDecode.Layout.{of_submode8, submode, submode_id, nb_decode_fields-Consumes}

abbrev fields : SpeexBits
fields = record {
  chars = 180 ∷ 77 ∷ 225 ∷ 9 ∷ 64 ∷ 200 ∷ 31 ∷ 7 ∷ 66 ∷ 128 ∷ [];
  nb_bits = 80;
  char_ptr = 0;
  bit_ptr = 0;
  owner = false;
  overflow = false;
  buf_size = 10;
}

fields-IsReadable : IsReadable fields
fields-IsReadable = record { stored = omega arith; aligned = omega arith }

margins : pit_min (negsuc 0) 90 ∷ pit_min (pos 0) 90 ∷ pit_min (pos 3) 18 ∷ [] ≡ 17 ∷ 90 ∷ 17 ∷ []
unfolding pit_min
margins = refl

nb_decode_fields-Consumes_example :
    (get_elem? nb_mode.submodes (submode_id of_submode8) ≡ some (some (submode of_submode8)))
    × Consumes
        (nb_decode_fields (submode of_submode8) (submode_id of_submode8) 1000 fields)
        fields
        ((submode of_submode8).bits_per_frame - 5)
nb_decode_fields-Consumes_example =
    nb_decode_fields-Consumes of_submode8 1000 fields fields-IsReadable
