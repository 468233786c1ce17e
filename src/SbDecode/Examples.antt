-- ===== src/SbDecode/Examples.antt =====
-- A wideband layer of sub-mode 2.
use speex.Common.{◌≡◌, refl, arith, true, false, [], ◌∷◌, ok}
use speex.Bits.{SpeexBits}
use speex.Bits.View.{bit_at, bits_at}
use speex.Bits.Unpack.{IsReadable}
use speex.SbDecode.{SbLayer, sb_decode_layer}
use speex.SbDecode.Layout.{of_wb, sb_mode}
use speex.SbDecode.Layer.{next_bit, sb_id, IsLayer, sb_decode_layer-IsLayer}

abbrev high_band : SpeexBits
high_band = record {
  chars = 165 ∷ 77 ∷ 225 ∷ 9 ∷ 64 ∷ 200 ∷ 31 ∷ 7 ∷ 66 ∷ 128 ∷ 17 ∷ 90 ∷ 3 ∷ 254 ∷ [];
  nb_bits = 112;
  char_ptr = 0;
  bit_ptr = 0;
  owner = false;
  overflow = false;
  buf_size = 14;
}

high_band-IsReadable : IsReadable high_band
high_band-IsReadable = record { stored = omega arith; aligned = omega arith }

submode_of_high_band : next_bit high_band ∷ sb_id high_band ∷ [] ≡ 1 ∷ 2 ∷ []
unfolding bit_at bits_at
submode_of_high_band = refl

sb_decode_layer-IsLayer_example :
    (out : SbLayer) × (s' : SpeexBits) × (sb_decode_layer (sb_mode of_wb) true 0 1000 high_band
      ≡ ok (out, s'))
    × IsReadable s'
    × IsLayer of_wb high_band out s'
sb_decode_layer-IsLayer_example =
    sb_decode_layer-IsLayer of_wb 0 1000 high_band high_band-IsReadable
