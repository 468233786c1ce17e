-- ===== src/CbSearch/Examples.antt =====
-- A subframe of the codebook with signs.
use speex.Common.{ℕ, ◌≡◌, arith, false, List, [], ◌∷◌, length, replicate, ℤ, pos, ok}
use speex.Bits.{SpeexBits}
use speex.Bits.Unpack.{IsReadable}
use speex.CbSearch.{split_cb_shape_sign_unquant, decode_indices}
use speex.CbSearch.Inside.{params, of_high, AreRead}
use speex.CbSearch.Samples.{IsExcited, split_cb_shape_sign_unquant_lem}

abbrev subframe : SpeexBits
subframe = record {
  chars = 157 ∷ 86 ∷ 3 ∷ 255 ∷ 128 ∷ [];
  nb_bits = 40;
  char_ptr = 0;
  bit_ptr = 0;
  owner = false;
  overflow = false;
  buf_size = 5;
}

subframe-IsReadable : IsReadable subframe
subframe-IsReadable = record { stored = omega arith; aligned = omega arith }

split_cb_shape_sign_unquant_lem_example :
    (exc' : List ℤ) × (s' : SpeexBits) × (split_cb_shape_sign_unquant
        (replicate 40 (pos 0))
        (params of_high)
        subframe
      ≡ ok (exc', s'))
    × (indices : List (ℕ × ℕ)) × (decode_indices
          (params of_high)
          subframe
          (params of_high).nb_subvect
        ≡ ok (indices, s'))
    × (length indices ≡ (params of_high).nb_subvect)
    × IsExcited (params of_high) indices 0 (replicate 40 (pos 0)) exc'
    × IsReadable s'
    × AreRead (params of_high) indices subframe s'
split_cb_shape_sign_unquant_lem_example =
    split_cb_shape_sign_unquant_lem of_high (replicate 40 (pos 0)) subframe (omega arith)
      subframe-IsReadable
