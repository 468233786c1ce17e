-- ===== src/Vq/Examples.antt =====
-- A scalar quantizer of four values, and a search of a small codebook.
use speex.Common.{ℕ, ◌+◌, length, ◌-◌, ◌≡◌, refl, arith, List, [], ◌∷◌, ℤ, pos, negsuc, ok}
use speex.Vq.{scal_quant, scal_quant32, vq_nbest, vq_nbest_sign}
use speex.Vq.Distance.{dist_of, signed_dist_of, sign_of}
use speex.Vq.Nbest.{IsBest, vq_nbest-IsBest, vq_nbest_sign-IsBest}
use speex.Vq.Scalar.{IsFirst, scal_quant-IsFirst}

abbrev bounds : List ℤ
bounds = negsuc 9 ∷ pos 3 ∷ pos 40 ∷ []

quantized : scal_quant (pos 3) bounds 4 ≡ ok 1
unfolding scal_quant
quantized = refl

scal_quant-IsFirst_example :
    (q : ℕ) × (scal_quant (pos 3) bounds 4 ≡ ok q)
    × (scal_quant32 (pos 3) bounds 4 ≡ ok q)
    × IsFirst (pos 3) bounds 0 (4 - 1) q
scal_quant-IsFirst_example = scal_quant-IsFirst (pos 3) bounds 4 (omega arith)

-- Three codewords of two entries, the energies of the codewords, and room for the two best.
abbrev input : List ℤ
input = pos 4 ∷ negsuc 2 ∷ []

abbrev codebook : List ℤ
codebook = pos 1 ∷ pos 1 ∷ pos 4 ∷ negsuc 3 ∷ negsuc 3 ∷ pos 4 ∷ []

abbrev energy : List ℤ
energy = pos 2 ∷ pos 32 ∷ pos 32 ∷ []

two_best :
    vq_nbest input codebook 2 3 energy 2 (0 ∷ 0 ∷ []) (pos 0 ∷ pos 0 ∷ [])
    ≡ ok (1 ∷ 0 ∷ [], negsuc 11 ∷ pos 0 ∷ [])
unfolding vq_nbest
two_best = refl

vq_nbest-IsBest_example :
    (nbest' : List ℕ) × (best_dist' : List ℤ) × (vq_nbest input codebook 2 3 energy 2
        (0 ∷ 0 ∷ [])
        (pos 0 ∷ pos 0 ∷ [])
      ≡ ok (nbest', best_dist'))
    × (length nbest' ≡ length {A = ℕ} (0 ∷ 0 ∷ []))
    × (length best_dist' ≡ length {A = ℤ} (pos 0 ∷ pos 0 ∷ []))
    × IsBest (dist_of input codebook 2 energy) (λ i. i) 3 2 nbest' best_dist'
vq_nbest-IsBest_example =
    vq_nbest-IsBest input codebook 2 3 energy 2 (0 ∷ 0 ∷ []) (pos 0 ∷ pos 0 ∷ []) (omega arith)
      (omega arith) (omega arith) (omega arith) (omega arith) (omega arith)

vq_nbest_sign-IsBest_example :
    (nbest' : List ℕ) × (best_dist' : List ℤ) × (vq_nbest_sign input codebook 2 3 energy 2
        (0 ∷ 0 ∷ [])
        (pos 0 ∷ pos 0 ∷ [])
      ≡ ok (nbest', best_dist'))
    × (length nbest' ≡ length {A = ℕ} (0 ∷ 0 ∷ []))
    × (length best_dist' ≡ length {A = ℤ} (pos 0 ∷ pos 0 ∷ []))
    × IsBest
        (signed_dist_of input codebook 2 energy)
        (λ i. i + sign_of input codebook 2 energy 3 i)
        3
        2
        nbest'
        best_dist'
vq_nbest_sign-IsBest_example =
    vq_nbest_sign-IsBest input codebook 2 3 energy 2 (0 ∷ 0 ∷ []) (pos 0 ∷ pos 0 ∷ []) (omega arith)
      (omega arith) (omega arith) (omega arith) (omega arith) (omega arith)
