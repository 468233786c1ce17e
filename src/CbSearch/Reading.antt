-- ===== src/CbSearch/Reading.antt =====
-- How many bits the decoder of the innovation reads.
use speex.Common.{
  ℕ, zero, suc, ◌+◌, ◌*◌, ◌≤◌, ◌≡◌, refl, sym, ◌∙◌, arith, Bool-cases, if◌then◌else◌,
}
use speex.Common.{List, [], ◌∷◌, length, inl, inr, ℤ, Result, ok, ◌>>=◌}
use speex.Bits.{SpeexBits, unpack_unsigned}
use speex.Bits.Unpack.{IsReadable}
use speex.Bits.Consume.{
  Consumes, Consumes-return, Consumes-bind, Consumes-map, Consumes-count, unpack_unsigned-Consumes,
}
use speex.CbSearch.{SplitCbParams, decode_indices, split_cb_shape_sign_unquant}
use speex.CbSearch.Inside.{SplitCb, params, params-IsSplit}
use speex.CbSearch.Samples.{split_cb_shape_sign_unquant_lem}

abbrev pub sign_bits : SplitCbParams → ℕ
sign_bits p = if p.have_sign then 1 else 0

decode_indices-Consumes :
    (p : SplitCbParams) (left : ℕ) (s : SpeexBits)
    → p.shape_bits ≤ 32
    → IsReadable s
    → Consumes (decode_indices p s left) s ((sign_bits p + p.shape_bits) * left)
unfolding decode_indices
decode_indices-Consumes p zero s few r =
    Consumes-count (ok ([], s)) s 0 _ (omega arith) (Consumes-return [] s r)
decode_indices-Consumes p (suc left) s few r =
    let step = λ (sign : ℕ) (s1 : SpeexBits) (r1 : IsReadable s1).
      Consumes-bind (unpack_unsigned s1 p.shape_bits)
        (λ (ind, s2). decode_indices p s2 left >>= λ (rest, s3). ok ((sign, ind) ∷ rest, s3)) s1
        p.shape_bits ((sign_bits p + p.shape_bits) * left)
        (unpack_unsigned-Consumes s1 p.shape_bits r1 few)
        (λ ind s2 e r2.
          Consumes-map (decode_indices p s2 left) (λ rest. (sign, ind) ∷ rest) s2 _
            (decode_indices-Consumes p left s2 few r2)) in
    elim (Bool-cases p.have_sign) [
      | inl e ↦ rw (e) (
          Consumes-count _ s (1 + (p.shape_bits + (1 + p.shape_bits) * left)) _
            (one_more p.shape_bits left)
            (Consumes-bind (unpack_unsigned s 1) _ s 1 _
              (unpack_unsigned-Consumes s 1 r (omega arith))
              (λ sign s1 e1 r1. Consumes-count _ s1 _ _ (rw (e) refl) (step sign s1 r1))))
      | inr e ↦ rw (e) (
          Consumes-count _ s (p.shape_bits + (0 + p.shape_bits) * left) _
            (no_more p.shape_bits left) (Consumes-count _ s _ _ (rw (e) refl) (step 0 s r)))
    ]
  where
    one_more : (b left : ℕ) → 1 + (b + (1 + b) * left) ≡ (1 + b) * suc left
    one_more b left = grind arith

    no_more : (b left : ℕ) → b + (0 + b) * left ≡ (0 + b) * suc left
    no_more b left = grind arith

pub split_cb_shape_sign_unquant-Consumes :
    (k : SplitCb) (exc : List ℤ) (s : SpeexBits)
    → 40 ≤ length exc
    → IsReadable s
    → Consumes
        (split_cb_shape_sign_unquant exc (params k) s)
        s
        ((sign_bits (params k) + (params k).shape_bits) * (params k).nb_subvect)
split_cb_shape_sign_unquant-Consumes k exc s room r =
    let (exc', s', runs, indices, reads, size, same, r', fields) =
      split_cb_shape_sign_unquant_lem k exc s room r in
    let (indices', s2, reads', r2, moves) =
      decode_indices-Consumes (params k) (params k).nb_subvect s (params-IsSplit k).few r in
    (exc', s', runs, r', λ h. same_stream indices indices' s' s2 (sym reads ∙ reads') ∙ moves h)
  where
    same_stream :
        (x y : List (ℕ × ℕ)) (s s' : SpeexBits)
        → ◌≡◌ {A = Result (List (ℕ × ℕ) × SpeexBits)} (ok (x, s)) (ok (y, s'))
        → s ≡ s'
    same_stream x y s s' e = cc
