-- ===== src/CbSearch/Noise.antt =====
-- The noise fills the subframe.
use speex.Common.{
  ℕ, zero, suc, ◌+◌, ◌≤◌, ◌≡◌, refl, ◌∙◌, arith, List, length, set, length-set, ℤ, pos, ok,
  store-ok,
}
use speex.Fixed.{shl32}
use speex.MathApprox.{speex_rand}
use speex.CbSearch.{noise_codebook_unquant}

pub noise_codebook_unquant-ok :
    (exc : List ℤ) (i seed left : ℕ)
    → i + left ≤ length exc
    → (exc' : List ℤ) × (seed' : ℕ) × (noise_codebook_unquant exc i seed left ≡ ok (exc', seed'))
      × (length exc' ≡ length exc)
unfolding noise_codebook_unquant
noise_codebook_unquant-ok exc i seed zero room = (exc, seed, refl, refl)
noise_codebook_unquant-ok exc i seed (suc left) room =
    let (r, seed') = speex_rand (pos 1) seed in
    let exc1 = set exc i (shl32 r 14) in
    let same = length-set exc i (shl32 r 14) in
    let (exc', s', runs, kept) =
      noise_codebook_unquant-ok exc1 (i + 1) seed' left (omega (arith, same)) in
    (exc', s', rw (store-ok exc i (shl32 r 14) (omega arith)) runs, kept ∙ same)
