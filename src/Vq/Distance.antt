-- ===== src/Vq/Distance.antt =====
-- The distances of the entries, as numbers of the arrays.
use speex.Common.{ℕ, zero, suc, ◌+◌, ◌*◌, ◌≤◌, ◌<◌, ◌≡◌, refl, arith, Bool-cases}
use speex.Common.{List, length, get_or, if◌then◌else◌, inl, inr, ℤ, pos, ltb_ℤ, ok, load-ok}
use speex.Fixed.{mult16_16, shr, add32, sub32, neg32}
use speex.Vq.{correlate, distance, distance_sign}

codeword_inside : (len i entries n : ℕ) → i < entries → len * entries ≤ n → len * i + len ≤ n
codeword_inside len i entries n h le = grind arith

module _ (input codebook : List ℤ) where
  -- The correlation from place `j` on, added to `sum`.
  abbrev pub correlation : ℕ → ℕ → ℤ → ℕ → ℤ
  correlation base j sum zero = sum
  correlation base j sum (suc left) =
      correlation base (j + 1)
        (add32 sum (mult16_16 (get_or input j (pos 0)) (get_or codebook (base + j) (pos 0)))) left

  correlate-ok :
      (base left j : ℕ) (sum : ℤ)
      → j + left ≤ length input
      → base + j + left ≤ length codebook
      → correlate input codebook base j sum left ≡ ok (correlation base j sum left)
  unfolding correlate
  correlate-ok base zero j sum hi hc = refl
  correlate-ok base (suc left) j sum hi hc =
      rw (load-ok input j (pos 0) (omega arith), load-ok codebook (base + j) (pos 0) (omega arith))
        (correlate-ok base left (j + 1)
          (add32 sum (mult16_16 (get_or input j (pos 0)) (get_or codebook (base + j) (pos 0))))
          (omega arith) (omega arith))

  module _ (len : ℕ) (energy : List ℤ) where
    -- The correlation of entry `i`, and half its energy.
    abbrev pub match_of : ℕ → ℤ
    match_of i = correlation (len * i) 0 (pos 0) len

    abbrev pub half_energy : ℕ → ℤ
    half_energy i = shr (get_or energy i (pos 0)) 1

    abbrev pub dist_of : ℕ → ℤ
    dist_of i = sub32 (half_energy i) (match_of i)

    -- With the sign that makes the distance smaller.
    abbrev pub signed_dist_of : ℕ → ℤ
    signed_dist_of i =
        add32 (if ltb_ℤ (pos 0) (match_of i) then neg32 (match_of i) else match_of i)
          (half_energy i)

    -- What is added to the index of an entry that is used with a negative sign.
    abbrev pub sign_of : ℕ → ℕ → ℕ
    sign_of entries i = if ltb_ℤ (pos 0) (match_of i) then 0 else entries

    module _ (entries : ℕ) (wide : len ≤ length input) (whole : len * entries ≤ length codebook)
        (known : entries ≤ length energy) (i : ℕ) (h : i < entries) where
      inside : len * i + len ≤ length codebook
      inside = codeword_inside len i entries (length codebook) h whole

      match_ok : correlate input codebook (len * i) 0 (pos 0) len ≡ ok (match_of i)
      match_ok = correlate-ok (len * i) len 0 (pos 0) (omega arith) (omega (arith, inside))

      pub distance-ok : distance input codebook len energy i ≡ ok (dist_of i, 0)
      unfolding distance
      distance-ok = rw (match_ok, load-ok energy i (pos 0) (omega arith)) refl

      pub distance_sign-ok :
          distance_sign input codebook len entries energy i
          ≡ ok (signed_dist_of i, sign_of entries i)
      unfolding distance_sign
      distance_sign-ok = elim (Bool-cases (ltb_ℤ (pos 0) (match_of i))) [
        | inl e ↦ rw (match_ok, load-ok energy i (pos 0) (omega arith), e) refl
        | inr e ↦ rw (match_ok, load-ok energy i (pos 0) (omega arith), e) refl
      ]
