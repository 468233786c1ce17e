-- ===== src/NbControl/Rate.antt =====
-- The rate of a narrowband encoder: its bounds, and the search for the quality that fits a rate.
use speex.Common.{ℕ, zero, suc, ◌*◌, ◌/◌, ◌^◌, ◌≤◌, ◌<◌, ◌≡◌, refl, arith, get_or}
use speex.Common.{pos, ◌*ℤ◌, ok, fault, load-fault}
use speex.Modes.Narrow.{
  nb_mode, nb_submode1, nb_submode2, nb_submode3, nb_submode4, nb_submode5, nb_submode6,
  nb_submode7, nb_submode8,
}
use speex.NbControl.{EncState, mul32, quotient, current_bits, bitrate}

-- The bits of a frame in each sub-mode, and at each quality.
abbrev pub frame_bits : ℕ → ℕ
frame_bits zero = 5
frame_bits (suc zero) = 43
frame_bits (suc (suc zero)) = 119
frame_bits (suc (suc (suc zero))) = 160
frame_bits (suc (suc (suc (suc zero)))) = 220
frame_bits (suc (suc (suc (suc (suc zero))))) = 300
frame_bits (suc (suc (suc (suc (suc (suc zero)))))) = 364
frame_bits (suc (suc (suc (suc (suc (suc (suc zero))))))) = 492
frame_bits (suc (suc (suc (suc (suc (suc (suc (suc zero)))))))) = 79
frame_bits (suc (suc (suc (suc (suc (suc (suc (suc (suc zero))))))))) = 5
frame_bits (suc (suc (suc (suc (suc (suc (suc (suc (suc (suc zero)))))))))) = 5
frame_bits (suc (suc (suc (suc (suc (suc (suc (suc (suc (suc (suc zero))))))))))) = 5
frame_bits (suc (suc (suc (suc (suc (suc (suc (suc (suc (suc (suc (suc zero)))))))))))) = 5
frame_bits (suc (suc (suc (suc (suc (suc (suc (suc (suc (suc (suc (suc (suc zero))))))))))))) = 5
frame_bits
      (suc (suc (suc (suc (suc (suc (suc (suc (suc (suc (suc (suc (suc (suc zero)))))))))))))) =
    5
frame_bits
      (suc
        (suc (suc (suc (suc (suc (suc (suc (suc (suc (suc (suc (suc (suc (suc zero))))))))))))))) =
    5
frame_bits
      (suc (
        suc
          (suc (suc (suc (suc (suc (suc (suc (suc (suc (suc (suc (suc (suc (suc n)))))))))))))))) =
    0

abbrev pub quality_bits : ℕ → ℕ
quality_bits q = frame_bits (get_or nb_mode.quality_map q 0)

pub current_bits-inside :
    (id : ℕ) → id < 16 → current_bits nb_mode.submodes (pos id) ≡ ok (frame_bits id)
unfolding current_bits nb_mode nb_submode1 nb_submode2 nb_submode3 nb_submode4 nb_submode5
    nb_submode6 nb_submode7 nb_submode8
current_bits-inside zero h = refl
current_bits-inside (suc zero) h = refl
current_bits-inside (suc (suc zero)) h = refl
current_bits-inside (suc (suc (suc zero))) h = refl
current_bits-inside (suc (suc (suc (suc zero)))) h = refl
current_bits-inside (suc (suc (suc (suc (suc zero))))) h = refl
current_bits-inside (suc (suc (suc (suc (suc (suc zero)))))) h = refl
current_bits-inside (suc (suc (suc (suc (suc (suc (suc zero))))))) h = refl
current_bits-inside (suc (suc (suc (suc (suc (suc (suc (suc zero)))))))) h = refl
current_bits-inside (suc (suc (suc (suc (suc (suc (suc (suc (suc zero))))))))) h = refl
current_bits-inside (suc (suc (suc (suc (suc (suc (suc (suc (suc (suc zero)))))))))) h = refl
current_bits-inside (suc (suc (suc (suc (suc (suc (suc (suc (suc (suc (suc zero))))))))))) h = refl
current_bits-inside (suc (suc (suc (suc (suc (suc (suc (suc (suc (suc (suc (suc zero)))))))))))) h =
    refl
current_bits-inside
      (suc (suc (suc (suc (suc (suc (suc (suc (suc (suc (suc (suc (suc zero))))))))))))) h =
    refl
current_bits-inside
      (suc (suc (suc (suc (suc (suc (suc (suc (suc (suc (suc (suc (suc (suc zero)))))))))))))) h =
    refl
current_bits-inside
      (suc (suc (suc (suc (suc (suc (suc (suc (suc (suc (suc (suc (suc (suc (suc zero)))))))))))))))
      h =
    refl
current_bits-inside
      (suc
        (suc (suc (suc (suc (suc (suc (suc (suc (suc (suc (suc (suc (suc (suc (suc n))))))))))))))))
      h =
    absurd (omega arith)

pub current_bits-outside : (n : ℕ) → 16 ≤ n → current_bits nb_mode.submodes (pos n) ≡ fault
unfolding current_bits nb_mode
current_bits-outside n h = rw (load-fault nb_mode.submodes n h) refl

frame_bits-le : (id : ℕ) → frame_bits id ≤ 492
frame_bits-le zero = omega arith
frame_bits-le (suc zero) = omega arith
frame_bits-le (suc (suc zero)) = omega arith
frame_bits-le (suc (suc (suc zero))) = omega arith
frame_bits-le (suc (suc (suc (suc zero)))) = omega arith
frame_bits-le (suc (suc (suc (suc (suc zero))))) = omega arith
frame_bits-le (suc (suc (suc (suc (suc (suc zero)))))) = omega arith
frame_bits-le (suc (suc (suc (suc (suc (suc (suc zero))))))) = omega arith
frame_bits-le (suc (suc (suc (suc (suc (suc (suc (suc zero)))))))) = omega arith
frame_bits-le (suc (suc (suc (suc (suc (suc (suc (suc (suc zero))))))))) = omega arith
frame_bits-le (suc (suc (suc (suc (suc (suc (suc (suc (suc (suc zero)))))))))) = omega arith
frame_bits-le (suc (suc (suc (suc (suc (suc (suc (suc (suc (suc (suc zero))))))))))) = omega arith
frame_bits-le (suc (suc (suc (suc (suc (suc (suc (suc (suc (suc (suc (suc zero)))))))))))) =
    omega arith
frame_bits-le (suc (suc (suc (suc (suc (suc (suc (suc (suc (suc (suc (suc (suc zero))))))))))))) =
    omega arith
frame_bits-le
      (suc (suc (suc (suc (suc (suc (suc (suc (suc (suc (suc (suc (suc (suc zero)))))))))))))) =
    omega arith
frame_bits-le
      (suc
        (suc (suc (suc (suc (suc (suc (suc (suc (suc (suc (suc (suc (suc (suc zero))))))))))))))) =
    omega arith
frame_bits-le
      (suc (
        suc
          (suc (suc (suc (suc (suc (suc (suc (suc (suc (suc (suc (suc (suc (suc n)))))))))))))))) =
    omega arith

mul32-fits : (a b : ℕ) → a * b < 2 ^ 31 → mul32 (pos a) b ≡ ok (pos (a * b))
unfolding mul32 ◌*ℤ◌
mul32-fits a b h = ground arith

pub mul32-overflows : (a b : ℕ) → 2 ^ 31 ≤ a * b → mul32 (pos a) b ≡ fault
unfolding mul32 ◌*ℤ◌
mul32-overflows a b h = ground arith

product-le : (n b c : ℕ) → b ≤ c → n * b ≤ n * c
product-le n b c h = grind arith

-- The rate of sub-mode `id` at a sampling rate `n`.
abbrev pub rate : ℕ → ℕ → ℕ
rate n id = n * frame_bits id / 160

pub bitrate-inside :
    (n id : ℕ) (st : EncState)
    → n ≤ 4364804
    → id < 16
    → st.sampling_rate ≡ pos n
    → st.submode_id ≡ pos id
    → bitrate nb_mode st ≡ ok (pos (rate n id))
unfolding bitrate quotient
bitrate-inside n id st few inside r s =
    rw
      (
        r,
        s,
        current_bits-inside id inside,
        mul32-fits n (frame_bits id)
            (omega (arith, product-le n (frame_bits id) 492 (frame_bits-le id))),
      )
      refl
