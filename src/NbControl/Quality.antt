-- ===== src/NbControl/Quality.antt =====
-- The search for the quality that fits a rate.
use native.Mathlib.Decide.{dec_lt}
use speex.Common.{
  ℕ, zero, suc, ◌≤◌, ◌<◌, ◌≡◌, ◌⊎◌, inl, inr, refl, arith, Bool-cases, true, false, get_or,
}
use speex.Common.{pos_part, ◌≢◌, ℤ, pos, negsuc, ◌≤ℤ◌, ltb_ℤ, ok, ◌>>=◌, load-ok}
use speex.Modes.Narrow.{nb_mode}
use speex.NbControl.{
  EncState, set_bitrate, set_abr, enable_abr, get_bitrate, set_quality, clamp_quality,
  select_quality, search_rate, done, gives, nb_encoder_ctl,
}
use speex.NbControl.Rate.{rate, bitrate-inside}

abbrev pub submode_of : ℕ → ℕ
submode_of q = get_or nb_mode.quality_map q 0

-- The state behind a request for quality `q`.
abbrev pub at_quality : ℕ → EncState → EncState
at_quality q st = record st { submode_id = pos (submode_of q); submode_select = pos (submode_of q) }

submode_of-lt : (q : ℕ) → submode_of q < 16
unfolding nb_mode
submode_of-lt zero = omega arith
submode_of-lt (suc zero) = omega arith
submode_of-lt (suc (suc zero)) = omega arith
submode_of-lt (suc (suc (suc zero))) = omega arith
submode_of-lt (suc (suc (suc (suc zero)))) = omega arith
submode_of-lt (suc (suc (suc (suc (suc zero))))) = omega arith
submode_of-lt (suc (suc (suc (suc (suc (suc zero)))))) = omega arith
submode_of-lt (suc (suc (suc (suc (suc (suc (suc zero))))))) = omega arith
submode_of-lt (suc (suc (suc (suc (suc (suc (suc (suc zero)))))))) = omega arith
submode_of-lt (suc (suc (suc (suc (suc (suc (suc (suc (suc zero))))))))) = omega arith
submode_of-lt (suc (suc (suc (suc (suc (suc (suc (suc (suc (suc zero)))))))))) = omega arith
submode_of-lt (suc (suc (suc (suc (suc (suc (suc (suc (suc (suc (suc q))))))))))) = omega arith

select_quality-at :
    (q : ℕ) (st : EncState) → q ≤ 10 → select_quality nb_mode (pos q) st ≡ ok (at_quality q st)
unfolding select_quality clamp_quality nb_mode
select_quality-at q st h = rw (le10 q h, load-ok nb_mode.quality_map q 0 (omega arith)) refl
  where
    le10 : (q : ℕ) → q ≤ 10 → clamp_quality (pos q) ≡ q
    le10 q h = ground arith

-- Of the qualities below `n`, `q` is the highest one whose rate fits, or 0 where none fits.
pub record IsBestQuality (sampling_rate : ℕ) (target : ℤ) (n q : ℕ) : Type 0 where
  pub fits : (pos (rate sampling_rate (submode_of q)) ≤ℤ target) ⊎ (q ≡ 0)
  pub highest :
      (q' : ℕ) → q < q' → q' < n → ltb_ℤ target (pos (rate sampling_rate (submode_of q'))) ≡ true
  pub listed : q ≤ 10

IsBestQuality-first :
    (r : ℕ) (target : ℤ) (i : ℕ)
    → i ≤ 10
    → ltb_ℤ target (pos (rate r (submode_of i))) ≡ false
    → IsBestQuality r target (suc i) i
IsBestQuality-first r target i le e = record {
  fits = inl (fitting target (pos (rate r (submode_of i))) e);
  highest = λ q' a b. absurd (omega arith);
  listed = le;
}
  where
    fitting : (a b : ℤ) → ltb_ℤ a b ≡ false → b ≤ℤ a
    fitting a b e = ground arith

IsBestQuality-next :
    (r : ℕ) (target : ℤ) (i q : ℕ)
    → ltb_ℤ target (pos (rate r (submode_of i))) ≡ true
    → IsBestQuality r target i q
    → IsBestQuality r target (suc i) q
IsBestQuality-next r target i q e b = record {
  fits = b.fits;
  highest = λ q' above below. elim (dec_lt q' i) [
    | yes inside ↦ b.highest q' above inside
    | no last ↦ rw (the_last q' i below last) e
  ];
  listed = b.listed;
}
  where
    the_last : (q' i : ℕ) → q' < suc i → ¬ (q' < i) → q' ≡ i
    the_last q' i a b = omega arith

search_rate-best :
    (r : ℕ) (target : ℤ) (i : ℕ) (st : EncState)
    → r ≤ 4364804
    → i ≤ 10
    → st.sampling_rate ≡ pos r
    → (q : ℕ) × (index : ℤ) × (search_rate nb_mode target (suc i) st
        ≡ ok (record { state = at_quality q st; index = index }))
      × (pos_part index ≡ q)
      × IsBestQuality r target (suc i) q
unfolding search_rate
search_rate-best r target zero st few le same =
    let rated = bitrate-inside r (submode_of 0) (at_quality 0 st) few (submode_of-lt 0) same refl in
    elim (Bool-cases (ltb_ℤ target (pos (rate r (submode_of 0))))) [
      | inl e ↦ (
        0,
        negsuc 0,
        rw (select_quality-at 0 st le, rated, e) refl,
        refl,
        record { fits = inr refl; highest = λ q' a b. absurd (omega arith); listed = omega arith },
      )
      | inr e ↦ (
        0,
        pos 0,
        rw (select_quality-at 0 st le, rated, e) refl,
        refl,
        IsBestQuality-first r target 0 le e,
      )
    ]
search_rate-best r target (suc i) st few le same =
    let rated =
      bitrate-inside r (submode_of (suc i)) (at_quality (suc i) st) few (submode_of-lt (suc i)) same
        refl in
    elim (Bool-cases (ltb_ℤ target (pos (rate r (submode_of (suc i)))))) [
      | inl e ↦
          let (q, index, runs, at, best) =
            search_rate-best r target i (at_quality (suc i) st) few (omega arith) same in
          (
            q,
            index,
            rw (select_quality-at (suc i) st le, rated, e) runs,
            at,
            IsBestQuality-next r target (suc i) q e best,
          )
      | inr e ↦ (
        suc i,
        pos (suc i),
        rw (select_quality-at (suc i) st le, rated, e) refl,
        refl,
        IsBestQuality-first r target (suc i) le e,
      )
    ]

-- SPEEX_SET_BITRATE to a narrowband encoder whose sampling rate is at least 0 and at most
-- 4364804 returns and leaves the state that SPEEX_SET_QUALITY leaves for some quality q of 0 to
-- 10; SPEEX_GET_BITRATE then gives the sampling rate times the bits of q's sub-mode over 160.
-- The rate of q is at most the target or q is 0, whose rate may be above the target, and every
-- quality above q has a rate above the target.
pub set_bitrate-IsBestQuality :
    (target : ℤ) (r : ℕ) (st : EncState)
    → st.sampling_rate ≡ pos r
    → r ≤ 4364804
    → (q : ℕ) × (nb_encoder_ctl nb_mode (set_bitrate target) st ≡ done (at_quality q st))
      × (nb_encoder_ctl nb_mode (set_quality (pos q)) st ≡ done (at_quality q st))
      × (nb_encoder_ctl nb_mode get_bitrate (at_quality q st)
          ≡ gives (pos (rate r (submode_of q))) (at_quality q st))
      × IsBestQuality r target 11 q
unfolding nb_encoder_ctl
set_bitrate-IsBestQuality target r st same few =
    let (q, index, runs, at, best) = search_rate-best r target 10 st few (omega arith) same in
    (
      q,
      rw (runs) refl,
      rw (select_quality-at q st best.listed) refl,
      rw (bitrate-inside r (submode_of q) (at_quality q st) few (submode_of-lt q) same refl) refl,
      best,
    )

-- The state before the search for an average rate.
abbrev pub with_abr : ℤ → EncState → EncState
with_abr target st = record st { abr_enabled = target; vbr_enabled = pos 1 }

enable_abr-on :
    (target : ℤ) (st : EncState)
    → target ≢ pos 0
    → enable_abr nb_mode target st ≡ (
        search_rate nb_mode target 11 (with_abr target st) >>= λ r.
        ok (record (r.state) { vbr_quality = pos (pos_part r.index) }))
unfolding enable_abr
enable_abr-on (pos zero) st on = absurd (on refl)
enable_abr-on (pos (suc n)) st on = refl
enable_abr-on (negsuc n) st on = refl

-- SPEEX_SET_ABR with a target other than 0, to a narrowband encoder whose sampling rate is at
-- least 0 and at most 4364804, stores the target, enables variable bit-rate, and leaves the
-- sub-mode and the quality of variable bit-rate at some quality q of 0 to 10: the rate of q is
-- at most the target or q is 0, and every quality above q has a rate above the target.
pub set_abr-IsBestQuality :
    (target : ℤ) (r : ℕ) (st : EncState)
    → target ≢ pos 0
    → st.sampling_rate ≡ pos r
    → r ≤ 4364804
    → (q : ℕ) × (nb_encoder_ctl nb_mode (set_abr target) st
        ≡ done (record (at_quality q (with_abr target st)) { vbr_quality = pos q }))
      × IsBestQuality r target 11 q
unfolding nb_encoder_ctl
set_abr-IsBestQuality target r st on same few =
    let (q, index, runs, at, best) =
      search_rate-best r target 10 (with_abr target st) few (omega arith) same in
    (q, rw (enable_abr-on target st on, runs, at) refl, best)
