-- ===== src/Vq/Insert.antt =====
-- One insertion, place by place.
use native.Mathlib.Decide.{dec_lt}
use speex.Common.{
  ℕ, zero, suc, ◌+◌, ◌-◌, ◌≤◌, ◌<◌, ◌≡◌, ◌≢◌, refl, sym, ap, ◌∙◌, arith, true, false, ◌||◌,
  Bool-cases,
}
use speex.Common.{List, length, get_or, set, length-set, get_or-set, ltb, ◌⊎◌, inl, inr}
use speex.Common.{ℤ, pos, ltb_ℤ, ok, load-ok, store-ok}
use speex.Vq.{make_room}

abbrev pub dist_at : List ℤ → ℕ → ℤ
dist_at best_dist q = get_or best_dist q (pos 0)

abbrev pub entry_at : List ℕ → ℕ → ℕ
entry_at nbest q = get_or nbest q 0

-- The places from `k` to `top` have moved up by one; place `k` is free.
pub record IsMoved (k top : ℕ) (nbest nbest' : List ℕ) (best_dist best_dist' : List ℤ)
    : Type 0 where
  pub nbest_size : length nbest' ≡ length nbest
  pub dist_size : length best_dist' ≡ length best_dist
  pub below_dist : (q : ℕ) → q < k → dist_at best_dist' q ≡ dist_at best_dist q
  pub below_entry : (q : ℕ) → q < k → entry_at nbest' q ≡ entry_at nbest q
  pub moved_dist : (q : ℕ) → k ≤ q → q < top → dist_at best_dist' (q + 1) ≡ dist_at best_dist q
  pub above_dist : (q : ℕ) → top < q → dist_at best_dist' q ≡ dist_at best_dist q
  pub above_entry : (q : ℕ) → top < q → entry_at nbest' q ≡ entry_at nbest q
  pub moved_entry : (q : ℕ) → k ≤ q → q < top → entry_at nbest' (q + 1) ≡ entry_at nbest q

-- Why the loop stops at `k`, on `used` places that are filled.
pub record IsPlace (dist : ℤ) (used k top : ℕ) (best_dist : List ℤ) : Type 0 where
  pub bounded : k ≤ top
  pub before : k ≢ 0 → (k ≤ used) × (ltb_ℤ dist (dist_at best_dist (k - 1)) ≡ false)
  pub after : (q : ℕ) → k ≤ q → q < top → q < used → ltb_ℤ dist (dist_at best_dist q) ≡ true

module _ (dist : ℤ) (used : ℕ) where
  IsMoved-suc :
      (j k : ℕ) (nbest nbest' : List ℕ) (best_dist best_dist' : List ℤ)
      → suc k < length nbest
      → suc k < length best_dist
      → j ≤ k
      → IsMoved j k
          (set nbest (suc k) (entry_at nbest k))
          nbest'
          (set best_dist (suc k) (dist_at best_dist k))
          best_dist'
      → IsMoved j (suc k) nbest nbest' best_dist best_dist'
  IsMoved-suc j k nbest nbest' best_dist best_dist' hn hd le m =
      let n = entry_at nbest k in
      let d = dist_at best_dist k in
      let at_entry = λ (q : ℕ). get_or-set nbest (suc k) q n 0 hn in
      let at_dist = λ (q : ℕ). get_or-set best_dist (suc k) q d (pos 0) hd in
      record {
        nbest_size = m.nbest_size ∙ length-set nbest (suc k) n;
        dist_size = m.dist_size ∙ length-set best_dist (suc k) d;
        below_dist = λ q h. m.below_dist q h ∙ ground (arith, at_dist q);
        below_entry = λ q h. m.below_entry q h ∙ ground (arith, at_entry q);
        moved_dist = λ q h p. ground (
          arith,
          at_dist q,
          at_dist (q + 1),
          m.moved_dist q,
          m.above_dist (q + 1),
          last_place q k,
        );
        moved_entry = λ q h p. ground (
          arith,
          at_entry q,
          at_entry (q + 1),
          m.moved_entry q,
          m.above_entry (q + 1),
          last_place q k,
        );
        above_dist = λ q h. m.above_dist q (omega arith) ∙ ground (arith, at_dist q);
        above_entry = λ q h. m.above_entry q (omega arith) ∙ ground (arith, at_entry q);
      }
    where
      last_place : (q k : ℕ) → q < suc k → (q < k) ⊎ (q ≡ k)
      last_place q k h = elim (dec_lt q k) [ yes p ↦ inl p | no p ↦ inr (omega arith) ]

  IsPlace-suc :
      (j k : ℕ) (best_dist : List ℤ)
      → suc k < length best_dist
      → IsPlace dist used j k (set best_dist (suc k) (dist_at best_dist k))
      → (ltb used (suc k) || ltb_ℤ dist (dist_at best_dist k)) ≡ true
      → IsPlace dist used j (suc k) best_dist
  IsPlace-suc j k best_dist hd p go =
      let same = λ (q : ℕ) (h : q ≤ k). ap (λ (t : ℤ). ltb_ℤ dist t) (sym (untouched q h)) in
      record {
        bounded = omega (arith, p.bounded);
        before = λ h. let b = p.before h in (b.0, same (j - 1) (omega (arith, p.bounded)) ∙ b.1);
        after = λ q h r u. elim (dec_lt q k) [
          | yes lower ↦ same q (omega arith) ∙ p.after q h lower u
          | no top ↦ let here : q ≡ k = omega arith in rw (here) (ground (arith, go))
        ];
      }
    where
      untouched :
          (q : ℕ)
          → q ≤ k
          → dist_at (set best_dist (suc k) (dist_at best_dist k)) q ≡ dist_at best_dist q
      untouched q h =
          ground (arith, get_or-set best_dist (suc k) q (dist_at best_dist k) (pos 0) hd)

  pub make_room-IsMoved :
      (k : ℕ) (nbest : List ℕ) (best_dist : List ℤ)
      → k < length nbest
      → k < length best_dist
      → (j : ℕ) × (nbest' : List ℕ) × (best_dist' : List ℤ) × (make_room dist used nbest best_dist k
          ≡ ok (j, nbest', best_dist'))
        × IsMoved j k nbest nbest' best_dist best_dist'
        × IsPlace dist used j k best_dist
  unfolding make_room
  make_room-IsMoved zero nbest best_dist hn hd = (
    0,
    nbest,
    best_dist,
    refl,
    record {
      nbest_size = refl;
      dist_size = refl;
      below_dist = λ q h. refl;
      below_entry = λ q h. refl;
      above_dist = λ q h. refl;
      above_entry = λ q h. refl;
      moved_dist = λ q h p. absurd (omega arith);
      moved_entry = λ q h p. absurd (omega arith);
    },
    record {
      bounded = omega arith;
      before = λ h. absurd (h refl);
      after = λ q h p. absurd (omega arith);
    },
  )
  make_room-IsMoved (suc k) nbest best_dist hn hd =
      let d = dist_at best_dist k in
      elim (Bool-cases (ltb used (suc k) || ltb_ℤ dist d)) [
        | inr stop ↦ (
          suc k,
          nbest,
          best_dist,
          rw (load-ok best_dist k (pos 0) (omega arith), stop) refl,
          record {
            nbest_size = refl;
            dist_size = refl;
            below_dist = λ q h. refl;
            below_entry = λ q h. refl;
            above_dist = λ q h. refl;
            above_entry = λ q h. refl;
            moved_dist = λ q h p. absurd (omega arith);
            moved_entry = λ q h p. absurd (omega arith);
          },
          record {
            bounded = omega arith;
            before = λ h. ground (arith, stop);
            after = λ q h p. absurd (omega arith);
          },
        )
        | inl go ↦
            let n = entry_at nbest k in
            let best_dist1 = set best_dist (suc k) d in
            let nbest1 = set nbest (suc k) n in
            let (j, nbest', best_dist', runs, m, p) =
              make_room-IsMoved k nbest1 best_dist1 (omega (arith, length-set nbest (suc k) n))
                (omega (arith, length-set best_dist (suc k) d)) in
            (
              j,
              nbest',
              best_dist',
              rw
                  (
                    load-ok best_dist k (pos 0) (omega arith),
                    go,
                    store-ok best_dist (suc k) d hd,
                    load-ok nbest k 0 (omega arith),
                    store-ok nbest (suc k) n hn,
                  )
                  runs,
              IsMoved-suc j k nbest nbest' best_dist best_dist' hn hd p.bounded m,
              IsPlace-suc j k best_dist hd p go,
            )
      ]
