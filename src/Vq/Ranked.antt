-- ===== src/Vq/Ranked.antt =====
-- The best candidates so far: what it means, at the start, and where a candidate does not qualify.
use native.Mathlib.Decide.{dec_lt}
use speex.Common.{ℕ, ◌+◌, ◌-◌, ◌≤◌, ◌<◌, ◌≡◌, ◌≢◌, refl, arith, false, true, List, ◌⊎◌, inl, inr}
use speex.Common.{ℤ, ltb_ℤ, ◌≤ℤ◌}
use speex.Vq.Insert.{dist_at, entry_at}

pub lt-le : (a b : ℤ) → ltb_ℤ a b ≡ true → a ≤ℤ b
lt-le a b h = ground arith

pub not_lt-le : (a b : ℤ) → ltb_ℤ a b ≡ false → b ≤ℤ a
not_lt-le a b h = ground arith

-- Candidate `i` has distance `dist i` and name `name i`. The first `size` places, or as many as
-- there are candidates, hold the best of the first `m` candidates in ascending order.
module _ (dist : ℕ → ℤ) (name : ℕ → ℕ) (size : ℕ) where
  pub record IsRanked (m used : ℕ) (nbest : List ℕ) (best_dist : List ℤ) : Type 0 where
    pub filled : ((m ≤ size) × (used ≡ m)) ⊎ ((size ≤ m) × (size ≤ used))
    pub sorted :
        (j j' : ℕ) → j ≤ j' → j' < m → j' < size → dist_at best_dist j ≤ℤ dist_at best_dist j'
    pub candidates :
        (j : ℕ)
        → j < m
        → j < size
        → (i : ℕ) × (i < m) × (entry_at nbest j ≡ name i) × (dist_at best_dist j ≡ dist i)
    pub distinct : (j j' : ℕ) → j < j' → j' < m → j' < size → entry_at nbest j ≢ entry_at nbest j'
    pub best :
        (i : ℕ)
        → i < m
        → ((j : ℕ) × (j < m) × (j < size) × (entry_at nbest j ≡ name i))
          ⊎ ((size ≤ m) × ((j : ℕ) → j < m → j < size → dist_at best_dist j ≤ℤ dist i))

  -- A candidate that does not qualify changes nothing.
  pub refuse-IsRanked :
      (m used : ℕ) (nbest : List ℕ) (best_dist : List ℤ)
      → 0 < size
      → size ≤ m
      → ltb_ℤ (dist m) (dist_at best_dist (size - 1)) ≡ false
      → IsRanked m used nbest best_dist
      → IsRanked (m + 1) used nbest best_dist
  refuse-IsRanked m used nbest best_dist some full bad r = record {
    filled = inr (omega arith, omega (arith, r.filled));
    sorted = λ j j' h p u. r.sorted j j' h (omega arith) u;
    candidates =
        λ j p u. let (i, below, e, d) = r.candidates j (omega arith) u in (i, omega arith, e, d);
    distinct = λ j j' h p u. r.distinct j j' h (omega arith) u;
    best = λ i h. elim (dec_lt i m) [
      | yes a ↦ elim (r.best i a) [
        | inl (j, p, u, e) ↦ inl (j, omega arith, u, e)
        | inr (f, all) ↦ inr (omega arith, λ j p u. all j (omega arith) u)
      ]
      | no a ↦
          let this : i ≡ m = omega arith in
          inr (
            omega arith,
            λ j p u. rw (this) (
                omega (
                  arith,
                  r.sorted j (size - 1) (omega arith) (omega arith) (omega arith),
                  not_lt-le (dist m) (dist_at best_dist (size - 1)) bad,
                )),
          )
    ];
  }

  pub empty-IsRanked : (nbest : List ℕ) (best_dist : List ℤ) → IsRanked 0 0 nbest best_dist
  empty-IsRanked nbest best_dist = record {
    filled = inl (omega arith, refl);
    sorted = λ j j' h p u. absurd (omega arith);
    candidates = λ j p u. absurd (omega arith);
    distinct = λ j j' h p u. absurd (omega arith);
    best = λ i h. absurd (omega arith);
  }
