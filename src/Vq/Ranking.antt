-- ===== src/Vq/Ranking.antt =====
-- One more candidate among the best ones so far keeps them the best.
use native.Mathlib.Decide.{dec_lt}
use speex.Common.{ℕ, ◌+◌, ◌-◌, ◌≤◌, ◌<◌, ◌≡◌, ◌≢◌, sym, ◌∙◌, arith, true}
use speex.Common.{List, length, set, get_or-set_self, get_or-set_ne, ◌⊎◌, inl, inr}
use speex.Common.{ℤ, pos, ltb_ℤ, ◌≤ℤ◌}
use speex.Vq.Insert.{dist_at, entry_at, IsMoved, IsPlace}
use speex.Vq.Ranked.{IsRanked, lt-le, not_lt-le}

module _ (dist : ℕ → ℤ) (name : ℕ → ℕ) (size : ℕ) where
  module _ (m used k : ℕ) (injective : (i i' : ℕ) → i < i' → i' ≤ m → name i ≢ name i')
      (nbest : List ℕ) (best_dist : List ℤ) (nbest1 : List ℕ) (best_dist1 : List ℤ)
      (room_n : size ≤ length nbest) (room_d : size ≤ length best_dist) (some_place : 0 < size)
      (r : IsRanked dist name size m used nbest best_dist)
      (moved : IsMoved k (size - 1) nbest nbest1 best_dist best_dist1)
      (place : IsPlace (dist m) used k (size - 1) best_dist)
      (good : (m < size) ⊎ (ltb_ℤ (dist m) (dist_at best_dist (size - 1)) ≡ true)) where
    abbrev pub new_dist : List ℤ
    new_dist = set best_dist1 k (dist m)

    abbrev pub new_entries : List ℕ
    new_entries = set nbest1 k (name m)

    in_dist : k < length best_dist1
    in_dist = omega (arith, moved.dist_size, place.bounded)

    in_entries : k < length nbest1
    in_entries = omega (arith, moved.nbest_size, place.bounded)

    new_at : dist_at new_dist k ≡ dist m
    new_at = get_or-set_self best_dist1 k (dist m) (pos 0) in_dist

    new_below : (q : ℕ) → q < k → dist_at new_dist q ≡ dist_at best_dist q
    new_below q h =
        get_or-set_ne best_dist1 k q (dist m) (pos 0) (omega arith) ∙ moved.below_dist q h

    new_above : (q : ℕ) → k ≤ q → q + 1 < size → dist_at new_dist (q + 1) ≡ dist_at best_dist q
    new_above q h p =
        get_or-set_ne best_dist1 k (q + 1) (dist m) (pos 0) (omega arith)
        ∙ moved.moved_dist q h (omega arith)

    entry_new : entry_at new_entries k ≡ name m
    entry_new = get_or-set_self nbest1 k (name m) 0 in_entries

    entry_below : (q : ℕ) → q < k → entry_at new_entries q ≡ entry_at nbest q
    entry_below q h = get_or-set_ne nbest1 k q (name m) 0 (omega arith) ∙ moved.below_entry q h

    entry_above : (q : ℕ) → k ≤ q → q + 1 < size → entry_at new_entries (q + 1) ≡ entry_at nbest q
    entry_above q h p =
        get_or-set_ne nbest1 k (q + 1) (name m) 0 (omega arith)
        ∙ moved.moved_entry q h (omega arith)

    -- The place is among the filled ones or the first free one.
    place-le : k ≤ m
    place-le = elim (dec_lt 0 k) [
      | yes p ↦ omega (arith, place.before (λ e. omega arith), place.bounded, r.filled)
      | no p ↦ omega arith
    ]

    lower-le : (j : ℕ) → j < k → dist_at best_dist j ≤ℤ dist m
    lower-le j h =
        let b = place.before (λ e. omega arith) in
        let s =
          r.sorted j (k - 1) (omega arith) (omega (arith, place-le))
            (omega (arith, place.bounded)) in
        omega (arith, s, not_lt-le (dist m) (dist_at best_dist (k - 1)) b.1)

    le-upper : (q : ℕ) → k ≤ q → q < m → q < size → dist m ≤ℤ dist_at best_dist q
    le-upper q h p u = elim (dec_lt q (size - 1)) [
      | yes inner ↦
          lt-le (dist m) (dist_at best_dist q) (place.after q h inner (omega (arith, r.filled)))
      | no outer ↦
          let last : q ≡ size - 1 = omega arith in
          rw (last) (elim good [
            | inl few ↦ absurd (omega arith)
            | inr beats ↦ lt-le (dist m) (dist_at best_dist (size - 1)) beats
          ])
    ]

    -- Where a place of the new ranking comes from.
    data Origin (j : ℕ) : Type 0 where
      old : j < k → Origin j
      new : j ≡ k → Origin j
      shifted : (q : ℕ) → j ≡ q + 1 → k ≤ q → Origin j

    origin : (j : ℕ) → Origin j
    origin j = elim (dec_lt j k) [
      | yes p ↦ old p
      | no p ↦ elim (dec_lt k j) [
        | yes q ↦ shifted (j - 1) (omega arith) (omega arith)
        | no q ↦ new (omega arith)
      ]
    ]

    sorted_cases :
        (j j' : ℕ)
        → Origin j
        → Origin j'
        → j ≤ j'
        → j' < m + 1
        → j' < size
        → dist_at new_dist j ≤ℤ dist_at new_dist j'
    sorted_cases j j' (old a) (old b) h p u =
        rw (new_below j a, new_below j' b) (r.sorted j j' h (omega (arith, place-le)) u)
    sorted_cases j j' (old a) (new e) h p u = rw (new_below j a, e, new_at) (lower-le j a)
    sorted_cases j j' (old a) (shifted q e b) h p u =
        rw (new_below j a, e, new_above q b (omega arith))
          (r.sorted j q (omega arith) (omega arith) (omega arith))
    sorted_cases j j' (new e) (old b) h p u = absurd (omega arith)
    sorted_cases j j' (new e) (new e') h p u = rw (e, e') (omega arith)
    sorted_cases j j' (new e) (shifted q e' b) h p u =
        rw (e, new_at, e', new_above q b (omega arith)) (le-upper q b (omega arith) (omega arith))
    sorted_cases j j' (shifted q e a) (old b) h p u = absurd (omega arith)
    sorted_cases j j' (shifted q e a) (new e') h p u = absurd (omega arith)
    sorted_cases j j' (shifted q e a) (shifted q' e' b) h p u =
        rw (e, e', new_above q a (omega arith), new_above q' b (omega arith))
          (r.sorted q q' (omega arith) (omega arith) (omega arith))

    candidate_cases :
        (j : ℕ)
        → Origin j
        → j < m + 1
        → j < size
        → (i : ℕ) × (i < m + 1) × (entry_at new_entries j ≡ name i) × (dist_at new_dist j ≡ dist i)
    candidate_cases j (old a) p u =
        let (i, below, e, d) = r.candidates j (omega (arith, place-le)) u in
        (i, omega arith, entry_below j a ∙ e, new_below j a ∙ d)
    candidate_cases j (new e) p u = (m, omega arith, rw (e) entry_new, rw (e) new_at)
    candidate_cases j (shifted q e a) p u =
        let (i, below, e', d) = r.candidates q (omega arith) (omega arith) in
        (
          i,
          omega arith,
          rw (e) (entry_above q a (omega arith) ∙ e'),
          rw (e) (new_above q a (omega arith) ∙ d),
        )

    -- The name of the new candidate is no name that stands there.
    fresh : (q : ℕ) → q < m → q < size → entry_at nbest q ≢ name m
    fresh q p u same =
        let (i, below, e, d) = r.candidates q p u in
        injective i m below (omega arith) (sym e ∙ same)

    distinct_cases :
        (j j' : ℕ)
        → Origin j
        → Origin j'
        → j < j'
        → j' < m + 1
        → j' < size
        → entry_at new_entries j ≢ entry_at new_entries j'
    distinct_cases j j' (old a) (old b) h p u same =
        r.distinct j j' h (omega (arith, place-le)) u
          (sym (entry_below j a) ∙ same ∙ entry_below j' b)
    distinct_cases j j' (old a) (new e) h p u same =
        fresh j (omega (arith, place-le)) (omega arith)
          (sym (entry_below j a) ∙ same ∙ rw (e) entry_new)
    distinct_cases j j' (old a) (shifted q e b) h p u same =
        r.distinct j q (omega arith) (omega arith) (omega arith)
          (sym (entry_below j a) ∙ same ∙ rw (e) (entry_above q b (omega arith)))
    distinct_cases j j' (new e) (old b) h p u same = omega arith
    distinct_cases j j' (new e) (new e') h p u same = omega arith
    distinct_cases j j' (new e) (shifted q e' b) h p u same =
        fresh q (omega arith) (omega arith)
          (sym (rw (e') (entry_above q b (omega arith))) ∙ sym same ∙ rw (e) entry_new)
    distinct_cases j j' (shifted q e a) (old b) h p u same = omega arith
    distinct_cases j j' (shifted q e a) (new e') h p u same = omega arith
    distinct_cases j j' (shifted q e a) (shifted q' e' b) h p u same =
        r.distinct q q' (omega arith) (omega arith) (omega arith) (
          sym (rw (e) (entry_above q a (omega arith)))
          ∙ same
          ∙ rw (e') (entry_above q' b (omega arith)))

    -- What fell off the end, or was never there, is not better than any place.
    dropped :
        (i : ℕ)
        → size ≤ m
        → dist_at best_dist (size - 1) ≤ℤ dist i
        → (j : ℕ) → Origin j
        → j < size
        → dist_at new_dist j ≤ℤ dist i
    dropped i full worst j (old a) u =
        rw (new_below j a)
          (omega (arith, worst, r.sorted j (size - 1) (omega arith) (omega arith) (omega arith)))
    dropped i full worst j (new e) u =
        rw (e, new_at)
          (elim good [
            | inl few ↦ absurd (omega arith)
            | inr beats ↦ omega (arith, worst, lt-le (dist m) (dist_at best_dist (size - 1)) beats)
          ])
    dropped i full worst j (shifted q e a) u =
        rw (e, new_above q a (omega arith))
          (omega (arith, worst, r.sorted q (size - 1) (omega arith) (omega arith) (omega arith)))

    abbrev IsKept : ℕ → Type 0
    IsKept i =
        ((j : ℕ) × (j < m + 1) × (j < size) × (entry_at new_entries j ≡ name i))
        ⊎ ((size ≤ m + 1) × ((j : ℕ) → j < m + 1 → j < size → dist_at new_dist j ≤ℤ dist i))

    IsKept-from :
        (i : ℕ) → i < m → (j : ℕ) → j < m → j < size → entry_at nbest j ≡ name i → IsKept i
    IsKept-from i h j p u e = elim (dec_lt j k) [
      | yes a ↦ inl (j, omega arith, u, entry_below j a ∙ e)
      | no a ↦ elim (dec_lt (j + 1) size) [
        | yes b ↦ inl (j + 1, omega arith, b, entry_above j (omega arith) b ∙ e)
        | no b ↦
            let last : j ≡ size - 1 = omega arith in
            inr (omega arith, λ j' p' u'. dropped i (omega arith) (worst last) j' (origin j') u')
      ]
    ]
      where
        same_candidate : (i' : ℕ) → i' < m → entry_at nbest j ≡ name i' → i' ≡ i
        same_candidate i' h' e' = elim (dec_lt i i') [
          | yes a ↦ absurd (injective i i' a (omega arith) (sym e ∙ e'))
          | no a ↦ elim (dec_lt i' i) [
            | yes b ↦ absurd (injective i' i b (omega arith) (sym e' ∙ e))
            | no b ↦ omega arith
          ]
        ]

        worst : j ≡ size - 1 → dist_at best_dist (size - 1) ≤ℤ dist i
        worst last =
            let (i', h', e', d) = r.candidates j p u in
            rw (← last, d, same_candidate i' h' e') (omega arith)

    kept : (i : ℕ) → i < m + 1 → IsKept i
    kept i h = elim (dec_lt i m) [
      | no a ↦
          let this : i ≡ m = omega arith in
          inl (k, omega (arith, place-le), omega (arith, place.bounded), rw (this) entry_new)
      | yes a ↦ elim (r.best i a) [
        | inl (j, p, u, e) ↦ IsKept-from i a j p u e
        | inr (full, all) ↦ inr (
          omega arith,
          λ j p u. dropped i full (all (size - 1) (omega arith) (omega arith)) j (origin j) u,
        )
      ]
    ]

    pub insert-IsRanked : IsRanked dist name size (m + 1) (used + 1) new_entries new_dist
    insert-IsRanked = record {
      filled = more_filled r.filled;
      sorted = λ j j' h p u. sorted_cases j j' (origin j) (origin j') h p u;
      candidates = λ j p u. candidate_cases j (origin j) p u;
      distinct = λ j j' h p u. distinct_cases j j' (origin j) (origin j') h p u;
      best = kept;
    }
      where
        more_filled :
            ((m ≤ size) × (used ≡ m)) ⊎ ((size ≤ m) × (size ≤ used))
            → ((m + 1 ≤ size) × (used + 1 ≡ m + 1)) ⊎ ((size ≤ m + 1) × (size ≤ used + 1))
        more_filled f = elim (dec_lt m size) [
          | yes p ↦ inl (omega arith, omega (arith, f))
          | no p ↦ inr (omega arith, omega (arith, f))
        ]
