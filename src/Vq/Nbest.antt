-- ===== src/Vq/Nbest.antt =====
-- The searches return the best entries of the codebook.
use mathlib.Core.Path.{subst, fun_ext}
use native.Mathlib.Decide.{dec_lt}
use speex.Common.{
  ℕ, zero, suc, ◌+◌, ◌-◌, ◌*◌, ◌≤◌, ◌<◌, ◌≡◌, ◌≢◌, refl, ◌∙◌, arith, Bool, true, ◌||◌, Bool-cases,
}
use speex.Common.{List, length, set, length-set, ltb, ◌⊎◌, inl, inr}
use speex.Common.{◌≤ℤ◌, ℤ, pos, ltb_ℤ, Result, ok, load-ok, store-ok}
use speex.Vq.{distance, distance_sign, qualifies, consider, search_loop, vq_nbest, vq_nbest_sign}
use speex.Vq.Distance.{dist_of, signed_dist_of, sign_of, distance-ok, distance_sign-ok}
use speex.Vq.Insert.{dist_at, entry_at, make_room-IsMoved}
use speex.Vq.Ranked.{IsRanked, refuse-IsRanked, empty-IsRanked}
use speex.Vq.Ranking.{insert-IsRanked}

qualifies-eq :
    (size m : ℕ) (d : ℤ) (best_dist : List ℤ)
    → 0 < size
    → size ≤ length best_dist
    → qualifies m size d best_dist ≡ ok (ltb m size || ltb_ℤ d (dist_at best_dist (size - 1)))
unfolding qualifies
qualifies-eq zero m d best_dist some room = absurd (omega arith)
qualifies-eq (suc last) m d best_dist some room =
    let back : suc last - 1 ≡ last = omega arith in
    rw (back, load-ok best_dist last (pos 0) (omega arith))
      (elim (Bool-cases (ltb m (suc last))) [ inl e ↦ rw (e) refl | inr e ↦ rw (e) refl ])

reason : (m size : ℕ) (b : Bool) → (ltb m size || b) ≡ true → (m < size) ⊎ (b ≡ true)
reason m size b h = elim (dec_lt m size) [ yes p ↦ inl p | no p ↦ inr (ground arith) ]

module _ (dist : ℕ → ℤ) (more : ℕ → ℕ) (size : ℕ) (some_place : 0 < size) where
  abbrev pub name : ℕ → ℕ
  name i = i + more i

  -- Ranked, in arrays of the right length.
  record IsState (m n_len d_len : ℕ) (state : ℕ × List ℕ × List ℤ) : Type 0 where
    ranked : IsRanked dist name size m state.0 state.1 state.2
    nbest_size : length state.1 ≡ n_len
    dist_size : length state.2 ≡ d_len

  module _ (m n_len d_len : ℕ) (state : ℕ × List ℕ × List ℤ) (room_n : size ≤ n_len)
      (room_d : size ≤ d_len) (injective : (i i' : ℕ) → i < i' → i' ≤ m → name i ≢ name i')
      (s : IsState m n_len d_len state) where
    consider-IsState :
        (state' : ℕ × List ℕ × List ℤ) × (consider size m (dist m) (more m) state ≡ ok state')
        × IsState (m + 1) n_len d_len state'
    unfolding consider
    consider-IsState =
        let used = state.0 in
        let nbest = state.1 in
        let best_dist = state.2 in
        let wide : size ≤ length nbest = omega (arith, s.nbest_size) in
        let deep : size ≤ length best_dist = omega (arith, s.dist_size) in
        elim (Bool-cases (ltb m size || ltb_ℤ (dist m) (dist_at best_dist (size - 1)))) [
          | inr bad ↦ (
            state,
            rw (qualifies-eq size m (dist m) best_dist some_place deep, bad) refl,
            record {
              ranked =
                  refuse-IsRanked dist name size m used nbest best_dist some_place
                    (ground (arith, bad)) (ground (arith, bad)) s.ranked;
              nbest_size = s.nbest_size;
              dist_size = s.dist_size;
            },
          )
          | inl good ↦
              let (k, nbest1, best_dist1, runs, moved, place) =
                make_room-IsMoved (dist m) used (size - 1) nbest best_dist (omega arith)
                  (omega arith) in
              let in_d : k < length best_dist1 = omega (arith, moved.dist_size, place.bounded) in
              let in_n : k < length nbest1 = omega (arith, moved.nbest_size, place.bounded) in
              (
                (used + 1, set nbest1 k (name m), set best_dist1 k (dist m)),
                rw
                    (
                      qualifies-eq size m (dist m) best_dist some_place deep,
                      good,
                      runs,
                      store-ok best_dist1 k (dist m) in_d,
                      store-ok nbest1 k (name m) in_n,
                    )
                    refl,
                record {
                  ranked =
                      insert-IsRanked dist name size m used k injective nbest best_dist nbest1
                        best_dist1 wide deep some_place s.ranked moved place
                        (reason m size (ltb_ℤ (dist m) (dist_at best_dist (size - 1))) good);
                  nbest_size = length-set nbest1 k (name m) ∙ moved.nbest_size ∙ s.nbest_size;
                  dist_size = length-set best_dist1 k (dist m) ∙ moved.dist_size ∙ s.dist_size;
                },
              )
        ]

  module _ (dist_of : ℕ → Result (ℤ × ℕ)) (entries n_len d_len : ℕ) (room_n : size ≤ n_len)
      (room_d : size ≤ d_len) (computes : (i : ℕ) → i < entries → dist_of i ≡ ok (dist i, more i))
      (injective : (i i' : ℕ) → i < i' → i' < entries → name i ≢ name i') where
    search_loop-IsState :
        (left i : ℕ) (state : ℕ × List ℕ × List ℤ)
        → i + left ≡ entries
        → IsState i n_len d_len state
        → (state' : ℕ × List ℕ × List ℤ) × (search_loop dist_of size i state left ≡ ok state')
          × IsState entries n_len d_len state'
    unfolding search_loop
    search_loop-IsState zero i state e s =
        let same : i ≡ entries = omega arith in (state, refl, rw (← same) s)
    search_loop-IsState (suc left) i state e s =
        let (state1, runs1, s1) =
          consider-IsState i n_len d_len state room_n room_d
            (λ a b h le. injective a b h (omega arith)) s in
        let (state2, runs2, s2) = search_loop-IsState left (i + 1) state1 (omega arith) s1 in
        (state2, rw (computes i (omega arith), runs1) runs2, s2)

start-IsState :
    (dist : ℕ → ℤ) (more : ℕ → ℕ) (size : ℕ) (some : 0 < size) (nbest : List ℕ) (best_dist : List ℤ)
    → IsState dist more size some 0 (length nbest) (length best_dist) (0, nbest, best_dist)
start-IsState dist more size some nbest best_dist = record {
  ranked = empty-IsRanked dist (name dist more size some) size nbest best_dist;
  nbest_size = refl;
  dist_size = refl;
}

-- What a search leaves in the two arrays.
pub record IsBest (dist : ℕ → ℤ) (name : ℕ → ℕ) (entries size : ℕ) (nbest : List ℕ)
    (best_dist : List ℤ) : Type 0 where
  pub sorted :
      (j j' : ℕ) → j ≤ j' → j' < entries → j' < size → dist_at best_dist j ≤ℤ dist_at best_dist j'
  pub candidates :
      (j : ℕ)
      → j < entries
      → j < size
      → (i : ℕ) × (i < entries) × (entry_at nbest j ≡ name i) × (dist_at best_dist j ≡ dist i)
  pub distinct :
      (j j' : ℕ) → j < j' → j' < entries → j' < size → entry_at nbest j ≢ entry_at nbest j'
  pub best :
      (i : ℕ)
      → i < entries
      → ((j : ℕ) × (j < entries) × (j < size) × (entry_at nbest j ≡ name i))
        ⊎ ((size ≤ entries) × ((j : ℕ) → j < entries → j < size → dist_at best_dist j ≤ℤ dist i))

IsState-IsBest :
    (dist : ℕ → ℤ) (more : ℕ → ℕ) (size : ℕ) (some : 0 < size) (entries n d : ℕ)
    (state : ℕ × List ℕ × List ℤ)
    → IsState dist more size some entries n d state
    → IsBest dist (name dist more size some) entries size state.1 state.2
IsState-IsBest dist more size some entries n d state s = record {
  sorted = s.ranked.sorted;
  candidates = s.ranked.candidates;
  distinct = s.ranked.distinct;
  best = s.ranked.best;
}

abbrev no_sign : ℕ
no_sign = 0

module _ (input codebook : List ℤ) (len entries : ℕ) (energy : List ℤ) (size : ℕ) (nbest : List ℕ)
    (best_dist : List ℤ) (some : 0 < size) (wide : len ≤ length input)
    (whole : len * entries ≤ length codebook) (known : entries ≤ length energy)
    (room_n : size ≤ length nbest) (room_d : size ≤ length best_dist) where
  -- vq_nbest, where input, codebook and energies hold every entry and the lists have a place for
  -- each of the N results, N at least 1 and at most the number of entries, never faults and
  -- gives the N best entries: the distances are sorted, each place holds the distance of the
  -- entry it names, no entry is listed twice, and every entry that is not listed is at no
  -- smaller a distance than any that is.
  pub vq_nbest-IsBest :
      (nbest' : List ℕ) × (best_dist' : List ℤ) × (vq_nbest input codebook len entries energy size
          nbest best_dist
        ≡ ok (nbest', best_dist'))
      × (length nbest' ≡ length nbest)
      × (length best_dist' ≡ length best_dist)
      × IsBest (dist_of input codebook len energy) (λ i. i) entries size nbest' best_dist'
  unfolding vq_nbest
  vq_nbest-IsBest =
      let dist = dist_of input codebook len energy in
      let more = λ (i : ℕ). no_sign in
      let (state, runs, s) =
        search_loop-IsState dist more size some (distance input codebook len energy) entries
          (length nbest) (length best_dist) room_n room_d
          (distance-ok input codebook len energy entries wide whole known)
          (λ i i' h p e. omega arith) entries 0 (0, nbest, best_dist) (omega arith)
          (start-IsState dist more size some nbest best_dist) in
      (
        state.1,
        state.2,
        rw (runs) refl,
        s.nbest_size,
        s.dist_size,
        plain
            (IsState-IsBest dist more size some entries (length nbest) (length best_dist) state s),
      )
    where
      nothing_added : (i : ℕ) → i + no_sign ≡ i
      nothing_added i = omega arith

      plain :
          {dist : ℕ → ℤ} {n : List ℕ} {d : List ℤ}
          → IsBest dist (λ i. i + no_sign) entries size n d
          → IsBest dist (λ i. i) entries size n d
      plain {dist} {n} {d} b =
          subst (λ (f : ℕ → ℕ). IsBest dist f entries size n d)
            (fun_ext (λ (i : ℕ). nothing_added i)) b

  -- vq_nbest_sign, under the conditions of vq_nbest, gives in the same sense the N best entries,
  -- by the distance with the better sign; an entry whose sign is set stands in the list with the
  -- number of entries added.
  pub vq_nbest_sign-IsBest :
      (nbest' : List ℕ) × (best_dist' : List ℤ) × (vq_nbest_sign input codebook len entries energy
          size nbest best_dist
        ≡ ok (nbest', best_dist'))
      × (length nbest' ≡ length nbest)
      × (length best_dist' ≡ length best_dist)
      × IsBest
          (signed_dist_of input codebook len energy)
          (λ i. i + sign_of input codebook len energy entries i)
          entries
          size
          nbest'
          best_dist'
  unfolding vq_nbest_sign
  vq_nbest_sign-IsBest =
      let dist = signed_dist_of input codebook len energy in
      let more = sign_of input codebook len energy entries in
      let (state, runs, s) =
        search_loop-IsState dist more size some (distance_sign input codebook len entries energy)
          entries (length nbest) (length best_dist) room_n room_d
          (distance_sign-ok input codebook len energy entries wide whole known)
          (λ i i' h p e. ground (arith, e)) entries 0 (0, nbest, best_dist) (omega arith)
          (start-IsState dist more size some nbest best_dist) in
      (
        state.1,
        state.2,
        rw (runs) refl,
        s.nbest_size,
        s.dist_size,
        IsState-IsBest dist more size some entries (length nbest) (length best_dist) state s,
      )
