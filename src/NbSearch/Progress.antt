-- ===== src/NbSearch/Progress.antt =====
-- The search ends: every round that asks for another one has read at least 4 bits more.
use speex.Common.{ℕ, zero, suc, ◌+◌, ◌*◌, ◌≤◌, ◌≡◌, refl, ◌∙◌, arith}
use speex.Common.{
  Bool-cases, ltb, ◌==◌, List, length, get_or, Option, none, some, Option-cases, ◌⊎◌, inl, inr,
}
use speex.Common.{ℤ, pos, negsuc, ltb_ℤ, Result, ok, ◌>>=◌}
use speex.Bits.{SpeexBits, remaining}
use speex.Bits.View.{position}
use speex.Bits.Unpack.{IsReadable}
use speex.Callbacks.{Handler, inband_handler, skipped}
use speex.Bits.Field.{skip, field, unpack-field}
use speex.Callbacks.Skip.{inband_handler_lem}
use speex.NbSearch.{Round, again, frame, returns, after_handler, dispatch, search_round, search}
use speex.NbSearch.Layers.{
  IsBeyond, IsBeyond-weaken, IsBeyond-trans, skip-IsBeyond, skip-IsBeyond_fits, holds, fits-le,
  skip_wideband-Returns,
}

-- A handler that returns and does not move the cursor back.
abbrev pub IsForward : {State : Type 0} → Handler State → Type 0
IsForward {State} h =
    (s : SpeexBits) (state : State)
    → IsReadable s
    → (ret : ℤ) × (s' : SpeexBits) × (state' : State) × (h s state ≡ ok (ret, s', state'))
      × IsBeyond (position s) s s'

-- Every registered handler is one.
abbrev pub AllForward : {State : Type 0} → List (Option (Handler State)) → Type 0
AllForward {State} callbacks =
    (i : ℕ) (h : Handler State) → get_or callbacks i none ≡ some h → IsForward h

-- The codes of a round: a sub-mode is at most 8.
pub data IsEnd : Round → Type 0 where
  found : (m : ℕ) → m ≤ 8 → IsEnd (frame m)
  stopped : (z : ℤ) → IsEnd (returns z)

module _ {State : Type 0} (callbacks : List (Option (Handler State))) (user : Handler State)
    (all : length callbacks ≡ 16) (forward : AllForward callbacks)
    (user_forward : IsForward user) where
  inband_handler-IsForward : IsForward (inband_handler callbacks)
  inband_handler-IsForward s state r =
      let b = skip-IsBeyond s 4 r in
      let run = inband_handler_lem callbacks all s state r in
      elim (Option-cases (get_or callbacks (field s 4) none)) [
        | inl e ↦
            let b' = skip-IsBeyond (skip s 4) (skipped (field s 4)) b.readable in
            (
              pos 0,
              skip (skip s 4) (skipped (field s 4)),
              state,
              run ∙ rw (e) refl,
              IsBeyond-weaken (position s) (position (skip s 4)) b.far
                  (IsBeyond-trans (position s) (position (skip s 4)) b b'),
            )
        | inr (h, e) ↦
            let (ret, s', state', runs, b') = forward (field s 4) h e (skip s 4) state b.readable in
            (
              ret,
              s',
              state',
              run ∙ rw (e) runs,
              IsBeyond-weaken (position s) (position (skip s 4)) b.far
                  (IsBeyond-trans (position s) (position (skip s 4)) b b'),
            )
      ]

  after_handler-cases : (z : ℤ) → (after_handler z ≡ again) ⊎ IsEnd (after_handler z)
  after_handler-cases (pos zero) = inl refl
  after_handler-cases (pos (suc n)) = inr (stopped (pos (suc n)))
  after_handler-cases (negsuc n) = inr (stopped (negsuc n))

  -- How a round leaves the packet, read up to bit `p` at least.
  abbrev pub Ends : Result (Round × SpeexBits × State) → SpeexBits → ℕ → Type 0
  Ends call s p =
      (round : Round) × (s' : SpeexBits) × (state' : State) × (call ≡ ok (round, s', state'))
      × IsBeyond p s s'
      × ((round ≡ again) ⊎ IsEnd round)

  handled :
      (h : Handler State) (s : SpeexBits) (state : State)
      → IsForward h
      → IsReadable s
      → Ends (h s state >>= λ (ret, s', state'). ok (after_handler ret, s', state')) s (position s)
  handled h s state f r =
      let (ret, s', state', e, b) = f s state r in
      (after_handler ret, s', state', rw (e) refl, b, after_handler-cases ret)

  dispatch-Ends :
      (m : ℕ) (s : SpeexBits) (state : State)
      → IsReadable s
      → Ends (dispatch callbacks user m s state) s (position s)
  unfolding dispatch
  dispatch-Ends m s state r =
      let here : IsBeyond (position s) s s = record {
        readable = r;
        same_bits = refl;
        far = omega arith;
      } in
      elim (Bool-cases (m == 15)) [
        | inl e ↦ (returns (negsuc 0), s, state, rw (e) refl, here, inr (stopped (negsuc 0)))
        | inr n15 ↦ elim (Bool-cases (m == 14)) [
          | inl e ↦
              rw (n15, e) (handled (inband_handler callbacks) s state inband_handler-IsForward r)
          | inr n14 ↦ elim (Bool-cases (m == 13)) [
            | inl e ↦ rw (n15, n14, e) (handled user s state user_forward r)
            | inr n13 ↦ elim (Bool-cases (ltb 8 m)) [
              | inl e ↦ (
                returns (negsuc 1),
                s,
                state,
                rw (n15, n14, n13, e) refl,
                here,
                inr (stopped (negsuc 1)),
              )
              | inr e ↦ (
                frame m,
                s,
                state,
                rw (n15, n14, n13, e) refl,
                here,
                inr (found m (ground arith)),
              )
            ]
          ]
        ]
      ]

  -- Another round comes only after 4 bits more.
  abbrev Advances : SpeexBits → State → Type 0
  Advances s state =
      (round : Round) × (s' : SpeexBits) × (state' : State) × (search_round callbacks user s state
        ≡ ok (round, s', state'))
      × IsReadable s'
      × (s'.nb_bits ≡ s.nb_bits)
      × (((round ≡ again) × (position s + 4 ≤ position s') × (position s + 5 ≤ s.nb_bits))
          ⊎ IsEnd round)

  search_round-Advances : (s : SpeexBits) (state : State) → IsReadable s → Advances s state
  unfolding search_round
  search_round-Advances s state r = elim (Bool-cases (ltb_ℤ (remaining s) (pos 5))) [
    | inl few ↦ (returns (negsuc 0), s, state, rw (few) refl, r, refl, inr (stopped (negsuc 0)))
    | inr enough ↦
        let fits = holds s 5 enough in
        let (stop, s1, e1, b1) = skip_wideband-Returns s r fits in
        elim (Option-cases stop) [
          | inr (z, e) ↦ (
            returns z,
            s1,
            state,
            rw (enough, e1, e) refl,
            b1.readable,
            b1.same_bits,
            inr (stopped z),
          )
          | inl e ↦ elim (Bool-cases (ltb_ℤ (remaining s1) (pos 4))) [
            | inl short ↦ (
              returns (negsuc 0),
              s1,
              state,
              rw (enough, e1, e, short) refl,
              b1.readable,
              b1.same_bits,
              inr (stopped (negsuc 0)),
            )
            | inr long ↦
                let b2 = skip-IsBeyond_fits s1 4 b1.readable (holds s1 4 long) in
                let (round, s3, state', e3, b3, how) =
                  dispatch-Ends (field s1 4) (skip s1 4) state b2.readable in
                (
                  round,
                  s3,
                  state',
                  rw (enough, e1, e, long, unpack-field s1 4 b1.readable (omega arith)) e3,
                  b3.readable,
                  b3.same_bits ∙ b2.same_bits ∙ b1.same_bits,
                  elim how [
                    | inr end ↦ inr end
                    | inl more ↦ inl (more, omega (arith, b1.far, b2.far, b3.far), fits-le s 5 fits)
                  ],
                )
          ]
        ]
  ]

  search-again :
      (n : ℕ) (s s' : SpeexBits) (state state' : State) (round : Round)
      → round ≡ again
      → search_round callbacks user s state ≡ ok (round, s', state')
      → search callbacks user (suc n) s state ≡ search callbacks user n s' state'
  unfolding search
  search-again n s s' state state' round more e = rw (e, more) refl

  search-ends :
      (n : ℕ) (s s' : SpeexBits) (state state' : State) (round : Round)
      → IsEnd round
      → search_round callbacks user s state ≡ ok (round, s', state')
      → search callbacks user (suc n) s state ≡ ok (round, s', state')
  unfolding search
  search-ends n s s' state state' _ (found m few) e = rw (e) refl
  search-ends n s s' state state' _ (stopped z) e = rw (e) refl

  -- The frame search of nb_decode returns on every packet whose announced bits are in memory,
  -- within one round for each 4 bits that are left: it ends with a sub-mode of at most 8 or with
  -- a value that nb_decode returns, and never accesses memory outside the packet. There are 16
  -- callbacks, and each registered handler returns, leaves the packet's bits alone and does not
  -- move the cursor back.
  pub search_lem :
      (n : ℕ) (s : SpeexBits) (state : State)
      → IsReadable s
      → s.nb_bits ≤ position s + 4 * suc n
      → (round : Round) × (s' : SpeexBits) × (state' : State) × (search callbacks user
            (suc n)
            s
            state
          ≡ ok (round, s', state'))
        × IsReadable s'
        × IsEnd round
  search_lem zero s state r h =
      let (round, s', state', e, r', same, how) = search_round-Advances s state r in
      elim how [
        | inr end ↦ (round, s', state', search-ends zero s s' state state' round end e, r', end)
        | inl (more, further, left) ↦ absurd (omega arith)
      ]
  search_lem (suc n) s state r h =
      let (round, s', state', e, r', same, how) = search_round-Advances s state r in
      elim how [
        | inr end ↦ (round, s', state', search-ends (suc n) s s' state state' round end e, r', end)
        | inl (more, further, left) ↦
            let (last, s'', state'', runs, r'', end) = search_lem n s' state' r' (omega arith) in
            (
              last,
              s'',
              state'',
              search-again (suc n) s s' state state' round more e ∙ runs,
              r'',
              end,
            )
      ]
