-- ===== src/NbSearch/NullLayer.antt =====
-- A wideband layer whose table entry is 0: the cursor goes back to the layer's own first bit.
use speex.Common.{ℕ, zero, suc, ◌≤◌, ◌<◌, ◌≡◌, refl, arith}
use speex.Common.{true, false, List, get_or, Option, some, ◌⊎◌}
use speex.Common.{pos, negsuc, ◌-ℤ◌, ltb_ℤ, ok, load-ok}
use speex.Bits.{SpeexBits, advance_int, remaining}
use speex.Bits.Unpack.{IsReadable, overruns}
use speex.Callbacks.{Handler}
use speex.Bits.Field.{skip, field, field-lt, unpack-field}
use speex.NbSearch.{
  wb_skip_table, skip_block, second_layer, skip_wideband, returns, search_round, search,
}
use speex.NbSearch.Layers.{skip-IsBeyond_fits}

-- The sub-modes of a wideband layer that the table gives no length: no layer, and the reserved ones.
abbrev pub HasNoLength : ℕ → Type 0
HasNoLength id = (id ≡ 0) ⊎ (5 ≤ id)

no_length : (id : ℕ) → id < 8 → HasNoLength id → get_or wb_skip_table id (pos 0) ≡ pos 0
unfolding wb_skip_table
no_length zero h n = refl
no_length (suc zero) h n = absurd (omega arith)
no_length (suc (suc zero)) h n = absurd (omega arith)
no_length (suc (suc (suc zero))) h n = absurd (omega arith)
no_length (suc (suc (suc (suc zero)))) h n = absurd (omega arith)
no_length (suc (suc (suc (suc (suc zero))))) h n = refl
no_length (suc (suc (suc (suc (suc (suc zero)))))) h n = refl
no_length (suc (suc (suc (suc (suc (suc (suc zero))))))) h n = refl
no_length (suc (suc (suc (suc (suc (suc (suc (suc i)))))))) h n = absurd (omega arith)

-- Where 4 bits are left, the cursor returns.
back_again :
    (s : SpeexBits)
    → s.bit_ptr < 8
    → overruns s 4 ≡ false
    → advance_int (skip (skip s 1) 3) (negsuc 3) ≡ ok s
unfolding advance_int
back_again s a h = ground arith

module _ (s : SpeexBits) (r : IsReadable s) (fits : overruns s 5 ≡ false) (wide : field s 1 ≡ 1)
    (null : HasNoLength (field (skip s 1) 3)) where
  skip_block-back : skip_block (skip s 1) ≡ ok (true, s)
  unfolding skip_block ◌-ℤ◌
  skip_block-back =
      let id = field (skip s 1) 3 in
      let b1 = skip-IsBeyond_fits s 1 r (ground arith) in
      rw
        (
          unpack-field (skip s 1) 3 b1.readable (omega arith),
          load-ok wb_skip_table id (pos 0) (unfold wb_skip_table in field-lt (skip s 1) 3),
          no_length id (field-lt (skip s 1) 3) null,
          back_again s r.aligned (ground arith),
        )
        refl

  second_layer-refuses : second_layer s ≡ ok (some (negsuc 1), skip s 1)
  unfolding second_layer remaining
  second_layer-refuses =
      rw
        (
          enough,
          unpack-field s 1 r (omega arith),
          wide,
          skip_block-back,
          unpack-field s 1 r (omega arith),
          wide,
        )
        refl
    where
      enough : ltb_ℤ (remaining s) (pos 5) ≡ false
      enough = ground arith

  skip_wideband-refuses : skip_wideband s ≡ ok (some (negsuc 1), skip s 1)
  unfolding skip_wideband
  skip_wideband-refuses =
      rw (unpack-field s 1 r (omega arith), wide, skip_block-back) second_layer-refuses

  -- The frame search of nb_decode on a packet with at least 5 bits left, whose next bit
  -- announces a wideband layer with sub-mode 0 (the layer of 4 bits that carries nothing) or 5
  -- to 7: for all callbacks it returns -2, with the cursor behind that first bit. The table's 0
  -- moves the cursor back to the layer's own first bit, and the layer is counted three times.
  pub search-refuses :
      {State : Type 0} (callbacks : List (Option (Handler State))) (user : Handler State) (fuel : ℕ)
      (state : State)
      → search callbacks user (suc fuel) s state ≡ ok (returns (negsuc 1), skip s 1, state)
  unfolding search search_round remaining
  search-refuses callbacks user fuel state = rw (enough, skip_wideband-refuses) refl
    where
      enough : ltb_ℤ (remaining s) (pos 5) ≡ false
      enough = ground arith
