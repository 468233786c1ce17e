-- ===== src/NbSearch/Layers.antt =====
-- Skipping wideband layers never leaves the memory and never falls behind the start.
use speex.Common.{ℕ, suc, ◌+◌, ◌-◌, ◌/◌, ◌%◌, ◌^◌, ◌≤◌, ◌<◌, ◌≡◌, refl, ap, ◌∙◌, arith}
use speex.Common.{
  Bool, true, false, ◌||◌, Bool-cases, ltb, if◌then◌else◌, ◌==◌, get_or, none, some, inl, inr,
  passes_below, passes_below-at, leb, ◌&&◌,
}
use speex.Common.{ℤ, pos, negsuc, neg_part, ◌-ℤ◌, ltb_ℤ, Result, ok, load-ok}
use speex.Bits.{SpeexBits, advance_int, remaining}
use speex.Bits.View.{position}
use speex.Bits.Unpack.{IsReadable, overruns, overflowed}
use speex.Bits.Field.{skip, field, field-lt, skip-IsReadable, unpack-field, advance-skip}
use speex.NbSearch.{wb_skip_table, skip_block, second_layer, skip_wideband}

-- `s'` is the same packet, read up to bit `p` at least.
pub record IsBeyond (p : ℕ) (s s' : SpeexBits) : Type 0 where
  pub readable : IsReadable s'
  pub same_bits : s'.nb_bits ≡ s.nb_bits
  pub far : p ≤ position s'

pub skip-IsBeyond : (s : SpeexBits) (n : ℕ) → IsReadable s → IsBeyond (position s) s (skip s n)
skip-IsBeyond s n r = record {
  readable = skip-IsReadable s n r;
  same_bits = ground arith;
  far = ground arith;
}

pub skip-IsBeyond_fits :
    (s : SpeexBits) (n : ℕ)
    → IsReadable s
    → overruns s n ≡ false
    → IsBeyond (position s + n) s (skip s n)
skip-IsBeyond_fits s n r h = record {
  readable = skip-IsReadable s n r;
  same_bits = ground arith;
  far = ground arith;
}

-- The test of the source, and what it means.
pub holds : (s : SpeexBits) (n : ℕ) → ltb_ℤ (remaining s) (pos n) ≡ false → overruns s n ≡ false
unfolding remaining
holds s n h = ground arith

pub IsBeyond-weaken : {s s' : SpeexBits} (p q : ℕ) → p ≤ q → IsBeyond q s s' → IsBeyond p s s'
IsBeyond-weaken p q h b = record {
  readable = b.readable;
  same_bits = b.same_bits;
  far = omega (arith, b.far);
}

pub IsBeyond-trans :
    {s s' s'' : SpeexBits} (p q : ℕ) → IsBeyond p s s' → IsBeyond q s' s'' → IsBeyond q s s''
IsBeyond-trans p q a b = record {
  readable = b.readable;
  same_bits = b.same_bits ∙ a.same_bits;
  far = b.far;
}

pub fits-le : (s : SpeexBits) (n : ℕ) → overruns s n ≡ false → position s + n ≤ s.nb_bits
fits-le s n h = ground arith

advance_int-back :
    (s : SpeexBits) (n p : ℕ)
    → IsReadable s
    → p + suc n ≤ position s
    → (s' : SpeexBits) × (advance_int s (negsuc n) ≡ ok s') × IsBeyond p s s'
unfolding advance_int
advance_int-back s n p r h =
    elim (Bool-cases (ltb (s.nb_bits + suc n) (position s) || s.overflow)) [
      | inl e ↦ (
        overflowed s,
        ground arith,
        record {
          readable = record { stored = r.stored; aligned = r.aligned };
          same_bits = refl;
          far = omega arith;
        },
      )
      | inr e ↦
          let place = position s - suc n in
          (
            record s { char_ptr = place / 2 ^ 3; bit_ptr = place % 2 ^ 3 },
            ground arith,
            record {
              readable = record { stored = r.stored; aligned = omega arith };
              same_bits = refl;
              far = omega arith;
            },
          )
    ]

advance_int-IsBeyond :
    (s : SpeexBits) (z : ℤ) (p : ℕ)
    → IsReadable s
    → p + neg_part z ≤ position s
    → (s' : SpeexBits) × (advance_int s z ≡ ok s') × IsBeyond p s s'
unfolding advance_int
advance_int-IsBeyond s (pos n) p r h =
    let b = skip-IsBeyond s n r in
    (skip s n, ap ok (advance-skip s n), IsBeyond-weaken p (position s) (omega arith) b)
advance_int-IsBeyond s (negsuc n) p r h = advance_int-back s n p r (omega arith)

-- The entries of the table: none is negative, and none moves back by more than 4 bits.
abbrev table_at : ℕ → ℤ
table_at i = get_or wb_skip_table i (pos 0)

abbrev is_step : ℕ → Bool
is_step i = leb (neg_part (table_at i)) 0 && leb (neg_part (table_at i -ℤ pos 4)) 4

step_table : passes_below is_step 8 ≡ true
unfolding passes_below wb_skip_table ◌-ℤ◌
step_table = refl

step_back : (i : ℕ) → i < 8 → neg_part (table_at i -ℤ pos 4) ≤ 4
step_back i h = ground (arith, passes_below-at is_step step_table i h)

step_valid : (i : ℕ) → i < 8 → ltb_ℤ (table_at i) (pos 0) ≡ false
step_valid i h = ground (arith, passes_below-at is_step step_table i h)

-- The first bit of the block has been read.
pub skip_block-IsBeyond :
    (s : SpeexBits) (p : ℕ)
    → IsReadable s
    → overruns s 3 ≡ false
    → p + 1 ≤ position s
    → (s' : SpeexBits) × (skip_block s ≡ ok (true, s')) × IsBeyond p s s'
unfolding skip_block
skip_block-IsBeyond s p r h from =
    let id = field s 3 in
    let b = skip-IsBeyond_fits s 3 r h in
    let (s', e, b') =
      advance_int-IsBeyond (skip s 3) (table_at id -ℤ pos 4) p b.readable
        (omega (arith, b.far, step_back id (field-lt s 3))) in
    (
      s',
      rw
          (
            unpack-field s 3 r (omega arith),
            load-ok wb_skip_table id (pos 0) (unfold wb_skip_table in field-lt s 3),
            step_valid id (field-lt s 3),
            e,
          )
          refl,
      IsBeyond-trans (position s + 3) p b b',
    )

-- A step that returns, with the packet read up to bit `p` at least.
abbrev pub Returns : {A : Type 0} → Result (A × SpeexBits) → SpeexBits → ℕ → Type 0
Returns {A} call s p = (a : A) × (s' : SpeexBits) × (call ≡ ok (a, s')) × IsBeyond p s s'

second_layer-Returns : (s : SpeexBits) → IsReadable s → Returns (second_layer s) s (position s)
unfolding second_layer
second_layer-Returns s r = elim (Bool-cases (ltb_ℤ (remaining s) (pos 5))) [
  | inl few ↦ (
    some (negsuc 0),
    s,
    rw (few) refl,
    record { readable = r; same_bits = refl; far = omega arith },
  )
  | inr enough ↦
      let fits = holds s 5 enough in
      let b1 = skip-IsBeyond_fits s 1 r (ground arith) in
      elim (Bool-cases (field s 1 == 0)) [
        | inl narrow ↦ (
          none,
          skip s 1,
          rw (enough, unpack-field s 1 r (omega arith), narrow) refl,
          IsBeyond-weaken (position s) (position s + 1) (omega arith) b1,
        )
        | inr wide ↦
            let (s2, e2, b2) =
              skip_block-IsBeyond (skip s 1) (position s) b1.readable (ground arith)
                (omega (arith, b1.far)) in
            let b3 = skip-IsBeyond s2 1 b2.readable in
            (
              (if field s2 1 == 0 then none else some (negsuc 1)),
              skip s2 1,
              rw
                  (
                    enough,
                    unpack-field s 1 r (omega arith),
                    wide,
                    e2,
                    unpack-field s2 1 b2.readable (omega arith),
                  )
                  refl,
              IsBeyond-weaken (position s) (position s2) b2.far (
                  IsBeyond-trans (position s) (position s2)
                    (IsBeyond-trans (position s + 1) (position s) b1 b2) b3),
            )
      ]
]

-- Where at least 5 bits are left.
pub skip_wideband-Returns :
    (s : SpeexBits) → IsReadable s → overruns s 5 ≡ false → Returns (skip_wideband s) s (position s)
unfolding skip_wideband
skip_wideband-Returns s r fits =
    let b1 = skip-IsBeyond_fits s 1 r (ground arith) in
    elim (Bool-cases (field s 1 == 0)) [
      | inl narrow ↦ (
        none,
        skip s 1,
        rw (unpack-field s 1 r (omega arith), narrow) refl,
        IsBeyond-weaken (position s) (position s + 1) (omega arith) b1,
      )
      | inr wide ↦
          let (s2, e2, b2) =
            skip_block-IsBeyond (skip s 1) (position s) b1.readable (ground arith)
              (omega (arith, b1.far)) in
          let (stop, s3, e3, b3) = second_layer-Returns s2 b2.readable in
          (
            stop,
            s3,
            rw (unpack-field s 1 r (omega arith), wide, e2) e3,
            IsBeyond-weaken (position s) (position s2) b2.far (
                IsBeyond-trans (position s) (position s2)
                  (IsBeyond-trans (position s + 1) (position s) b1 b2) b3),
          )
    ]
