-- ===== src/Bits/Terminator.antt =====
-- `speex_bits_insert_terminator`: it fills up the current byte, and where it never returns.
use native.Mathlib.Nat.{pow-suc, one-le-pow}
use speex.Common.{ℕ, zero, suc, ◌+◌, ◌-◌, ◌*◌, ◌%◌, ◌^◌, ◌≤◌, ◌≡◌, ◌≢◌, refl, ◌∙◌}
use speex.Common.{arith, true, false, ok, diverges, ◌==◌, Bool-cases}
use speex.Common.{inl, inr}
use speex.Bits.{SpeexBits, Realloc, pack, terminate_loop, insert_terminator}
use speex.Bits.View.{IsValid, IsBlank}
use speex.Bits.Pack.{IsPacked, IsPacked-cons, IsPacked-nil}
use speex.Bits.Reserve.{IsRealloc, pack_lem}
use speex.Bits.RoundTrip.{Grows, pack_grows}

-- The bits that are missing to the end of the current byte.
abbrev pub padding : SpeexBits → ℕ
padding s = (8 - s.bit_ptr) % 8

terminate_step :
    (fuel : ℕ) (realloc : Realloc) (s s' : SpeexBits)
    → s.bit_ptr ≢ 0
    → pack realloc s 1 1 ≡ ok s'
    → terminate_loop (suc fuel) realloc s ≡ terminate_loop fuel realloc s'
unfolding terminate_loop
terminate_step fuel realloc s s' h e = ground (arith, e)

terminate_stop :
    (fuel : ℕ) (realloc : Realloc) (s : SpeexBits)
    → s.bit_ptr ≡ 0
    → terminate_loop fuel realloc s ≡ ok s
unfolding terminate_loop
terminate_stop zero realloc s h = ground (arith, h)
terminate_stop (suc fuel) realloc s h = ground (arith, h)

-- `m` ones are still to be written.
terminate_loop-IsPacked :
    (realloc : Realloc) (m fuel : ℕ) (s : SpeexBits)
    → Grows realloc
    → IsValid s
    → IsBlank s
    → s.owner ≡ true
    → padding s ≡ m
    → m ≤ fuel
    → (s' : SpeexBits) × (terminate_loop fuel realloc s ≡ ok s')
      × (s'.bit_ptr ≡ 0)
      × IsPacked s m (2 ^ m - 1) s'
terminate_loop-IsPacked realloc zero fuel s g v b o e enough =
    let start : s.bit_ptr ≡ 0 = omega (arith, v.aligned) in
    (s, terminate_stop fuel realloc s start, start, IsPacked-nil s v b)
terminate_loop-IsPacked realloc (suc m) zero s g v b o e enough = absurd (omega arith)
terminate_loop-IsPacked realloc (suc m) (suc fuel) s g v b o e enough =
    let (s', packs, p) = pack_grows realloc g s 1 1 v b o (omega arith) in
    let (s'', ends, aligned, q) =
      terminate_loop-IsPacked realloc m fuel s' g p.valid p.blank (p.same_owner ∙ o)
        (omega (arith, p.moved, p.valid.aligned, v.aligned)) (omega arith) in
    (
      s'',
      rw (terminate_step fuel realloc s s' (λ z. omega arith) packs) ends,
      aligned,
      rw (all_ones m) (IsPacked-cons p q),
    )
  where
    all_ones : (m : ℕ) → 2 ^ suc m - 1 ≡ 1 % 2 ^ 1 * 2 ^ m + (2 ^ m - 1)
    all_ones m = omega (arith, pow-suc 2 m, one-le-pow m 2 (omega arith))

-- speex_bits_insert_terminator on a valid, blank stream of its own, with an allocator that obeys
-- realloc and never fails, returns within 8 rounds at a byte boundary; the bits before the
-- cursor are kept, and the bits up to the boundary are a 0 followed by ones (none if the cursor
-- was at a boundary).
pub insert_terminator_lem :
    (realloc : Realloc) (s : SpeexBits)
    → Grows realloc
    → IsValid s
    → IsBlank s
    → s.owner ≡ true
    → (s' : SpeexBits) × (insert_terminator 8 realloc s ≡ ok s')
      × (s'.bit_ptr ≡ 0)
      × IsPacked s (padding s) (2 ^ (padding s - 1) - 1) s'
unfolding insert_terminator
insert_terminator_lem realloc s g v b o = elim (Bool-cases (s.bit_ptr == 0)) [
  | inl z ↦
      let start : s.bit_ptr ≡ 0 = ground arith in
      let none_missing : padding s ≡ 0 = omega arith in
      (
        s,
        ground (arith, z, terminate_stop 8 realloc s start),
        start,
        rw none_missing (IsPacked-nil s v b),
      )
  | inr z ↦
      let inner : s.bit_ptr ≢ 0 = ground arith in
      let (s', packs, p) = pack_grows realloc g s 0 1 v b o (omega arith) in
      let (s'', ends, aligned, q) =
        terminate_loop-IsPacked realloc (padding s') 8 s' g p.valid p.blank (p.same_owner ∙ o) refl
          (omega arith) in
      let count : padding s ≡ suc (padding s') =
        omega (arith, p.moved, p.valid.aligned, v.aligned) in
      let rest : padding s - 1 ≡ padding s' = omega arith in
      (
        s'',
        ground (arith, z, packs, ends),
        aligned,
        rw (rest, count, zero_first (padding s')) (IsPacked-cons p q),
      )
]
  where
    zero_first : (m : ℕ) → 2 ^ m - 1 ≡ 0 % 2 ^ 1 * 2 ^ m + (2 ^ m - 1)
    zero_first m = omega arith

-- A buffer of the caller's whose cursor stands inside its last byte.
pub record IsCornered (s : SpeexBits) : Type 0 where
  pub valid : IsValid s
  pub blank : IsBlank s
  pub borrowed : s.owner ≡ false
  pub last : s.char_ptr + 1 ≡ s.buf_size
  pub inner : s.bit_ptr ≢ 0

pack-IsCornered :
    (realloc : Realloc) (s : SpeexBits) (bit : ℕ)
    → IsRealloc realloc
    → IsCornered s
    → (s' : SpeexBits) × (pack realloc s bit 1 ≡ ok s') × IsCornered s'
pack-IsCornered realloc s bit r c =
    elim (pack_lem realloc s bit 1 r c.valid c.blank (omega arith)) [
      | inl (stuck, e) ↦ (s, e, c)
      | inr (s', e, p) ↦
          let same = p.fixed c.borrowed in
          (
            s',
            e,
            record {
              valid = p.valid;
              blank = p.blank;
              borrowed = p.same_owner ∙ c.borrowed;
              last =
                  omega (
                    arith, p.moved, p.valid.aligned, p.valid.inside, c.valid.aligned, c.last, same,
                  );
              inner = λ z.
                  omega (arith, p.moved, p.valid.inside, c.valid.aligned, c.inner, c.last, same);
            },
          )
    ]

terminate_loop-diverges :
    (realloc : Realloc) (fuel : ℕ) (s : SpeexBits)
    → IsRealloc realloc
    → IsCornered s
    → terminate_loop fuel realloc s ≡ diverges
terminate_loop-diverges realloc zero s r c = unfold terminate_loop in ground (arith, c.inner)
terminate_loop-diverges realloc (suc fuel) s r c =
    let (s', e, c') = pack-IsCornered realloc s 1 r c in
    rw (terminate_step fuel realloc s s' c.inner e) (terminate_loop-diverges realloc fuel s' r c')

-- On a borrowed buffer whose cursor stands inside the last byte, speex_bits_insert_terminator
-- runs out of every fuel: the packing of the last bit is refused each time and the loop waits
-- for it for ever. The allocator only has to obey realloc.
pub insert_terminator-diverges :
    (realloc : Realloc) (fuel : ℕ) (s : SpeexBits)
    → IsRealloc realloc
    → IsCornered s
    → insert_terminator fuel realloc s ≡ diverges
unfolding insert_terminator
insert_terminator-diverges realloc fuel s r c =
    let (s', e, c') = pack-IsCornered realloc s 0 r c in
    ground (arith, c.inner, e, terminate_loop-diverges realloc fuel s' r c')
