-- ===== src/SbDecode/Reading.antt =====
-- How many bits the high band takes, on every stream.
use speex.Common.{
  ℕ, zero, suc, ◌+◌, ◌*◌, ◌/◌, ◌≤◌, ◌≡◌, refl, arith, List, [], ◌∷◌, length, replicate,
  length-replicate, ℤ, pos, true, Bool-cases, inl, inr,
}
use speex.Common.{◌==◌, if◌then◌else◌, ok}
use speex.Bits.{SpeexBits, unpack_unsigned}
use speex.Bits.Unpack.{IsReadable}
use speex.Bits.Consume.{
  Consumes, IsBehind-skip, skip-IsBehind, Consumes-return, Consumes-bind, Consumes-map,
  Consumes-count, Consumes-table, unpack_unsigned-Consumes,
}
use speex.Lsp.High.{lsp_unquant_high_lem}
use speex.Modes.{SpeexSubmode, SpeexSbMode, lsp_high}
use speex.NbDecode.{innovation_unquant, lsp_unquant}
use speex.SbDecode.{
  gc_quant_bound, coded, folded, codebook_gain, sb_second_innovation, read_coded, read_folded,
  has_coder, sb_subframe, sb_subframes, sb_fields,
}

lsp_unquant_high-Consumes :
    (s : SpeexBits) → IsReadable s → Consumes (lsp_unquant lsp_high 8 s) s 12
unfolding lsp_unquant
lsp_unquant_high-Consumes s r =
    let (lsp, runs, same, r') = lsp_unquant_high_lem s r in
    (lsp, _, runs, r', IsBehind-skip s _ 6 6 (skip-IsBehind s 6))

-- The innovation of a sub-mode takes `innov` bits where it has one.
abbrev pub ReadsInnovation : SpeexSubmode → ℕ → Type 0
ReadsInnovation m innov =
    has_coder m.innovation ≡ true
    → (exc : List ℤ) (seed : ℕ) (s : SpeexBits) → 40 ≤ length exc
    → IsReadable s
    → Consumes (innovation_unquant m.innovation m.innovation_params exc seed s) s innov

abbrev second_bits : SpeexSubmode → ℕ → ℕ
second_bits m innov = if m.double_codebook == 0 then 0 else innov

module _ (m : SpeexSubmode) (innov size : ℕ) (reads : ReadsInnovation m innov)
    (room : 40 ≤ size) where
  at_least_40 : 40 ≤ length (replicate size (pos 0))
  at_least_40 = omega (arith, length-replicate size (pos 0))

  sb_second_innovation-Consumes :
      (seed : ℕ) (s : SpeexBits)
      → has_coder m.innovation ≡ true
      → IsReadable s
      → Consumes (sb_second_innovation m size seed s) s (second_bits m innov)
  unfolding sb_second_innovation
  sb_second_innovation-Consumes seed s coder r = elim (Bool-cases (m.double_codebook == 0)) [
    | inl e ↦ rw (e) (Consumes-return (record { innov = []; seed = seed }) s r)
    | inr e ↦ rw (e) (reads coder (replicate size (pos 0)) seed s at_least_40 r)
  ]

  abbrev coded_bits : ℕ
  coded_bits = 4 + (innov + second_bits m innov)

  read_coded-Consumes :
      (seed : ℕ) (s : SpeexBits)
      → has_coder m.innovation ≡ true
      → IsReadable s
      → Consumes (read_coded m size seed s) s coded_bits
  unfolding read_coded gc_quant_bound
  read_coded-Consumes seed s coder r =
      Consumes-table gc_quant_bound (pos 0) _ s 4 (innov + second_bits m innov) refl (omega arith) r
        (λ bound s1 r1.
          Consumes-bind
            (innovation_unquant m.innovation m.innovation_params (replicate size (pos 0)) seed s1) _
            s1 innov (second_bits m innov)
            (reads coder (replicate size (pos 0)) seed s1 at_least_40 r1)
            (λ a s2 e2 r2.
              Consumes-map (sb_second_innovation m size a.seed s2)
                (λ b. record { subframe = coded (codebook_gain size bound) a b; seed = b.seed }) s2
                (second_bits m innov) (sb_second_innovation-Consumes a.seed s2 coder r2)))

  abbrev pub sb_subframe_bits : ℕ
  sb_subframe_bits = if has_coder m.innovation then coded_bits else 5

  sb_subframe-Consumes :
      (seed : ℕ) (s : SpeexBits)
      → IsReadable s
      → Consumes (sb_subframe m size seed s) s sb_subframe_bits
  unfolding sb_subframe read_folded
  sb_subframe-Consumes seed s r = elim (Bool-cases (has_coder m.innovation)) [
    | inl e ↦ rw (e) (read_coded-Consumes seed s e r)
    | inr e ↦ rw (e) (
        Consumes-map (unpack_unsigned s 5)
          (λ quant. record { subframe = folded quant; seed = seed }) s 5
          (unpack_unsigned-Consumes s 5 r (omega arith)))
  ]

  sb_subframes-Consumes :
      (left seed : ℕ) (s : SpeexBits)
      → IsReadable s
      → Consumes (sb_subframes m size seed s left) s (left * sb_subframe_bits)
  unfolding sb_subframes
  sb_subframes-Consumes zero seed s r =
      Consumes-count (ok ([], s)) s 0 (0 * sb_subframe_bits) (nothing sb_subframe_bits)
        (Consumes-return [] s r)
    where
      nothing : (n : ℕ) → 0 ≡ 0 * n
      nothing n = omega arith
  sb_subframes-Consumes (suc left) seed s r =
      Consumes-count _ s (sb_subframe_bits + left * sb_subframe_bits) _
        (one_more sb_subframe_bits left)
        (Consumes-bind (sb_subframe m size seed s) _ s sb_subframe_bits (left * sb_subframe_bits)
          (sb_subframe-Consumes seed s r)
          (λ x s1 e r1.
            Consumes-map (sb_subframes m size x.seed s1 left) (λ rest. x.subframe ∷ rest) s1 _
              (sb_subframes-Consumes left x.seed s1 r1)))
    where
      one_more : (n left : ℕ) → n + left * n ≡ suc left * n
      one_more n left = grind arith

pub sb_fields-Consumes-parts :
    (mode : SpeexSbMode) (m : SpeexSubmode) (innov seed : ℕ) (s : SpeexBits)
    → mode.lpc_size ≡ 8
    → m.lsp ≡ lsp_high
    → (reads : ReadsInnovation m innov) (room : 40 ≤ mode.subframe_size) → IsReadable s
    → Consumes (sb_fields mode m seed s) s (
        12
        + mode.frame_size
          / mode.subframe_size
          * sb_subframe_bits m innov mode.subframe_size reads room)
unfolding sb_fields
sb_fields-Consumes-parts mode m innov seed s order lsp reads room r =
    Consumes-bind (lsp_unquant m.lsp mode.lpc_size s) _ s 12 _
      (rw (order, lsp) (lsp_unquant_high-Consumes s r))
      (λ q s1 e r1.
        Consumes-map
          (sb_subframes m mode.subframe_size seed s1 (mode.frame_size / mode.subframe_size))
          (λ xs. record { qlsp = q; subframes = xs }) s1 _
          (sb_subframes-Consumes m innov mode.subframe_size reads room
            (mode.frame_size / mode.subframe_size) seed s1 r1))
