-- ===== src/CbSearch/Samples.antt =====
-- The samples of a subframe, and that the decoder stays inside its codebook and its subframe.
use native.Mathlib.Decide.{dec_lt}
use speex.Common.{◌⊎◌, inl, inr, get_or-set_self, get_or-set_ne}
use speex.Common.{
  ℕ, zero, suc, ◌+◌, ◌*◌, ◌^◌, ◌≤◌, ◌<◌, ◌≡◌, refl, ◌∙◌, arith, List, [], ◌∷◌, length, length-set,
  set, All,
}
use speex.Common.{ℤ, pos, get_or, if◌then◌else◌, ◌==◌, inl, inr, ok, load-ok, store-ok}
use speex.Bits.{SpeexBits}
use speex.Bits.Unpack.{IsReadable}
use speex.CbSearch.{SplitCbParams, decode_indices, fill, fill_all, split_cb_shape_sign_unquant}
use speex.Fixed.{shl32, neg32}
use speex.CbSearch.Inside.{IsSplit, SplitCb, params, params-IsSplit, AreRead, decode_indices-ok}

abbrev pub entry : List ℤ → ℕ → ℤ
entry xs q = get_or xs q (pos 0)

-- The sample that a codebook entry stands for, with the sign of its subvector.
abbrev pub sample : ℕ → ℤ → ℤ
sample sign c = if sign == 0 then shl32 c 9 else neg32 (shl32 c 9)

-- Samples `j` to `n` of the subvector at `start` are written, and nothing else.
record IsFilled (cb : List ℤ) (sign base start j n : ℕ) (exc exc' : List ℤ) : Type 0 where
  same_length : length exc' ≡ length exc
  written : (t : ℕ) → j ≤ t → t < n → entry exc' (start + t) ≡ sample sign (entry cb (base + t))
  kept : (q : ℕ) → (q < start + j) ⊎ (start + n ≤ q) → entry exc' q ≡ entry exc q

fill-IsFilled :
    (cb : List ℤ) (sign base start n left j : ℕ) (exc : List ℤ)
    → base + n ≤ length cb
    → start + n ≤ length exc
    → j + left ≡ n
    → (exc' : List ℤ) × (fill cb sign base start exc j left ≡ ok exc')
      × IsFilled cb sign base start j n exc exc'
unfolding fill
fill-IsFilled cb sign base start n zero j exc hc he e = (
  exc,
  refl,
  record { same_length = refl; written = λ t p q. absurd (omega arith); kept = λ q p. refl },
)
fill-IsFilled cb sign base start n (suc left) j exc hc he e =
    let c = get_or cb (base + j) (pos 0) in
    let v = sample sign c in
    let same = length-set exc (start + j) v in
    let (exc', runs, f) =
      fill-IsFilled cb sign base start n left (j + 1) (set exc (start + j) v) hc
        (omega (arith, same)) (omega arith) in
    (
      exc',
      rw (load-ok cb (base + j) (pos 0) (omega arith), store-ok exc (start + j) v (omega arith))
          runs,
      IsFilled-cons cb sign base start n j exc exc' (omega arith) (omega arith) f,
    )
  where
    IsFilled-cons :
        (cb : List ℤ) (sign base start n j : ℕ) (exc exc' : List ℤ)
        → j < n
        → start + n ≤ length exc
        → IsFilled cb sign base start
            (j + 1)
            n
            (set exc (start + j) (sample sign (entry cb (base + j))))
            exc'
        → IsFilled cb sign base start j n exc exc'
    IsFilled-cons cb sign base start n j exc exc' h room f =
        let v = sample sign (entry cb (base + j)) in
        record {
          same_length = f.same_length ∙ length-set exc (start + j) v;
          written = λ t p q. elim (dec_lt j t) [
            | yes later ↦ f.written t (omega arith) q
            | no now ↦
                let here : t ≡ j = omega arith in
                rw (here) (
                  f.kept (start + j) (inl (omega arith))
                  ∙ get_or-set_self exc (start + j) v (pos 0) (omega arith))
          ];
          kept = λ q p.
              f.kept q (elim p [ inl a ↦ inl (omega arith) | inr b ↦ inr b ])
              ∙ get_or-set_ne exc (start + j) q v (pos 0)
                  (elim p [ inl a ↦ omega arith | inr b ↦ omega arith ]);
        }

inside_codebook : (i size n : ℕ) → i < n → i * size + size ≤ size * n
inside_codebook i size n h = grind arith

inside_subframe : (size i k n : ℕ) → size * (i + suc k) ≤ n → size * i + size ≤ n
inside_subframe size i k n h = grind arith

next_subvector : (size i k : ℕ) → size * (i + 1 + k) ≡ size * (i + suc k)
next_subvector size i k = grind arith

-- The sign and the index of subvector `i`.
abbrev pub pair : List (ℕ × ℕ) → ℕ → ℕ × ℕ
pair indices i = get_or indices i (0, 0)

-- The subvectors from `i` on are the codewords of the indices, and the samples before are kept.
pub record IsExcited (p : SplitCbParams) (indices : List (ℕ × ℕ)) (i : ℕ) (exc exc' : List ℤ)
    : Type 0 where
  pub same_length : length exc' ≡ length exc
  pub codewords :
      (k j : ℕ)
      → k < length indices
      → j < p.subvect_size
      → entry exc' (p.subvect_size * (i + k) + j)
        ≡ sample (pair indices k).0 (entry p.shape_cb ((pair indices k).1 * p.subvect_size + j))
  pub kept : (q : ℕ) → q < p.subvect_size * i → entry exc' q ≡ entry exc q

next_start : (size i : ℕ) → size * (i + 1) ≡ size * i + size
next_start size i = grind arith

first_place : (size i j : ℕ) → size * (i + 0) + j ≡ size * i + j
first_place size i j = grind arith

later_place : (size i k j : ℕ) → size * (i + suc k) + j ≡ size * (i + 1 + k) + j
later_place size i k j = grind arith

IsExcited-cons :
    (p : SplitCbParams) (sign ind : ℕ) (rest : List (ℕ × ℕ)) (i : ℕ) (exc exc1 exc' : List ℤ)
    → IsFilled p.shape_cb sign (ind * p.subvect_size) (p.subvect_size * i) 0 p.subvect_size exc exc1
    → IsExcited p rest (i + 1) exc1 exc'
    → IsExcited p ((sign, ind) ∷ rest) i exc exc'
IsExcited-cons p sign ind rest i exc exc1 exc' f a = record {
  same_length = a.same_length ∙ f.same_length;
  codewords = at;
  kept =
      λ q h. a.kept q (omega (arith, next_start p.subvect_size i)) ∙ f.kept q (inl (omega arith));
}
  where
    at :
        (k j : ℕ)
        → k < length ((sign, ind) ∷ rest)
        → j < p.subvect_size
        → entry exc' (p.subvect_size * (i + k) + j)
          ≡ sample
              (pair ((sign, ind) ∷ rest) k).0
              (entry p.shape_cb ((pair ((sign, ind) ∷ rest) k).1 * p.subvect_size + j))
    at zero j h small = rw (first_place p.subvect_size i j) (
        a.kept (p.subvect_size * i + j) (omega (arith, next_start p.subvect_size i))
        ∙ f.written j (omega arith) small)
    at (suc k) j h small =
        rw (later_place p.subvect_size i k j) (a.codewords k j (omega arith) small)

fill_all-IsExcited :
    (p : SplitCbParams) (indices : List (ℕ × ℕ)) (i : ℕ) (exc : List ℤ)
    → IsSplit p
    → All (λ (x : ℕ × ℕ). x.1 < 2 ^ p.shape_bits) indices
    → p.subvect_size * (i + length indices) ≤ length exc
    → (exc' : List ℤ) × (fill_all p indices i exc ≡ ok exc') × IsExcited p indices i exc exc'
unfolding fill_all
fill_all-IsExcited p [] i exc c small room = (
  exc,
  refl,
  record { same_length = refl; codewords = λ k j h q. absurd (omega arith); kept = λ q h. refl },
)
fill_all-IsExcited p ((sign, ind) ∷ rest) i exc c (here, later) room =
    let size = p.subvect_size in
    let (exc1, runs1, f) =
      fill-IsFilled p.shape_cb sign (ind * size) (size * i) size size 0 exc
        (omega (arith, c.complete, inside_codebook ind size (2 ^ p.shape_bits) here))
        (inside_subframe size i (length rest) (length exc) room) (omega arith) in
    let (exc2, runs2, a) =
      fill_all-IsExcited p rest (i + 1) exc1 c later
        (omega (arith, f.same_length, next_subvector size i (length rest), room)) in
    (exc2, rw (runs1) runs2, IsExcited-cons p sign ind rest i exc exc1 exc2 f a)

-- split_cb_shape_sign_unquant with each of the eight parameter sets of the modes, into a
-- subframe of at least 40 samples, on every stream whose announced bits are in memory, returns
-- and never faults. It reads for each subvector a sign of one bit, if the set has signs, and
-- then an index of the set's width, one behind the other from the cursor on. The samples of a
-- subvector are the codeword of its index, each entry shifted by 9 in 32 bits and negated where
-- the sign is set. The subframe keeps its length, and the stream can be read on.
pub split_cb_shape_sign_unquant_lem :
    (k : SplitCb) (exc : List ℤ) (s : SpeexBits)
    → 40 ≤ length exc
    → IsReadable s
    → (exc' : List ℤ) × (s' : SpeexBits) × (split_cb_shape_sign_unquant exc (params k) s
        ≡ ok (exc', s'))
      × (indices : List (ℕ × ℕ)) × (decode_indices (params k) s (params k).nb_subvect
          ≡ ok (indices, s'))
      × (length indices ≡ (params k).nb_subvect)
      × IsExcited (params k) indices 0 exc exc'
      × IsReadable s'
      × AreRead (params k) indices s s'
unfolding split_cb_shape_sign_unquant
split_cb_shape_sign_unquant_lem k exc s room r =
    let p = params k in
    let c = params-IsSplit k in
    let (indices, s', runs, size, small, r', reads) = decode_indices-ok p p.nb_subvect s c.few r in
    let (exc', fills, same) =
      fill_all-IsExcited p indices 0 exc c small (omega (arith, whole p indices c size)) in
    (exc', s', rw (runs, fills) refl, indices, runs, size, same, r', reads)
  where
    whole :
        (p : SplitCbParams) (indices : List (ℕ × ℕ))
        → IsSplit p
        → length indices ≡ p.nb_subvect
        → p.subvect_size * (0 + length indices) ≡ 40
    whole p indices c e = rw (e) (grind (arith, c.subframe))
