-- ===== src/Lsp/Stage.antt =====
-- One stage of the decoder: it stays inside its codebook and never wraps.
use mathlib.Core.Path.{subst}
use native.Mathlib.Decide.{dec_lt}
use speex.Common.{ℕ, zero, suc, ◌+◌, ◌-◌, ◌*◌, ◌^◌, ◌≤◌, ◌<◌, ◌≡◌, refl, ap, ◌∙◌}
use speex.Common.{arith, true, List, length, get_or, set, length-set, get_or-set}
use speex.Common.{ℤ, pos, ◌+ℤ◌, ok, load-ok, store-ok, ◌⊎◌, inl, inr}
use speex.Fixed.{
  extract16, scale, shl16, Within, extract16-Within, scale-Within, +ℤ-Within, Within-weaken,
}
use speex.Fixed.{are_chars, get_or-Within}
use speex.Lsp.{add_codeword}

abbrev pub entry : List ℤ → ℕ → ℤ
entry xs i = get_or xs i (pos 0)

-- `lsp'` is `lsp` with entries `i` to `n` of the codeword at `base` added, times 2 ^ k, behind `off`.
pub record IsAdded (cdbk : List ℤ) (base k off : ℕ) (i n : ℕ) (lsp lsp' : List ℤ) : Type 0 where
  pub same_length : length lsp' ≡ length lsp
  pub added :
      (j : ℕ)
      → i ≤ j
      → j < n
      → entry lsp' (j + off) ≡ entry lsp (j + off) +ℤ scale (entry cdbk (base + j)) k
  pub kept : (q : ℕ) → (q < i + off) ⊎ (n + off ≤ q) → entry lsp' q ≡ entry lsp q

pub IsAdded-at :
    (cdbk : List ℤ) (base k off n : ℕ) (lsp lsp' : List ℤ)
    → IsAdded cdbk base k off 0 n lsp lsp'
    → (q j : ℕ) → q ≡ j + off
    → j < n
    → entry lsp' q ≡ entry lsp q +ℤ scale (entry cdbk (base + j)) k
IsAdded-at cdbk base k off n lsp lsp' a q j e h = rw (e) (a.added j (omega arith) h)

-- The sum that one round stores is exact.
exact_sum :
    (x c : ℤ) (bound k : ℕ)
    → Within bound x
    → Within 128 c
    → bound + 128 * 2 ^ k ≤ 32767
    → extract16 (x +ℤ shl16 c k) ≡ x +ℤ scale c k
unfolding shl16
exact_sum x c bound k hx hc small =
    let times = scale-Within c 128 k hc in
    ap (λ (t : ℤ). extract16 (x +ℤ t))
      (extract16-Within (scale c k) (Within-weaken 32767 (omega arith) times))
    ∙ extract16-Within (x +ℤ scale c k)
        (Within-weaken 32767 small (+ℤ-Within x (scale c k) bound (128 * 2 ^ k) hx times))

module _ (cdbk : List ℤ) (base k off n bound : ℕ) (chars : are_chars cdbk ≡ true)
    (inside : base + n ≤ length cdbk) (small : bound + 128 * 2 ^ k ≤ 32767) where
  abbrev sum_at : List ℤ → ℕ → ℤ
  sum_at lsp i = entry lsp (i + off) +ℤ scale (entry cdbk (base + i)) k

  add_codeword-suc :
      (left i : ℕ) (lsp : List ℤ)
      → i < n
      → i + off < length lsp
      → Within bound (entry lsp (i + off))
      → add_codeword cdbk base k off lsp i (suc left)
        ≡ add_codeword cdbk base k off (set lsp (i + off) (sum_at lsp i)) (i + 1) left
  unfolding add_codeword
  add_codeword-suc left i lsp h room fits =
      rw
        (
          load-ok cdbk (base + i) (pos 0) (omega arith),
          load-ok lsp (i + off) (pos 0) room,
          exact_sum (entry lsp (i + off)) (entry cdbk (base + i)) bound k fits
              (get_or-Within 128 cdbk chars (base + i)) small,
          store-ok lsp (i + off) (sum_at lsp i) room,
        )
        refl

  IsAdded-cons :
      (i : ℕ) (lsp lsp' : List ℤ)
      → i < n
      → i + off < length lsp
      → IsAdded cdbk base k off (i + 1) n (set lsp (i + off) (sum_at lsp i)) lsp'
      → IsAdded cdbk base k off i n lsp lsp'
  IsAdded-cons i lsp lsp' h room a = record {
    same_length = a.same_length ∙ length-set lsp (i + off) (sum_at lsp i);
    added = λ j p q. ground (
      arith,
      a.added j,
      a.kept (j + off),
      get_or-set lsp (i + off) (j + off) (sum_at lsp i) (pos 0) room,
      ap {B = ℤ} (λ (t : ℕ). sum_at lsp t) {x = i} {y = j},
    );
    kept = λ q p. ground (arith, a.kept q, get_or-set lsp (i + off) q (sum_at lsp i) (pos 0) room);
  }

  pub add_codeword-IsAdded :
      (left i : ℕ) (lsp : List ℤ)
      → i + left ≡ n
      → n + off ≤ length lsp
      → ((j : ℕ) → i ≤ j → Within bound (entry lsp (j + off)))
      → (lsp' : List ℤ) × (add_codeword cdbk base k off lsp i left ≡ ok lsp')
        × IsAdded cdbk base k off i n lsp lsp'
  add_codeword-IsAdded zero i lsp e room fits = (
    lsp,
    unfold add_codeword in refl,
    record { same_length = refl; added = λ j p q. absurd (omega arith); kept = λ q p. refl },
  )
  add_codeword-IsAdded (suc left) i lsp e room fits =
      let here : i + off < length lsp = omega arith in
      let next = set lsp (i + off) (sum_at lsp i) in
      let (lsp', returns, a) =
        add_codeword-IsAdded left (i + 1) next (omega arith)
          (omega (arith, length-set lsp (i + off) (sum_at lsp i)))
          (λ j p. rw (later lsp i j here p) (fits j (omega arith))) in
      (
        lsp',
        rw (add_codeword-suc left i lsp (omega arith) here (fits i (omega arith))) returns,
        IsAdded-cons i lsp lsp' (omega arith) here a,
      )
    where
      later :
          (lsp : List ℤ) (i j : ℕ)
          → i + off < length lsp
          → i + 1 ≤ j
          → entry (set lsp (i + off) (sum_at lsp i)) (j + off) ≡ entry lsp (j + off)
      later lsp i j room p =
          ground (arith, get_or-set lsp (i + off) (j + off) (sum_at lsp i) (pos 0) room)

-- All entries of the sum stay between known bounds.
pub IsAdded-Within :
    (cdbk : List ℤ) (base k off n bound : ℕ) (lsp lsp' : List ℤ)
    → are_chars cdbk ≡ true
    → IsAdded cdbk base k off 0 n lsp lsp'
    → ((j : ℕ) → Within bound (entry lsp j))
    → (j : ℕ) → Within (bound + 128 * 2 ^ k) (entry lsp' j)
IsAdded-Within cdbk base k off n bound lsp lsp' chars a fits j = elim (dec_lt j off) [
  | yes p ↦ rw (a.kept j (inl (omega arith))) (Within-weaken _ (omega arith) (fits j))
  | no p ↦ elim (dec_lt j (n + off)) [
    | no q ↦ rw (a.kept j (inr (omega arith))) (Within-weaken _ (omega arith) (fits j))
    | yes q ↦
        let back : j - off + off ≡ j = omega arith in
        subst (λ (t : ℕ). Within (bound + 128 * 2 ^ k) (entry lsp' t)) back
          (rw (a.added (j - off) (omega arith) (omega arith)) (
            +ℤ-Within (entry lsp (j - off + off)) (scale (entry cdbk (base + (j - off))) k) bound
              (128 * 2 ^ k) (rw back (fits j))
              (scale-Within (entry cdbk (base + (j - off))) 128 k
                (get_or-Within 128 cdbk chars (base + (j - off))))))
  ]
]
