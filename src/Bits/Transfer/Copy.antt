-- ===== src/Bits/Transfer/Copy.antt =====
-- The copying loop, byte by byte.
use native.Mathlib.Nat.{zero-add}
use speex.Common.{ℕ, zero, suc, ◌+◌, ◌≤◌, ◌<◌, ◌≡◌, refl, ap, ◌∙◌}
use speex.Common.{arith, List, length, set, length-set, get_or-set, ok}
use speex.Common.{load-ok, store-ok, ◌⊎◌}
use speex.Bits.View.{byte_at}
use speex.Bits.Transfer.{copy_loop}

-- `dst'` is `dst` with the bytes from `i` to `n` of `src` stored behind `pos`.
pub record IsCopied (dst : List ℕ) (pos : ℕ) (src : List ℕ) (i n : ℕ) (dst' : List ℕ) : Type 0 where
  pub same_length : length dst' ≡ length dst
  pub copied : (j : ℕ) → i ≤ j → j < n → byte_at dst' (pos + j) ≡ byte_at src j
  pub kept : (q : ℕ) → (q < pos + i) ⊎ (pos + n ≤ q) → byte_at dst' q ≡ byte_at dst q

IsCopied-cons :
    (dst : List ℕ) (pos : ℕ) (src : List ℕ) (i n : ℕ) (dst' : List ℕ)
    → pos + i < length dst
    → i < n
    → IsCopied (set dst (pos + i) (byte_at src i)) pos src (i + 1) n dst'
    → IsCopied dst pos src i n dst'
IsCopied-cons dst pos src i n dst' inside more c = record {
  same_length = c.same_length ∙ length-set dst (pos + i) (byte_at src i);
  copied = λ j p q. ground (
    arith,
    c.copied j,
    c.kept (pos + j),
    get_or-set dst (pos + i) (pos + j) (byte_at src i) 0 inside,
    same_byte j,
  );
  kept = λ q h. ground (arith, c.kept q, get_or-set dst (pos + i) q (byte_at src i) 0 inside);
}
  where
    same_byte : (j : ℕ) → i ≡ j → byte_at src i ≡ byte_at src j
    same_byte j e = ap (λ (k : ℕ). byte_at src k) e

pub copy_loop-IsCopied :
    (left i n pos : ℕ) (dst src : List ℕ)
    → i + left ≡ n
    → n ≤ length src
    → pos + n ≤ length dst
    → (dst' : List ℕ) × (copy_loop dst pos src i left ≡ ok dst') × IsCopied dst pos src i n dst'
unfolding copy_loop
copy_loop-IsCopied zero i n pos dst src e hs hd = (
  dst,
  refl,
  record { same_length = refl; copied = λ j p q. absurd (omega arith); kept = λ q h. refl },
)
copy_loop-IsCopied (suc left) i n pos dst src e hs hd =
    let here : pos + i < length dst = omega arith in
    let next = set dst (pos + i) (byte_at src i) in
    let (dst', returns, c) =
      copy_loop-IsCopied left (i + 1) n pos next src (omega arith) hs
        (omega (arith, length-set dst (pos + i) (byte_at src i))) in
    (
      dst',
      rw (load-ok src i 0 (omega arith), store-ok dst (pos + i) (byte_at src i) here) returns,
      IsCopied-cons dst pos src i n dst' here (omega arith) c,
    )

-- A copy to the start of the destination.
pub IsCopied-start :
    (dst src dst' : List ℕ) (n : ℕ)
    → IsCopied dst 0 src 0 n dst'
    → (j : ℕ) → j < n
    → byte_at dst' j ≡ byte_at src j
IsCopied-start dst src dst' n c j h = rw zero-add at (c.copied j (omega arith) h)
