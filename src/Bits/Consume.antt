-- ===== src/Bits/Consume.antt =====
-- Reading field by field: a reader of `n` bits, and the reader of one thing after the other.
use speex.Common.{ℕ, ◌+◌, ◌^◌, ◌≤◌, ◌<◌, ◌≡◌, refl, ◌∙◌, arith, false}
use speex.Common.{List, length, load, load-ok, get_or, Result, ok, ◌>>=◌}
use speex.Bits.{SpeexBits, unpack_unsigned}
use speex.Bits.Unpack.{IsReadable, overruns, moved}
use speex.Bits.Field.{field-lt, skip, field, skip-IsReadable, unpack-field}

-- Where `n` bits are left, the second stream is the first one `n` bits on.
abbrev pub IsBehind : SpeexBits → SpeexBits → ℕ → Type 0
IsBehind s s' n = overruns s n ≡ false → s' ≡ moved s n

-- The call returns on this stream, the stream can be read on, and where `n` bits are left the
-- cursor has moved by `n`.
abbrev pub Consumes {ℓ} : {A : Type ℓ} → Result (A × SpeexBits) → SpeexBits → ℕ → Type ℓ
Consumes {A} call s n =
    (a : A) × (s' : SpeexBits) × (call ≡ ok (a, s')) × IsReadable s' × IsBehind s s' n

pub fits_first : (s : SpeexBits) (m n : ℕ) → overruns s (m + n) ≡ false → overruns s m ≡ false
fits_first s m n h = ground arith

pub fits_rest :
    (s : SpeexBits) (m n : ℕ) → overruns s (m + n) ≡ false → overruns (moved s m) n ≡ false
fits_rest s m n h = ground arith

pub moved_twice : (s : SpeexBits) (m n : ℕ) → moved (moved s m) n ≡ moved s (m + n)
moved_twice s m n = ground arith

pub Consumes-return {ℓ} :
    {A : Type ℓ} (a : A) (s : SpeexBits) → IsReadable s → Consumes (ok (a, s)) s 0
Consumes-return a s r = (a, s, refl, r, λ h. nowhere s r.aligned)
  where
    nowhere : (s : SpeexBits) → s.bit_ptr < 8 → s ≡ moved s 0
    nowhere s h = ground arith

pub Consumes-bind {ℓ κ} :
    {A : Type ℓ} {B : Type κ} (call : Result (A × SpeexBits))
    (next : A × SpeexBits → Result (B × SpeexBits)) (s : SpeexBits) (m n : ℕ)
    → Consumes call s m
    → ((a : A) (s' : SpeexBits) → call ≡ ok (a, s') → IsReadable s' → Consumes (next (a, s')) s' n)
    → Consumes (call >>= next) s (m + n)
Consumes-bind call next s m n (a, s1, e, r, moves) then_next =
    let (b, s2, e', r', moves') = then_next a s1 e r in
    (
      b,
      s2,
      rw (e) e',
      r',
      λ h.
          let first = moves (fits_first s m n h) in
          moves' (rw (first) (fits_rest s m n h)) ∙ rw (first) (moved_twice s m n),
    )

pub unpack_unsigned-Consumes :
    (s : SpeexBits) (n : ℕ) → IsReadable s → n ≤ 32 → Consumes (unpack_unsigned s n) s n
unpack_unsigned-Consumes s n r few =
    (field s n, skip s n, unpack-field s n r few, skip-IsReadable s n r, λ h. rw (h) refl)

pub Consumes-count {ℓ} :
    {A : Type ℓ} (call : Result (A × SpeexBits)) (s : SpeexBits) (m n : ℕ)
    → m ≡ n
    → Consumes call s m
    → Consumes call s n
Consumes-count call s m n e c = rw (← e) c

-- What follows the call reads nothing.
pub Consumes-map {ℓ κ} :
    {A : Type ℓ} {B : Type κ} (call : Result (A × SpeexBits)) (f : A → B) (s : SpeexBits) (n : ℕ)
    → Consumes call s n
    → Consumes (call >>= λ (a, s'). ok (f a, s')) s n
Consumes-map call f s n (a, s', e, r, moves) = (f a, s', rw (e) refl, r, moves)

pub IsBehind-skip : (s s' : SpeexBits) (m n : ℕ) → IsBehind s s' m → IsBehind s (skip s' n) (m + n)
IsBehind-skip s s' m n moves h =
    rw (moves (fits_first s m n h), fits_rest s m n h) (moved_twice s m n)

pub skip-IsBehind : (s : SpeexBits) (n : ℕ) → IsBehind s (skip s n) n
skip-IsBehind s n h = rw (h) refl

-- A field of `n` bits that is looked up in a table of 2 ^ n entries, and what follows.
pub Consumes-table {ℓ κ} :
    {A : Type ℓ} {B : Type κ} (table : List A) (d : A)
    (next : A → SpeexBits → Result (B × SpeexBits)) (s : SpeexBits) (n m : ℕ)
    → length table ≡ 2 ^ n
    → n ≤ 32
    → IsReadable s
    → ((x : A) (s' : SpeexBits) → IsReadable s' → Consumes (next x s') s' m)
    → Consumes (unpack_unsigned s n >>= λ (i, s'). load table i >>= λ x. next x s') s (n + m)
Consumes-table table d next s n m size few r then_next =
    let (b, s2, e, r2, moves) =
      then_next (get_or table (field s n) d) (skip s n) (skip-IsReadable s n r) in
    (
      b,
      s2,
      rw (unpack-field s n r few, load-ok table (field s n) d (omega (arith, size, field-lt s n)))
          e,
      r2,
      λ h.
          let first = skip-IsBehind s n (fits_first s n m h) in
          moves (rw (first) (fits_rest s n m h)) ∙ rw (first) (moved_twice s n m),
    )
