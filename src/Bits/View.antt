-- ===== src/Bits/View.antt =====
-- The bit-stream as a sequence of bits: bit `p` of the memory, most significant bit of each byte first.
use speex.Common.{ℕ, zero, suc, ◌+◌, ◌-◌, ◌*◌, ◌/◌, ◌%◌, ◌^◌, ◌<◌, ◌≡◌, refl, arith, bit_or}
use speex.Common.{
  List, length, get_or, below_eight, passes_below, passes_below-at, ltb, ◌==◌, ==_iff, ◌&&◌, Bool,
  true,
}
use mathlib.Core.Path.{subst}
use native.Mathlib.Nat.{div-add-mod}
use speex.Bits.{SpeexBits}

abbrev pub byte_at : List ℕ → ℕ → ℕ
byte_at chars i = get_or chars i 0

unfoldable pub bit_at : List ℕ → ℕ → ℕ
bit_at chars p = byte_at chars (p / 8) / 2 ^ (7 - p % 8) % 2

-- The number written by the `n` bits from bit `p` on.
unfoldable pub bits_at : List ℕ → ℕ → ℕ → ℕ
unfolding bit_at
bits_at chars p zero = 0
bits_at chars p (suc n) = bit_at chars p * 2 ^ n + bits_at chars (p + 1) n

abbrev pub position : SpeexBits → ℕ
position s = s.char_ptr * 8 + s.bit_ptr

-- The memory is as large as `buf_size` says and holds bytes; the cursor is inside it.
pub record IsValid (s : SpeexBits) : Type 0 where
  pub sized : length s.chars ≡ s.buf_size
  pub inside : s.char_ptr < s.buf_size
  pub aligned : s.bit_ptr < 8
  pub bytes : (i : ℕ) → byte_at s.chars i < 256

-- The bits of the current byte from the cursor on are zero, as `|=` needs.
abbrev pub IsBlank : SpeexBits → Type 0
IsBlank s = byte_at s.chars s.char_ptr % 2 ^ (8 - s.bit_ptr) ≡ 0

-- What `c |= bit<<(7-bp)` makes of a byte whose bits from `bp` on are zero.
pub record IsMarked (bp c bit r : ℕ) : Type 0 where
  pub above : (j : ℕ) → j < bp → r / 2 ^ (7 - j) % 2 ≡ c / 2 ^ (7 - j) % 2
  pub marked : r / 2 ^ (7 - bp) % 2 ≡ bit
  pub below : r % 2 ^ (7 - bp) ≡ 0
  pub byte : r < 256

abbrev mark : ℕ → ℕ → ℕ → ℕ
mark bp c bit = bit_or c (bit * 2 ^ (7 - bp)) % 2 ^ 8

-- The conditions of `IsMarked` as one test on a byte that ends in zeros from `bp` on.
abbrev is_marked : ℕ → ℕ → ℕ → Bool
is_marked bp q bit =
    let c = q * 2 ^ (8 - bp) in
    let r = mark bp c bit in
    passes_below (λ j. r / 2 ^ (7 - j) % 2 == c / 2 ^ (7 - j) % 2) bp
    && (r / 2 ^ (7 - bp) % 2 == bit)
    && (r % 2 ^ (7 - bp) == 0)
    && ltb r 256

abbrev is_marked_bits : ℕ → ℕ → Bool
is_marked_bits bp q = passes_below (is_marked bp q) 2

abbrev is_marked_all : ℕ → Bool
is_marked_all bp = passes_below (is_marked_bits bp) (2 ^ bp)

mark_table : passes_below is_marked_all 8 ≡ true
unfolding passes_below
mark_table = refl

mark_test : (bp q bit : ℕ) → bp < 8 → q < 2 ^ bp → bit < 2 → is_marked bp q bit ≡ true
mark_test bp q bit hbp hq hbit =
    passes_below-at (is_marked bp q)
      (passes_below-at (is_marked_bits bp) (passes_below-at is_marked_all mark_table bp hbp) q hq)
      bit hbit

and_left : (a b : Bool) → (a && b) ≡ true → a ≡ true
and_left a b h = ground arith

and_right : (a b : Bool) → (a && b) ≡ true → b ≡ true
and_right a b h = ground arith

mark-IsMarked_shifted :
    (bp q bit : ℕ)
    → bp < 8
    → q < 2 ^ bp
    → bit < 2
    → IsMarked bp (q * 2 ^ (8 - bp)) bit (mark bp (q * 2 ^ (8 - bp)) bit)
mark-IsMarked_shifted bp q bit hbp hq hbit = record {
  above = λ j p.
      (==_iff _ _).0 (passes_below-at _ (and_left _ _ (and_left _ _ (and_left _ _ test))) j p);
  marked = (==_iff _ _).0 (and_right _ _ (and_left _ _ (and_left _ _ test)));
  below = (==_iff _ _).0 (and_right _ _ (and_left _ _ test));
  byte = omega arith;
}
  where
    test : is_marked bp q bit ≡ true
    test = mark_test bp q bit hbp hq hbit

pub mark-IsMarked :
    (bp c bit : ℕ)
    → bp < 8
    → c < 256
    → bit < 2
    → c % 2 ^ (8 - bp) ≡ 0
    → IsMarked bp c bit (mark bp c bit)
mark-IsMarked bp c bit hbp hc hbit blank =
    let q = c / 2 ^ (8 - bp) in
    let whole : q * 2 ^ (8 - bp) ≡ c = omega (arith, div-add-mod c (2 ^ (8 - bp))) in
    let small : q < 2 ^ bp =
      below_eight (λ k. c / 2 ^ (8 - k) < 2 ^ k) bp hbp (omega arith) (omega arith) (omega arith)
        (omega arith) (omega arith) (omega arith) (omega arith) (omega arith) in
    subst (λ (t : ℕ). IsMarked bp t bit (mark bp t bit)) whole
      (mark-IsMarked_shifted bp q bit hbp small hbit)
