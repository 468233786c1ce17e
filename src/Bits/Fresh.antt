-- ===== src/Bits/Fresh.antt =====
-- The stream that `speex_bits_init` makes.
use speex.Common.{ℕ, ◌<◌, ◌≡◌, refl, ◌∙◌, arith, true, false, List, length, set, get_or}
use speex.Common.{length-set, get_or-set, store-ok, ok, some}
use speex.Bits.{SpeexBits, init, max_chars_per_frame}
use speex.Bits.View.{position, IsValid, IsBlank}

-- A stream of its own that was just reset.
pub record IsFresh (s : SpeexBits) : Type 0 where
  pub valid : IsValid s
  pub blank : IsBlank s
  pub owned : s.owner ≡ true
  pub start : position s ≡ 0
  pub empty : s.nb_bits ≡ 0

-- speex_bits_init on a block of 2000 bytes from the allocator returns a fresh stream: valid and
-- blank, its own, empty, with the cursor at the start.
pub init-IsFresh :
    (s : SpeexBits) (block : List ℕ)
    → length block ≡ max_chars_per_frame
    → ((i : ℕ) → get_or block i 0 < 256)
    → (s' : SpeexBits) × (init (some block) s ≡ ok (some s')) × IsFresh s'
unfolding init
init-IsFresh s block size bytes =
    let inside : 0 < length block = omega arith in
    (
      record s {
        chars = set block 0 0;
        nb_bits = 0;
        char_ptr = 0;
        bit_ptr = 0;
        owner = true;
        overflow = false;
        buf_size = max_chars_per_frame;
      },
      rw (store-ok block 0 0 inside),
      record {
        valid = record {
          sized = length-set block 0 0 ∙ size;
          inside = omega arith;
          aligned = omega arith;
          bytes = λ i. ground (arith, get_or-set block 0 i 0 0 inside, bytes i);
        };
        blank = ground (arith, get_or-set block 0 0 0 0 inside);
        owned = refl;
        start = refl;
        empty = refl;
      },
    )
