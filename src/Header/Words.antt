-- ===== src/Header/Words.antt =====
-- A word that one machine writes and another one reads.
use speex.Common.{ℕ, ◌+◌, ◌*◌, ◌^◌, ◌<◌, ◌≡◌, arith, Bool, true, false}
use speex.Header.{byte, swapped, le_int, word_bytes, word_at}

pub bytes-sum :
    (w : ℕ) → w < 2 ^ 32 → byte w 0 + byte w 1 * 2 ^ 8 + byte w 2 * 2 ^ 16 + byte w 3 * 2 ^ 24 ≡ w
unfolding byte
bytes-sum w h = omega arith

module _ (w : ℕ) (h : w < 2 ^ 32) where
  byte-swapped0 : byte (swapped w) 0 ≡ byte w 3
  unfolding swapped byte
  byte-swapped0 = omega arith

  byte-swapped1 : byte (swapped w) 1 ≡ byte w 2
  unfolding swapped byte
  byte-swapped1 = omega arith

  byte-swapped2 : byte (swapped w) 2 ≡ byte w 1
  unfolding swapped byte
  byte-swapped2 = omega arith

  byte-swapped3 : byte (swapped w) 3 ≡ byte w 0
  unfolding swapped byte
  byte-swapped3 = omega arith

  swapped_back :
      byte (swapped w) 3
        + byte (swapped w) 2 * 2 ^ 8
        + byte (swapped w) 1 * 2 ^ 16
        + byte (swapped w) 0 * 2 ^ 24
      ≡ w
  swapped_back = rw (byte-swapped3, byte-swapped2, byte-swapped1, byte-swapped0) (bytes-sum w h)

  swapped-swapped : swapped (swapped w) ≡ w
  unfolding swapped
  swapped-swapped = swapped_back

  swapped-lt : swapped w < 2 ^ 32
  unfolding swapped byte
  swapped-lt = omega arith

-- The word that the machine `b` finds where the machine `a` has stored `w`.
abbrev pub carried : Bool → Bool → ℕ → ℕ
carried a b w = word_at b (word_bytes a w) 0

pub le_int-carried : (a b : Bool) (w : ℕ) → w < 2 ^ 32 → le_int b (carried a b (le_int a w)) ≡ w
unfolding le_int word_at word_bytes swapped
le_int-carried false false w h = bytes-sum w h
le_int-carried false true w h = reversed w h
  where
    reversed :
        (w : ℕ)
        → w < 2 ^ 32
        → swapped (byte w 3 + byte w 2 * 256 + byte w 1 * 65536 + byte w 0 * 16777216) ≡ w
    reversed w h = swapped-swapped w h
le_int-carried true false w h = swapped_back w h
le_int-carried true true w h = rw (bytes-sum (swapped w) (swapped-lt w h)) (swapped-swapped w h)
