-- ===== src/Codebook/Exc10.antt =====
-- libspeex/exc_10_32_table.c: signed characters, in the order of the source.
use speex.Common.{List, [], ◌∷◌, ℤ, pos, neg, join}

unfoldable pub exc_10_32_table : List ℤ
exc_10_32_table = join (
    (pos 7 ∷ pos 17 ∷ pos 17 ∷ pos 27 ∷ pos 25 ∷ [])
    ∷ (pos 22 ∷ pos 12 ∷ pos 4 ∷ neg 3 ∷ pos 0 ∷ [])
    ∷ (pos 28 ∷ neg 36 ∷ pos 39 ∷ neg 24 ∷ neg 15 ∷ [])
    ∷ (pos 3 ∷ neg 9 ∷ pos 15 ∷ neg 5 ∷ pos 10 ∷ [])
    ∷ (pos 31 ∷ neg 28 ∷ pos 11 ∷ pos 31 ∷ neg 21 ∷ [])
    ∷ (pos 9 ∷ neg 11 ∷ neg 11 ∷ neg 2 ∷ neg 7 ∷ [])
    ∷ (neg 25 ∷ pos 14 ∷ neg 22 ∷ pos 31 ∷ pos 4 ∷ [])
    ∷ (neg 14 ∷ pos 19 ∷ neg 12 ∷ pos 14 ∷ neg 5 ∷ [])
    ∷ (pos 4 ∷ neg 7 ∷ pos 4 ∷ neg 5 ∷ pos 9 ∷ [])
    ∷ (pos 0 ∷ neg 2 ∷ pos 42 ∷ neg 47 ∷ neg 16 ∷ [])
    ∷ (pos 1 ∷ pos 8 ∷ pos 0 ∷ pos 9 ∷ pos 23 ∷ [])
    ∷ (neg 57 ∷ pos 0 ∷ pos 28 ∷ neg 11 ∷ pos 6 ∷ [])
    ∷ (neg 31 ∷ pos 55 ∷ neg 45 ∷ pos 3 ∷ neg 5 ∷ [])
    ∷ (pos 4 ∷ pos 2 ∷ neg 2 ∷ pos 4 ∷ neg 7 ∷ [])
    ∷ (neg 3 ∷ pos 6 ∷ neg 2 ∷ pos 7 ∷ neg 3 ∷ [])
    ∷ (pos 12 ∷ pos 5 ∷ pos 8 ∷ pos 54 ∷ neg 10 ∷ [])
    ∷ (pos 8 ∷ neg 7 ∷ neg 8 ∷ neg 24 ∷ neg 25 ∷ [])
    ∷ (neg 27 ∷ neg 14 ∷ neg 5 ∷ pos 8 ∷ pos 5 ∷ [])
    ∷ (pos 44 ∷ pos 23 ∷ pos 5 ∷ neg 9 ∷ neg 11 ∷ [])
    ∷ (neg 11 ∷ neg 13 ∷ neg 9 ∷ neg 12 ∷ neg 8 ∷ [])
    ∷ (neg 29 ∷ neg 8 ∷ neg 22 ∷ pos 6 ∷ neg 15 ∷ [])
    ∷ (pos 3 ∷ neg 12 ∷ neg 1 ∷ neg 5 ∷ neg 3 ∷ [])
    ∷ (pos 34 ∷ neg 1 ∷ pos 29 ∷ neg 16 ∷ pos 17 ∷ [])
    ∷ (neg 4 ∷ pos 12 ∷ pos 2 ∷ pos 1 ∷ pos 4 ∷ [])
    ∷ (neg 2 ∷ neg 4 ∷ pos 2 ∷ neg 1 ∷ pos 11 ∷ [])
    ∷ (neg 3 ∷ neg 52 ∷ pos 28 ∷ pos 30 ∷ neg 9 ∷ [])
    ∷ (neg 32 ∷ pos 25 ∷ pos 44 ∷ neg 20 ∷ neg 24 ∷ [])
    ∷ (pos 4 ∷ pos 6 ∷ neg 1 ∷ pos 0 ∷ pos 0 ∷ [])
    ∷ (pos 0 ∷ pos 0 ∷ pos 0 ∷ pos 0 ∷ pos 0 ∷ [])
    ∷ (pos 0 ∷ pos 0 ∷ pos 0 ∷ pos 0 ∷ pos 0 ∷ [])
    ∷ (neg 25 ∷ neg 10 ∷ pos 22 ∷ pos 29 ∷ pos 13 ∷ [])
    ∷ (neg 13 ∷ neg 22 ∷ neg 13 ∷ neg 4 ∷ pos 0 ∷ [])
    ∷ (neg 4 ∷ neg 16 ∷ pos 10 ∷ pos 15 ∷ neg 36 ∷ [])
    ∷ (neg 24 ∷ pos 28 ∷ pos 25 ∷ neg 1 ∷ neg 3 ∷ [])
    ∷ (pos 66 ∷ neg 33 ∷ neg 11 ∷ neg 15 ∷ pos 6 ∷ [])
    ∷ (pos 0 ∷ pos 3 ∷ pos 4 ∷ neg 2 ∷ pos 5 ∷ [])
    ∷ (pos 24 ∷ neg 20 ∷ neg 47 ∷ pos 29 ∷ pos 19 ∷ [])
    ∷ (neg 2 ∷ neg 4 ∷ neg 1 ∷ pos 0 ∷ neg 1 ∷ [])
    ∷ (neg 2 ∷ pos 3 ∷ pos 1 ∷ pos 8 ∷ neg 11 ∷ [])
    ∷ (pos 5 ∷ pos 5 ∷ neg 57 ∷ pos 28 ∷ pos 28 ∷ [])
    ∷ (pos 0 ∷ neg 16 ∷ pos 4 ∷ neg 4 ∷ pos 12 ∷ [])
    ∷ (neg 6 ∷ neg 1 ∷ pos 2 ∷ neg 20 ∷ pos 61 ∷ [])
    ∷ (neg 9 ∷ pos 24 ∷ neg 22 ∷ neg 42 ∷ pos 29 ∷ [])
    ∷ (pos 6 ∷ pos 17 ∷ pos 8 ∷ pos 4 ∷ pos 2 ∷ [])
    ∷ (neg 65 ∷ pos 15 ∷ pos 8 ∷ pos 10 ∷ pos 5 ∷ [])
    ∷ (pos 6 ∷ pos 5 ∷ pos 3 ∷ pos 2 ∷ neg 2 ∷ [])
    ∷ (neg 3 ∷ pos 5 ∷ neg 9 ∷ pos 4 ∷ neg 5 ∷ [])
    ∷ (pos 23 ∷ pos 13 ∷ pos 23 ∷ neg 3 ∷ neg 63 ∷ [])
    ∷ (pos 3 ∷ neg 5 ∷ neg 4 ∷ neg 6 ∷ pos 0 ∷ [])
    ∷ (neg 3 ∷ pos 23 ∷ neg 36 ∷ neg 46 ∷ pos 9 ∷ [])
    ∷ (pos 5 ∷ pos 5 ∷ pos 8 ∷ pos 4 ∷ pos 9 ∷ [])
    ∷ (neg 5 ∷ pos 1 ∷ neg 3 ∷ pos 10 ∷ pos 1 ∷ [])
    ∷ (neg 6 ∷ pos 10 ∷ neg 11 ∷ pos 24 ∷ neg 47 ∷ [])
    ∷ (pos 31 ∷ pos 22 ∷ neg 12 ∷ pos 14 ∷ neg 10 ∷ [])
    ∷ (pos 6 ∷ pos 11 ∷ neg 7 ∷ neg 7 ∷ pos 7 ∷ [])
    ∷ (neg 31 ∷ pos 51 ∷ neg 12 ∷ neg 6 ∷ pos 7 ∷ [])
    ∷ (pos 6 ∷ neg 17 ∷ pos 9 ∷ neg 11 ∷ neg 20 ∷ [])
    ∷ (pos 52 ∷ neg 19 ∷ pos 3 ∷ neg 6 ∷ neg 6 ∷ [])
    ∷ (neg 8 ∷ neg 5 ∷ pos 23 ∷ neg 41 ∷ pos 37 ∷ [])
    ∷ (pos 1 ∷ neg 21 ∷ pos 10 ∷ neg 14 ∷ pos 8 ∷ [])
    ∷ (pos 7 ∷ pos 5 ∷ neg 15 ∷ neg 15 ∷ pos 23 ∷ [])
    ∷ (pos 39 ∷ neg 26 ∷ neg 33 ∷ pos 7 ∷ pos 2 ∷ [])
    ∷ (neg 32 ∷ neg 30 ∷ neg 21 ∷ neg 8 ∷ pos 4 ∷ [])
    ∷ (pos 12 ∷ pos 17 ∷ pos 15 ∷ pos 14 ∷ pos 11 ∷ [])
    ∷ [])
