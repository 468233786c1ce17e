-- ===== src/Codebook/Hexc10.antt =====
-- libspeex/hexc_10_32_table.c: signed characters, in the order of the source.
use speex.Common.{List, [], ◌∷◌, ℤ, pos, neg, join}

unfoldable pub hexc_10_32_table : List ℤ
hexc_10_32_table = join (
    (neg 3 ∷ neg 2 ∷ neg 1 ∷ pos 0 ∷ neg 4 ∷ [])
    ∷ (pos 5 ∷ pos 35 ∷ neg 40 ∷ neg 9 ∷ pos 13 ∷ [])
    ∷ (neg 44 ∷ pos 5 ∷ neg 27 ∷ neg 1 ∷ neg 7 ∷ [])
    ∷ (pos 6 ∷ neg 11 ∷ pos 7 ∷ neg 8 ∷ pos 7 ∷ [])
    ∷ (pos 19 ∷ neg 14 ∷ pos 15 ∷ neg 4 ∷ pos 9 ∷ [])
    ∷ (neg 10 ∷ pos 10 ∷ neg 8 ∷ pos 10 ∷ neg 9 ∷ [])
    ∷ (neg 1 ∷ pos 1 ∷ pos 0 ∷ pos 0 ∷ pos 2 ∷ [])
    ∷ (pos 5 ∷ neg 18 ∷ pos 22 ∷ neg 53 ∷ pos 50 ∷ [])
    ∷ (pos 1 ∷ neg 23 ∷ pos 50 ∷ neg 36 ∷ pos 15 ∷ [])
    ∷ (pos 3 ∷ neg 13 ∷ pos 14 ∷ neg 10 ∷ pos 6 ∷ [])
    ∷ (pos 1 ∷ pos 5 ∷ neg 3 ∷ pos 4 ∷ neg 2 ∷ [])
    ∷ (pos 5 ∷ neg 32 ∷ pos 25 ∷ pos 5 ∷ neg 2 ∷ [])
    ∷ (neg 1 ∷ neg 4 ∷ pos 1 ∷ pos 11 ∷ neg 29 ∷ [])
    ∷ (pos 26 ∷ neg 6 ∷ neg 15 ∷ pos 30 ∷ neg 18 ∷ [])
    ∷ (pos 0 ∷ pos 15 ∷ neg 17 ∷ pos 40 ∷ neg 41 ∷ [])
    ∷ (pos 3 ∷ pos 9 ∷ neg 2 ∷ neg 2 ∷ pos 3 ∷ [])
    ∷ (neg 3 ∷ neg 1 ∷ neg 5 ∷ pos 2 ∷ pos 21 ∷ [])
    ∷ (neg 6 ∷ neg 16 ∷ neg 21 ∷ pos 23 ∷ pos 2 ∷ [])
    ∷ (pos 60 ∷ pos 15 ∷ pos 16 ∷ neg 16 ∷ neg 9 ∷ [])
    ∷ (pos 14 ∷ pos 9 ∷ neg 1 ∷ pos 7 ∷ neg 9 ∷ [])
    ∷ (pos 0 ∷ pos 1 ∷ pos 1 ∷ pos 0 ∷ neg 1 ∷ [])
    ∷ (neg 6 ∷ pos 17 ∷ neg 28 ∷ pos 54 ∷ neg 45 ∷ [])
    ∷ (neg 1 ∷ pos 1 ∷ neg 1 ∷ neg 6 ∷ neg 6 ∷ [])
    ∷ (pos 2 ∷ pos 11 ∷ pos 26 ∷ neg 29 ∷ neg 2 ∷ [])
    ∷ (pos 46 ∷ neg 21 ∷ pos 34 ∷ pos 12 ∷ neg 23 ∷ [])
    ∷ (pos 32 ∷ neg 23 ∷ pos 16 ∷ neg 10 ∷ pos 3 ∷ [])
    ∷ (pos 66 ∷ pos 19 ∷ neg 20 ∷ pos 24 ∷ pos 7 ∷ [])
    ∷ (pos 11 ∷ neg 3 ∷ pos 0 ∷ neg 3 ∷ neg 1 ∷ [])
    ∷ (neg 50 ∷ neg 46 ∷ pos 2 ∷ neg 18 ∷ neg 3 ∷ [])
    ∷ (pos 4 ∷ neg 1 ∷ neg 2 ∷ pos 3 ∷ neg 3 ∷ [])
    ∷ (neg 19 ∷ pos 41 ∷ neg 36 ∷ pos 9 ∷ pos 11 ∷ [])
    ∷ (neg 24 ∷ pos 21 ∷ neg 16 ∷ pos 9 ∷ neg 3 ∷ [])
    ∷ (neg 25 ∷ neg 3 ∷ pos 10 ∷ pos 18 ∷ neg 9 ∷ [])
    ∷ (neg 2 ∷ neg 5 ∷ neg 1 ∷ neg 5 ∷ pos 6 ∷ [])
    ∷ (neg 4 ∷ neg 3 ∷ pos 2 ∷ neg 26 ∷ pos 21 ∷ [])
    ∷ (neg 19 ∷ pos 35 ∷ neg 15 ∷ pos 7 ∷ neg 13 ∷ [])
    ∷ (pos 17 ∷ neg 19 ∷ pos 39 ∷ neg 43 ∷ pos 48 ∷ [])
    ∷ (neg 31 ∷ pos 16 ∷ neg 9 ∷ pos 7 ∷ neg 2 ∷ [])
    ∷ (neg 5 ∷ pos 3 ∷ neg 4 ∷ pos 9 ∷ neg 19 ∷ [])
    ∷ (pos 27 ∷ neg 55 ∷ pos 63 ∷ neg 35 ∷ pos 10 ∷ [])
    ∷ (pos 26 ∷ neg 44 ∷ neg 2 ∷ pos 9 ∷ pos 4 ∷ [])
    ∷ (pos 1 ∷ neg 6 ∷ pos 8 ∷ neg 9 ∷ pos 5 ∷ [])
    ∷ (neg 8 ∷ neg 1 ∷ neg 3 ∷ neg 16 ∷ pos 45 ∷ [])
    ∷ (neg 42 ∷ pos 5 ∷ pos 15 ∷ neg 16 ∷ pos 10 ∷ [])
    ∷ (pos 0 ∷ pos 0 ∷ pos 0 ∷ pos 0 ∷ pos 0 ∷ [])
    ∷ (pos 0 ∷ pos 0 ∷ pos 0 ∷ pos 0 ∷ pos 0 ∷ [])
    ∷ (neg 16 ∷ pos 24 ∷ neg 55 ∷ pos 47 ∷ neg 38 ∷ [])
    ∷ (pos 27 ∷ neg 19 ∷ pos 7 ∷ neg 3 ∷ pos 1 ∷ [])
    ∷ (pos 16 ∷ pos 27 ∷ pos 20 ∷ neg 19 ∷ pos 18 ∷ [])
    ∷ (pos 5 ∷ neg 7 ∷ pos 1 ∷ neg 5 ∷ pos 2 ∷ [])
    ∷ (neg 6 ∷ pos 8 ∷ neg 22 ∷ pos 0 ∷ neg 3 ∷ [])
    ∷ (neg 3 ∷ pos 8 ∷ neg 1 ∷ pos 7 ∷ neg 8 ∷ [])
    ∷ (pos 1 ∷ neg 3 ∷ pos 5 ∷ pos 0 ∷ pos 17 ∷ [])
    ∷ (neg 48 ∷ pos 58 ∷ neg 52 ∷ pos 29 ∷ neg 7 ∷ [])
    ∷ (neg 2 ∷ pos 3 ∷ neg 10 ∷ pos 6 ∷ neg 26 ∷ [])
    ∷ (pos 58 ∷ neg 31 ∷ pos 1 ∷ neg 6 ∷ pos 3 ∷ [])
    ∷ (pos 93 ∷ neg 29 ∷ pos 39 ∷ pos 3 ∷ pos 17 ∷ [])
    ∷ (pos 5 ∷ pos 6 ∷ neg 1 ∷ neg 1 ∷ neg 1 ∷ [])
    ∷ (pos 27 ∷ pos 13 ∷ pos 10 ∷ pos 19 ∷ neg 7 ∷ [])
    ∷ (neg 34 ∷ pos 12 ∷ pos 10 ∷ neg 4 ∷ pos 9 ∷ [])
    ∷ (neg 76 ∷ pos 9 ∷ pos 8 ∷ neg 28 ∷ neg 2 ∷ [])
    ∷ (neg 11 ∷ pos 2 ∷ neg 1 ∷ pos 3 ∷ pos 1 ∷ [])
    ∷ (neg 83 ∷ pos 38 ∷ neg 39 ∷ pos 4 ∷ neg 16 ∷ [])
    ∷ (neg 6 ∷ neg 2 ∷ neg 5 ∷ pos 5 ∷ neg 2 ∷ [])
    ∷ [])
