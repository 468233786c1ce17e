-- ===== src/Codebook/Exc20.antt =====
-- libspeex/exc_20_32_table.c: signed characters, in the order of the source.
use speex.Common.{List, [], ◌∷◌, ℤ, pos, neg, join}

unfoldable pub exc_20_32_table : List ℤ
exc_20_32_table = join (
    (pos 12 ∷ pos 32 ∷ pos 25 ∷ pos 46 ∷ pos 36 ∷ [])
    ∷ (pos 33 ∷ pos 9 ∷ pos 14 ∷ neg 3 ∷ pos 6 ∷ [])
    ∷ (pos 1 ∷ neg 8 ∷ pos 0 ∷ neg 10 ∷ neg 5 ∷ [])
    ∷ (neg 7 ∷ neg 7 ∷ neg 7 ∷ neg 5 ∷ neg 5 ∷ [])
    ∷ (pos 31 ∷ neg 27 ∷ pos 24 ∷ neg 32 ∷ neg 4 ∷ [])
    ∷ (pos 10 ∷ neg 11 ∷ pos 21 ∷ neg 3 ∷ pos 19 ∷ [])
    ∷ (pos 23 ∷ neg 9 ∷ pos 22 ∷ pos 24 ∷ neg 10 ∷ [])
    ∷ (neg 1 ∷ neg 10 ∷ neg 13 ∷ neg 7 ∷ neg 11 ∷ [])
    ∷ (pos 42 ∷ neg 33 ∷ pos 31 ∷ pos 19 ∷ neg 8 ∷ [])
    ∷ (pos 0 ∷ neg 10 ∷ neg 16 ∷ pos 1 ∷ neg 21 ∷ [])
    ∷ (neg 17 ∷ pos 10 ∷ neg 8 ∷ pos 14 ∷ pos 8 ∷ [])
    ∷ (pos 4 ∷ pos 11 ∷ neg 2 ∷ pos 5 ∷ neg 2 ∷ [])
    ∷ (neg 33 ∷ pos 11 ∷ neg 16 ∷ pos 33 ∷ pos 11 ∷ [])
    ∷ (neg 4 ∷ pos 9 ∷ neg 4 ∷ pos 11 ∷ pos 2 ∷ [])
    ∷ (pos 6 ∷ neg 5 ∷ pos 8 ∷ neg 5 ∷ pos 11 ∷ [])
    ∷ (neg 4 ∷ neg 6 ∷ pos 26 ∷ neg 36 ∷ neg 16 ∷ [])
    ∷ (pos 0 ∷ pos 4 ∷ neg 2 ∷ neg 8 ∷ pos 12 ∷ [])
    ∷ (pos 6 ∷ neg 1 ∷ pos 34 ∷ neg 46 ∷ neg 22 ∷ [])
    ∷ (pos 9 ∷ pos 9 ∷ pos 21 ∷ pos 9 ∷ pos 5 ∷ [])
    ∷ (neg 66 ∷ neg 5 ∷ pos 26 ∷ pos 2 ∷ pos 10 ∷ [])
    ∷ (pos 13 ∷ pos 2 ∷ pos 19 ∷ pos 9 ∷ pos 12 ∷ [])
    ∷ (neg 81 ∷ pos 3 ∷ pos 13 ∷ pos 13 ∷ pos 0 ∷ [])
    ∷ (neg 14 ∷ pos 22 ∷ neg 35 ∷ pos 6 ∷ neg 7 ∷ [])
    ∷ (neg 4 ∷ pos 6 ∷ neg 6 ∷ pos 10 ∷ neg 6 ∷ [])
    ∷ (neg 31 ∷ pos 38 ∷ neg 33 ∷ pos 0 ∷ neg 10 ∷ [])
    ∷ (neg 11 ∷ pos 5 ∷ neg 12 ∷ pos 12 ∷ neg 17 ∷ [])
    ∷ (pos 5 ∷ pos 0 ∷ neg 6 ∷ pos 13 ∷ neg 9 ∷ [])
    ∷ (pos 10 ∷ pos 8 ∷ pos 25 ∷ pos 33 ∷ pos 2 ∷ [])
    ∷ (neg 12 ∷ pos 8 ∷ neg 6 ∷ pos 10 ∷ neg 2 ∷ [])
    ∷ (pos 21 ∷ pos 7 ∷ pos 17 ∷ pos 43 ∷ pos 5 ∷ [])
    ∷ (pos 11 ∷ neg 7 ∷ neg 9 ∷ neg 20 ∷ neg 36 ∷ [])
    ∷ (neg 20 ∷ neg 23 ∷ neg 4 ∷ neg 4 ∷ neg 3 ∷ [])
    ∷ (pos 27 ∷ neg 9 ∷ neg 9 ∷ neg 49 ∷ neg 39 ∷ [])
    ∷ (neg 38 ∷ neg 11 ∷ neg 9 ∷ pos 6 ∷ pos 5 ∷ [])
    ∷ (pos 23 ∷ pos 25 ∷ pos 5 ∷ pos 3 ∷ pos 3 ∷ [])
    ∷ (pos 4 ∷ pos 1 ∷ pos 2 ∷ neg 3 ∷ neg 1 ∷ [])
    ∷ (pos 87 ∷ pos 39 ∷ pos 17 ∷ neg 21 ∷ neg 9 ∷ [])
    ∷ (neg 19 ∷ neg 9 ∷ neg 15 ∷ neg 13 ∷ neg 14 ∷ [])
    ∷ (neg 17 ∷ neg 11 ∷ neg 10 ∷ neg 11 ∷ neg 8 ∷ [])
    ∷ (neg 6 ∷ neg 1 ∷ neg 3 ∷ neg 3 ∷ neg 1 ∷ [])
    ∷ (neg 54 ∷ neg 34 ∷ neg 27 ∷ neg 8 ∷ neg 11 ∷ [])
    ∷ (neg 4 ∷ neg 5 ∷ pos 0 ∷ pos 0 ∷ pos 4 ∷ [])
    ∷ (pos 8 ∷ pos 6 ∷ pos 9 ∷ pos 7 ∷ pos 9 ∷ [])
    ∷ (pos 7 ∷ pos 6 ∷ pos 5 ∷ pos 5 ∷ pos 5 ∷ [])
    ∷ (pos 48 ∷ pos 10 ∷ pos 19 ∷ neg 10 ∷ pos 12 ∷ [])
    ∷ (neg 1 ∷ pos 9 ∷ neg 3 ∷ pos 2 ∷ pos 5 ∷ [])
    ∷ (neg 3 ∷ pos 2 ∷ neg 2 ∷ neg 2 ∷ pos 0 ∷ [])
    ∷ (neg 2 ∷ neg 26 ∷ pos 6 ∷ pos 9 ∷ neg 7 ∷ [])
    ∷ (neg 16 ∷ neg 9 ∷ pos 2 ∷ pos 7 ∷ pos 7 ∷ [])
    ∷ (neg 5 ∷ neg 43 ∷ pos 11 ∷ pos 22 ∷ neg 11 ∷ [])
    ∷ (neg 9 ∷ pos 34 ∷ pos 37 ∷ neg 15 ∷ neg 13 ∷ [])
    ∷ (neg 6 ∷ pos 1 ∷ neg 1 ∷ pos 1 ∷ pos 1 ∷ [])
    ∷ (neg 64 ∷ pos 56 ∷ pos 52 ∷ neg 11 ∷ neg 27 ∷ [])
    ∷ (pos 5 ∷ pos 4 ∷ pos 3 ∷ pos 1 ∷ pos 2 ∷ [])
    ∷ (pos 1 ∷ pos 3 ∷ neg 1 ∷ neg 4 ∷ neg 4 ∷ [])
    ∷ (neg 10 ∷ neg 7 ∷ neg 4 ∷ neg 4 ∷ pos 2 ∷ [])
    ∷ (neg 1 ∷ neg 7 ∷ neg 7 ∷ neg 12 ∷ neg 10 ∷ [])
    ∷ (neg 15 ∷ neg 9 ∷ neg 5 ∷ neg 5 ∷ neg 11 ∷ [])
    ∷ (neg 16 ∷ neg 13 ∷ pos 6 ∷ pos 16 ∷ pos 4 ∷ [])
    ∷ (neg 13 ∷ neg 16 ∷ neg 10 ∷ neg 4 ∷ pos 2 ∷ [])
    ∷ (neg 47 ∷ neg 13 ∷ pos 25 ∷ pos 47 ∷ pos 19 ∷ [])
    ∷ (neg 14 ∷ neg 20 ∷ neg 8 ∷ neg 17 ∷ pos 0 ∷ [])
    ∷ (neg 3 ∷ neg 13 ∷ pos 1 ∷ pos 6 ∷ neg 17 ∷ [])
    ∷ (neg 14 ∷ pos 15 ∷ pos 1 ∷ pos 10 ∷ pos 6 ∷ [])
    ∷ (neg 24 ∷ pos 0 ∷ neg 10 ∷ pos 19 ∷ neg 69 ∷ [])
    ∷ (neg 8 ∷ pos 14 ∷ pos 49 ∷ pos 17 ∷ neg 5 ∷ [])
    ∷ (pos 33 ∷ neg 29 ∷ pos 3 ∷ neg 4 ∷ pos 0 ∷ [])
    ∷ (pos 2 ∷ neg 8 ∷ pos 5 ∷ neg 6 ∷ pos 2 ∷ [])
    ∷ (pos 120 ∷ neg 56 ∷ neg 12 ∷ neg 47 ∷ pos 23 ∷ [])
    ∷ (neg 9 ∷ pos 6 ∷ neg 5 ∷ pos 1 ∷ pos 2 ∷ [])
    ∷ (neg 5 ∷ pos 1 ∷ neg 10 ∷ pos 4 ∷ neg 1 ∷ [])
    ∷ (neg 1 ∷ pos 4 ∷ neg 1 ∷ pos 0 ∷ neg 3 ∷ [])
    ∷ (pos 30 ∷ neg 52 ∷ neg 67 ∷ pos 30 ∷ pos 22 ∷ [])
    ∷ (pos 11 ∷ neg 1 ∷ neg 4 ∷ pos 3 ∷ pos 0 ∷ [])
    ∷ (pos 7 ∷ pos 2 ∷ pos 0 ∷ pos 1 ∷ neg 10 ∷ [])
    ∷ (neg 4 ∷ neg 8 ∷ neg 13 ∷ pos 5 ∷ pos 1 ∷ [])
    ∷ (pos 1 ∷ neg 1 ∷ pos 5 ∷ pos 13 ∷ neg 9 ∷ [])
    ∷ (neg 3 ∷ neg 10 ∷ neg 62 ∷ pos 22 ∷ pos 48 ∷ [])
    ∷ (neg 4 ∷ neg 6 ∷ pos 2 ∷ pos 3 ∷ pos 5 ∷ [])
    ∷ (pos 1 ∷ pos 1 ∷ pos 4 ∷ pos 1 ∷ pos 13 ∷ [])
    ∷ (pos 3 ∷ neg 20 ∷ pos 10 ∷ neg 9 ∷ pos 13 ∷ [])
    ∷ (neg 2 ∷ neg 4 ∷ pos 9 ∷ neg 20 ∷ pos 44 ∷ [])
    ∷ (neg 1 ∷ pos 20 ∷ neg 32 ∷ neg 67 ∷ pos 19 ∷ [])
    ∷ (pos 0 ∷ pos 28 ∷ pos 11 ∷ pos 8 ∷ pos 2 ∷ [])
    ∷ (neg 11 ∷ pos 15 ∷ neg 19 ∷ neg 53 ∷ pos 31 ∷ [])
    ∷ (pos 2 ∷ pos 34 ∷ pos 10 ∷ pos 6 ∷ neg 4 ∷ [])
    ∷ (neg 58 ∷ pos 8 ∷ pos 10 ∷ pos 13 ∷ pos 14 ∷ [])
    ∷ (pos 1 ∷ pos 12 ∷ pos 2 ∷ pos 0 ∷ pos 0 ∷ [])
    ∷ (neg 128 ∷ pos 37 ∷ neg 8 ∷ pos 44 ∷ neg 9 ∷ [])
    ∷ (pos 26 ∷ neg 3 ∷ pos 18 ∷ pos 2 ∷ pos 6 ∷ [])
    ∷ (pos 11 ∷ neg 1 ∷ pos 9 ∷ pos 1 ∷ pos 5 ∷ [])
    ∷ (pos 3 ∷ pos 0 ∷ pos 1 ∷ pos 1 ∷ pos 2 ∷ [])
    ∷ (pos 12 ∷ pos 3 ∷ neg 2 ∷ neg 3 ∷ pos 7 ∷ [])
    ∷ (pos 25 ∷ pos 9 ∷ pos 18 ∷ neg 6 ∷ neg 37 ∷ [])
    ∷ (pos 3 ∷ neg 8 ∷ neg 16 ∷ pos 3 ∷ neg 10 ∷ [])
    ∷ (neg 7 ∷ pos 17 ∷ neg 34 ∷ neg 44 ∷ pos 11 ∷ [])
    ∷ (pos 17 ∷ neg 15 ∷ neg 3 ∷ neg 16 ∷ neg 1 ∷ [])
    ∷ (neg 13 ∷ pos 11 ∷ neg 46 ∷ neg 65 ∷ neg 2 ∷ [])
    ∷ (pos 8 ∷ pos 13 ∷ pos 2 ∷ pos 4 ∷ pos 4 ∷ [])
    ∷ (pos 5 ∷ pos 15 ∷ pos 5 ∷ pos 9 ∷ pos 6 ∷ [])
    ∷ (pos 0 ∷ pos 0 ∷ pos 0 ∷ pos 0 ∷ pos 0 ∷ [])
    ∷ (pos 0 ∷ pos 0 ∷ pos 0 ∷ pos 0 ∷ pos 0 ∷ [])
    ∷ (pos 0 ∷ pos 0 ∷ pos 0 ∷ pos 0 ∷ pos 0 ∷ [])
    ∷ (pos 0 ∷ pos 0 ∷ pos 0 ∷ pos 0 ∷ pos 0 ∷ [])
    ∷ (neg 9 ∷ pos 19 ∷ neg 12 ∷ pos 12 ∷ neg 28 ∷ [])
    ∷ (pos 38 ∷ pos 29 ∷ neg 1 ∷ pos 12 ∷ pos 2 ∷ [])
    ∷ (pos 5 ∷ pos 23 ∷ neg 10 ∷ pos 3 ∷ pos 4 ∷ [])
    ∷ (neg 15 ∷ pos 21 ∷ neg 4 ∷ pos 3 ∷ pos 3 ∷ [])
    ∷ (pos 6 ∷ pos 17 ∷ neg 9 ∷ neg 4 ∷ neg 8 ∷ [])
    ∷ (neg 20 ∷ pos 26 ∷ pos 5 ∷ neg 10 ∷ pos 6 ∷ [])
    ∷ (pos 1 ∷ neg 19 ∷ pos 18 ∷ neg 15 ∷ neg 12 ∷ [])
    ∷ (pos 47 ∷ neg 6 ∷ neg 2 ∷ neg 7 ∷ neg 9 ∷ [])
    ∷ (neg 1 ∷ neg 17 ∷ neg 2 ∷ neg 2 ∷ neg 14 ∷ [])
    ∷ (pos 30 ∷ neg 14 ∷ pos 2 ∷ neg 7 ∷ neg 4 ∷ [])
    ∷ (neg 1 ∷ neg 12 ∷ pos 11 ∷ neg 25 ∷ pos 16 ∷ [])
    ∷ (neg 3 ∷ neg 12 ∷ pos 11 ∷ neg 7 ∷ pos 7 ∷ [])
    ∷ (neg 17 ∷ pos 1 ∷ pos 19 ∷ neg 28 ∷ pos 31 ∷ [])
    ∷ (neg 7 ∷ neg 10 ∷ pos 7 ∷ neg 10 ∷ pos 3 ∷ [])
    ∷ (pos 12 ∷ pos 5 ∷ neg 16 ∷ pos 6 ∷ pos 24 ∷ [])
    ∷ (pos 41 ∷ neg 29 ∷ neg 54 ∷ pos 0 ∷ pos 1 ∷ [])
    ∷ (pos 7 ∷ neg 1 ∷ pos 5 ∷ neg 6 ∷ pos 13 ∷ [])
    ∷ (pos 10 ∷ neg 4 ∷ neg 8 ∷ pos 8 ∷ neg 9 ∷ [])
    ∷ (neg 27 ∷ neg 53 ∷ neg 38 ∷ neg 1 ∷ pos 10 ∷ [])
    ∷ (pos 19 ∷ pos 17 ∷ pos 16 ∷ pos 12 ∷ pos 12 ∷ [])
    ∷ (pos 0 ∷ pos 3 ∷ neg 7 ∷ neg 4 ∷ pos 13 ∷ [])
    ∷ (pos 12 ∷ neg 31 ∷ neg 14 ∷ pos 6 ∷ neg 5 ∷ [])
    ∷ (pos 3 ∷ pos 5 ∷ pos 17 ∷ pos 43 ∷ pos 50 ∷ [])
    ∷ (pos 25 ∷ pos 10 ∷ pos 1 ∷ neg 6 ∷ neg 2 ∷ [])
    ∷ [])
