-- ===== src/Codebook/Exc5Small.antt =====
-- libspeex/exc_5_64_table.c: signed characters, in the order of the source.
use speex.Common.{List, [], ◌∷◌, ℤ, pos, neg, join}

unfoldable pub exc_5_64_table : List ℤ
exc_5_64_table = join (
    (pos 1 ∷ pos 5 ∷ neg 15 ∷ pos 49 ∷ neg 66 ∷ [])
    ∷ (neg 48 ∷ neg 4 ∷ pos 50 ∷ neg 44 ∷ pos 7 ∷ [])
    ∷ (pos 37 ∷ pos 16 ∷ neg 18 ∷ pos 25 ∷ neg 26 ∷ [])
    ∷ (neg 26 ∷ neg 15 ∷ pos 19 ∷ pos 19 ∷ neg 27 ∷ [])
    ∷ (neg 47 ∷ pos 28 ∷ pos 57 ∷ pos 5 ∷ neg 17 ∷ [])
    ∷ (neg 32 ∷ neg 41 ∷ pos 68 ∷ pos 21 ∷ neg 2 ∷ [])
    ∷ (pos 64 ∷ pos 56 ∷ pos 8 ∷ neg 16 ∷ neg 13 ∷ [])
    ∷ (neg 26 ∷ neg 9 ∷ neg 16 ∷ pos 11 ∷ pos 6 ∷ [])
    ∷ (neg 39 ∷ pos 25 ∷ neg 19 ∷ pos 22 ∷ neg 31 ∷ [])
    ∷ (pos 20 ∷ neg 45 ∷ pos 55 ∷ neg 43 ∷ pos 10 ∷ [])
    ∷ (neg 16 ∷ pos 47 ∷ neg 40 ∷ pos 40 ∷ neg 20 ∷ [])
    ∷ (neg 51 ∷ pos 3 ∷ neg 17 ∷ neg 14 ∷ neg 15 ∷ [])
    ∷ (neg 24 ∷ pos 53 ∷ neg 20 ∷ neg 46 ∷ pos 46 ∷ [])
    ∷ (pos 27 ∷ neg 68 ∷ pos 32 ∷ pos 3 ∷ neg 18 ∷ [])
    ∷ (neg 5 ∷ pos 9 ∷ neg 31 ∷ pos 16 ∷ neg 9 ∷ [])
    ∷ (neg 10 ∷ neg 1 ∷ neg 23 ∷ pos 48 ∷ pos 95 ∷ [])
    ∷ (pos 47 ∷ pos 25 ∷ neg 41 ∷ neg 32 ∷ neg 3 ∷ [])
    ∷ (pos 15 ∷ neg 25 ∷ neg 55 ∷ pos 36 ∷ pos 41 ∷ [])
    ∷ (neg 27 ∷ pos 20 ∷ pos 5 ∷ pos 13 ∷ pos 14 ∷ [])
    ∷ (neg 22 ∷ pos 5 ∷ pos 2 ∷ neg 23 ∷ pos 18 ∷ [])
    ∷ (pos 46 ∷ neg 15 ∷ pos 17 ∷ neg 18 ∷ neg 34 ∷ [])
    ∷ (neg 5 ∷ neg 8 ∷ pos 27 ∷ neg 55 ∷ pos 73 ∷ [])
    ∷ (pos 16 ∷ pos 2 ∷ neg 1 ∷ neg 17 ∷ pos 40 ∷ [])
    ∷ (neg 78 ∷ pos 33 ∷ pos 0 ∷ pos 2 ∷ pos 19 ∷ [])
    ∷ (pos 4 ∷ pos 53 ∷ neg 16 ∷ neg 15 ∷ neg 16 ∷ [])
    ∷ (neg 28 ∷ neg 3 ∷ neg 13 ∷ pos 49 ∷ pos 8 ∷ [])
    ∷ (neg 7 ∷ neg 29 ∷ pos 27 ∷ neg 13 ∷ pos 32 ∷ [])
    ∷ (pos 20 ∷ pos 32 ∷ neg 61 ∷ pos 16 ∷ pos 14 ∷ [])
    ∷ (pos 41 ∷ pos 44 ∷ pos 40 ∷ pos 24 ∷ pos 20 ∷ [])
    ∷ (pos 7 ∷ pos 4 ∷ pos 48 ∷ neg 60 ∷ neg 77 ∷ [])
    ∷ (pos 17 ∷ neg 6 ∷ neg 48 ∷ pos 65 ∷ neg 15 ∷ [])
    ∷ (pos 32 ∷ neg 30 ∷ neg 71 ∷ neg 10 ∷ neg 3 ∷ [])
    ∷ (neg 6 ∷ pos 10 ∷ neg 2 ∷ neg 7 ∷ neg 29 ∷ [])
    ∷ (neg 56 ∷ pos 67 ∷ neg 30 ∷ pos 7 ∷ neg 5 ∷ [])
    ∷ (pos 86 ∷ neg 6 ∷ neg 10 ∷ pos 0 ∷ pos 5 ∷ [])
    ∷ (neg 31 ∷ pos 60 ∷ pos 34 ∷ neg 38 ∷ neg 3 ∷ [])
    ∷ (pos 24 ∷ pos 10 ∷ neg 2 ∷ pos 30 ∷ pos 23 ∷ [])
    ∷ (pos 24 ∷ neg 41 ∷ pos 12 ∷ pos 70 ∷ neg 43 ∷ [])
    ∷ (pos 15 ∷ neg 17 ∷ pos 6 ∷ pos 13 ∷ pos 16 ∷ [])
    ∷ (neg 13 ∷ pos 8 ∷ pos 30 ∷ neg 15 ∷ neg 8 ∷ [])
    ∷ (pos 5 ∷ pos 23 ∷ neg 34 ∷ neg 98 ∷ neg 4 ∷ [])
    ∷ (neg 13 ∷ pos 13 ∷ neg 48 ∷ neg 31 ∷ pos 70 ∷ [])
    ∷ (pos 12 ∷ pos 31 ∷ pos 25 ∷ pos 24 ∷ neg 24 ∷ [])
    ∷ (pos 26 ∷ neg 7 ∷ pos 33 ∷ neg 16 ∷ pos 8 ∷ [])
    ∷ (pos 5 ∷ neg 11 ∷ neg 14 ∷ neg 8 ∷ neg 65 ∷ [])
    ∷ (pos 13 ∷ pos 10 ∷ neg 2 ∷ neg 9 ∷ pos 0 ∷ [])
    ∷ (neg 3 ∷ neg 68 ∷ pos 5 ∷ pos 35 ∷ pos 7 ∷ [])
    ∷ (pos 0 ∷ neg 31 ∷ neg 1 ∷ neg 17 ∷ neg 9 ∷ [])
    ∷ (neg 9 ∷ pos 16 ∷ neg 37 ∷ neg 18 ∷ neg 1 ∷ [])
    ∷ (pos 69 ∷ neg 48 ∷ neg 28 ∷ pos 22 ∷ neg 21 ∷ [])
    ∷ (neg 11 ∷ pos 5 ∷ pos 49 ∷ pos 55 ∷ pos 23 ∷ [])
    ∷ (neg 86 ∷ neg 36 ∷ pos 16 ∷ pos 2 ∷ pos 13 ∷ [])
    ∷ (pos 63 ∷ neg 51 ∷ pos 30 ∷ neg 11 ∷ pos 13 ∷ [])
    ∷ (pos 24 ∷ neg 18 ∷ neg 6 ∷ pos 14 ∷ neg 19 ∷ [])
    ∷ (pos 1 ∷ pos 41 ∷ pos 9 ∷ neg 5 ∷ pos 27 ∷ [])
    ∷ (neg 36 ∷ neg 44 ∷ neg 34 ∷ neg 37 ∷ neg 21 ∷ [])
    ∷ (neg 26 ∷ pos 31 ∷ neg 39 ∷ pos 15 ∷ pos 43 ∷ [])
    ∷ (pos 5 ∷ neg 8 ∷ pos 29 ∷ pos 20 ∷ neg 8 ∷ [])
    ∷ (neg 20 ∷ neg 52 ∷ neg 28 ∷ neg 1 ∷ pos 13 ∷ [])
    ∷ (pos 26 ∷ neg 34 ∷ neg 10 ∷ neg 9 ∷ pos 27 ∷ [])
    ∷ (neg 8 ∷ pos 8 ∷ pos 27 ∷ neg 66 ∷ pos 4 ∷ [])
    ∷ (pos 12 ∷ neg 22 ∷ pos 49 ∷ pos 10 ∷ neg 77 ∷ [])
    ∷ (pos 32 ∷ neg 18 ∷ pos 3 ∷ neg 38 ∷ pos 12 ∷ [])
    ∷ (neg 3 ∷ neg 1 ∷ pos 2 ∷ pos 2 ∷ pos 0 ∷ [])
    ∷ [])
