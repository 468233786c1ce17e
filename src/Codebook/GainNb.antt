-- ===== src/Codebook/GainNb.antt =====
-- libspeex/gain_table.c: signed characters, in the order of the source.
use speex.Common.{List, [], ◌∷◌, ℤ, pos, neg, join}

unfoldable pub gain_cdbk_nb : List ℤ
gain_cdbk_nb = join (
    (neg 32 ∷ neg 32 ∷ neg 32 ∷ pos 0 ∷ neg 28 ∷ neg 67 ∷ neg 5 ∷ pos 33 ∷ [])
    ∷ (neg 42 ∷ neg 6 ∷ neg 32 ∷ pos 18 ∷ neg 57 ∷ neg 10 ∷ neg 54 ∷ pos 35 ∷ [])
    ∷ (neg 16 ∷ pos 27 ∷ neg 41 ∷ pos 42 ∷ pos 19 ∷ neg 19 ∷ neg 40 ∷ pos 36 ∷ [])
    ∷ (neg 45 ∷ pos 24 ∷ neg 21 ∷ pos 40 ∷ neg 8 ∷ neg 14 ∷ neg 18 ∷ pos 28 ∷ [])
    ∷ (pos 1 ∷ pos 14 ∷ neg 58 ∷ pos 53 ∷ neg 18 ∷ neg 88 ∷ neg 39 ∷ pos 39 ∷ [])
    ∷ (neg 38 ∷ pos 21 ∷ neg 18 ∷ pos 37 ∷ neg 19 ∷ pos 20 ∷ neg 43 ∷ pos 38 ∷ [])
    ∷ (pos 10 ∷ pos 17 ∷ neg 48 ∷ pos 54 ∷ neg 52 ∷ neg 58 ∷ neg 13 ∷ pos 33 ∷ [])
    ∷ (neg 44 ∷ neg 1 ∷ neg 11 ∷ pos 32 ∷ neg 12 ∷ neg 11 ∷ neg 34 ∷ pos 22 ∷ [])
    ∷ (pos 14 ∷ pos 0 ∷ neg 46 ∷ pos 46 ∷ neg 37 ∷ neg 35 ∷ neg 34 ∷ pos 5 ∷ [])
    ∷ (neg 25 ∷ pos 44 ∷ neg 30 ∷ pos 43 ∷ pos 6 ∷ neg 4 ∷ neg 63 ∷ pos 49 ∷ [])
    ∷ (neg 31 ∷ pos 43 ∷ neg 41 ∷ pos 43 ∷ neg 23 ∷ pos 30 ∷ neg 43 ∷ pos 41 ∷ [])
    ∷ (neg 43 ∷ pos 26 ∷ neg 14 ∷ pos 44 ∷ neg 33 ∷ pos 1 ∷ neg 13 ∷ pos 27 ∷ [])
    ∷ (neg 13 ∷ pos 18 ∷ neg 37 ∷ pos 37 ∷ neg 46 ∷ neg 73 ∷ neg 45 ∷ pos 34 ∷ [])
    ∷ (neg 36 ∷ pos 24 ∷ neg 25 ∷ pos 34 ∷ neg 36 ∷ neg 11 ∷ neg 20 ∷ pos 19 ∷ [])
    ∷ (neg 25 ∷ pos 12 ∷ neg 18 ∷ pos 33 ∷ neg 36 ∷ neg 69 ∷ neg 59 ∷ pos 34 ∷ [])
    ∷ (neg 45 ∷ pos 6 ∷ pos 8 ∷ pos 46 ∷ neg 22 ∷ neg 14 ∷ neg 24 ∷ pos 18 ∷ [])
    ∷ (neg 1 ∷ pos 13 ∷ neg 44 ∷ pos 44 ∷ neg 39 ∷ neg 48 ∷ neg 26 ∷ pos 15 ∷ [])
    ∷ (neg 32 ∷ pos 31 ∷ neg 37 ∷ pos 34 ∷ neg 33 ∷ pos 15 ∷ neg 46 ∷ pos 31 ∷ [])
    ∷ (neg 24 ∷ pos 30 ∷ neg 36 ∷ pos 37 ∷ neg 41 ∷ pos 31 ∷ neg 23 ∷ pos 41 ∷ [])
    ∷ (neg 50 ∷ pos 22 ∷ neg 4 ∷ pos 50 ∷ neg 22 ∷ pos 2 ∷ neg 21 ∷ pos 28 ∷ [])
    ∷ (neg 17 ∷ pos 30 ∷ neg 34 ∷ pos 40 ∷ neg 7 ∷ neg 60 ∷ neg 28 ∷ pos 29 ∷ [])
    ∷ (neg 38 ∷ pos 42 ∷ neg 28 ∷ pos 42 ∷ neg 44 ∷ neg 11 ∷ pos 21 ∷ pos 43 ∷ [])
    ∷ (neg 16 ∷ pos 8 ∷ neg 44 ∷ pos 34 ∷ neg 39 ∷ neg 55 ∷ neg 43 ∷ pos 21 ∷ [])
    ∷ (neg 11 ∷ neg 35 ∷ pos 26 ∷ pos 41 ∷ neg 9 ∷ pos 0 ∷ neg 34 ∷ pos 29 ∷ [])
    ∷ (neg 8 ∷ pos 121 ∷ neg 81 ∷ pos 113 ∷ pos 7 ∷ neg 16 ∷ neg 22 ∷ pos 33 ∷ [])
    ∷ (neg 37 ∷ pos 33 ∷ neg 31 ∷ pos 36 ∷ neg 27 ∷ neg 7 ∷ neg 36 ∷ pos 17 ∷ [])
    ∷ (neg 34 ∷ pos 70 ∷ neg 57 ∷ pos 65 ∷ neg 37 ∷ neg 11 ∷ neg 48 ∷ pos 21 ∷ [])
    ∷ (neg 40 ∷ pos 17 ∷ neg 1 ∷ pos 44 ∷ neg 33 ∷ pos 6 ∷ neg 6 ∷ pos 33 ∷ [])
    ∷ (neg 9 ∷ pos 0 ∷ neg 20 ∷ pos 34 ∷ neg 21 ∷ pos 69 ∷ neg 33 ∷ pos 57 ∷ [])
    ∷ (neg 29 ∷ pos 33 ∷ neg 31 ∷ pos 35 ∷ neg 55 ∷ pos 12 ∷ neg 1 ∷ pos 49 ∷ [])
    ∷ (neg 33 ∷ pos 27 ∷ neg 22 ∷ pos 35 ∷ neg 50 ∷ neg 33 ∷ neg 47 ∷ pos 17 ∷ [])
    ∷ (neg 50 ∷ pos 54 ∷ pos 51 ∷ pos 94 ∷ neg 1 ∷ neg 5 ∷ neg 44 ∷ pos 35 ∷ [])
    ∷ (neg 4 ∷ pos 22 ∷ neg 40 ∷ pos 45 ∷ neg 39 ∷ neg 66 ∷ neg 25 ∷ pos 24 ∷ [])
    ∷ (neg 33 ∷ pos 1 ∷ neg 26 ∷ pos 20 ∷ neg 24 ∷ neg 23 ∷ neg 25 ∷ pos 12 ∷ [])
    ∷ (neg 11 ∷ pos 21 ∷ neg 45 ∷ pos 44 ∷ neg 25 ∷ neg 45 ∷ neg 19 ∷ pos 17 ∷ [])
    ∷ (neg 43 ∷ pos 105 ∷ neg 16 ∷ pos 82 ∷ pos 5 ∷ neg 21 ∷ pos 1 ∷ pos 41 ∷ [])
    ∷ (neg 16 ∷ pos 11 ∷ neg 33 ∷ pos 30 ∷ neg 13 ∷ neg 99 ∷ neg 4 ∷ pos 57 ∷ [])
    ∷ (neg 37 ∷ pos 33 ∷ neg 15 ∷ pos 44 ∷ neg 25 ∷ pos 37 ∷ neg 63 ∷ pos 54 ∷ [])
    ∷ (neg 36 ∷ pos 24 ∷ neg 31 ∷ pos 31 ∷ neg 53 ∷ neg 56 ∷ neg 38 ∷ pos 26 ∷ [])
    ∷ (neg 41 ∷ neg 4 ∷ pos 4 ∷ pos 37 ∷ neg 33 ∷ pos 13 ∷ neg 30 ∷ pos 24 ∷ [])
    ∷ (pos 49 ∷ pos 52 ∷ neg 94 ∷ pos 114 ∷ neg 5 ∷ neg 30 ∷ neg 15 ∷ pos 23 ∷ [])
    ∷ (pos 1 ∷ pos 38 ∷ neg 40 ∷ pos 56 ∷ neg 23 ∷ pos 12 ∷ neg 36 ∷ pos 29 ∷ [])
    ∷ (neg 17 ∷ pos 40 ∷ neg 47 ∷ pos 51 ∷ neg 37 ∷ neg 41 ∷ neg 39 ∷ pos 11 ∷ [])
    ∷ (neg 49 ∷ pos 34 ∷ pos 0 ∷ pos 58 ∷ neg 18 ∷ neg 7 ∷ neg 4 ∷ pos 34 ∷ [])
    ∷ (neg 16 ∷ pos 17 ∷ neg 27 ∷ pos 35 ∷ pos 30 ∷ pos 5 ∷ neg 62 ∷ pos 65 ∷ [])
    ∷ (pos 4 ∷ pos 48 ∷ neg 68 ∷ pos 76 ∷ neg 43 ∷ pos 11 ∷ neg 11 ∷ pos 38 ∷ [])
    ∷ (neg 18 ∷ pos 19 ∷ neg 15 ∷ pos 41 ∷ neg 23 ∷ neg 62 ∷ neg 39 ∷ pos 23 ∷ [])
    ∷ (neg 42 ∷ pos 10 ∷ neg 2 ∷ pos 41 ∷ neg 21 ∷ neg 13 ∷ neg 13 ∷ pos 25 ∷ [])
    ∷ (neg 9 ∷ pos 13 ∷ neg 47 ∷ pos 42 ∷ neg 23 ∷ neg 62 ∷ neg 24 ∷ pos 24 ∷ [])
    ∷ (neg 44 ∷ pos 60 ∷ neg 21 ∷ pos 58 ∷ neg 18 ∷ neg 3 ∷ neg 52 ∷ pos 32 ∷ [])
    ∷ (neg 22 ∷ pos 22 ∷ neg 36 ∷ pos 34 ∷ neg 75 ∷ pos 57 ∷ pos 16 ∷ pos 90 ∷ [])
    ∷ (neg 19 ∷ pos 3 ∷ pos 10 ∷ pos 45 ∷ neg 29 ∷ pos 23 ∷ neg 38 ∷ pos 32 ∷ [])
    ∷ (neg 5 ∷ neg 62 ∷ neg 51 ∷ pos 38 ∷ neg 51 ∷ pos 40 ∷ neg 18 ∷ pos 53 ∷ [])
    ∷ (neg 42 ∷ pos 13 ∷ neg 24 ∷ pos 32 ∷ neg 34 ∷ pos 14 ∷ neg 20 ∷ pos 30 ∷ [])
    ∷ (neg 56 ∷ neg 75 ∷ neg 26 ∷ pos 37 ∷ neg 26 ∷ pos 32 ∷ pos 15 ∷ pos 59 ∷ [])
    ∷ (neg 26 ∷ pos 17 ∷ neg 29 ∷ pos 29 ∷ neg 7 ∷ pos 28 ∷ neg 52 ∷ pos 53 ∷ [])
    ∷ (neg 12 ∷ neg 30 ∷ pos 5 ∷ pos 30 ∷ neg 5 ∷ neg 48 ∷ neg 5 ∷ pos 35 ∷ [])
    ∷ (pos 2 ∷ pos 2 ∷ neg 43 ∷ pos 40 ∷ pos 21 ∷ pos 16 ∷ pos 16 ∷ pos 75 ∷ [])
    ∷ (neg 25 ∷ neg 45 ∷ neg 32 ∷ pos 10 ∷ neg 43 ∷ pos 18 ∷ neg 10 ∷ pos 42 ∷ [])
    ∷ (pos 9 ∷ pos 0 ∷ neg 1 ∷ pos 52 ∷ neg 1 ∷ pos 7 ∷ neg 30 ∷ pos 36 ∷ [])
    ∷ (pos 19 ∷ neg 48 ∷ neg 4 ∷ pos 48 ∷ neg 28 ∷ pos 25 ∷ neg 29 ∷ pos 32 ∷ [])
    ∷ (neg 22 ∷ pos 0 ∷ neg 31 ∷ pos 22 ∷ neg 32 ∷ pos 17 ∷ neg 10 ∷ pos 36 ∷ [])
    ∷ (neg 64 ∷ neg 41 ∷ neg 62 ∷ pos 36 ∷ neg 52 ∷ pos 15 ∷ pos 16 ∷ pos 58 ∷ [])
    ∷ (neg 30 ∷ neg 22 ∷ neg 32 ∷ pos 6 ∷ neg 7 ∷ pos 9 ∷ neg 38 ∷ pos 36 ∷ [])
    ∷ [])
