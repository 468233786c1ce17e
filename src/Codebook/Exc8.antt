-- ===== src/Codebook/Exc8.antt =====
-- libspeex/exc_8_128_table.c: signed characters, in the order of the source.
use speex.Common.{List, [], ◌∷◌, ℤ, pos, neg, join}

unfoldable pub exc_8_128_table : List ℤ
exc_8_128_table = join (
    (neg 14 ∷ pos 9 ∷ pos 13 ∷ neg 32 ∷ pos 2 ∷ neg 10 ∷ pos 31 ∷ neg 10 ∷ [])
    ∷ (neg 8 ∷ neg 8 ∷ pos 6 ∷ neg 4 ∷ neg 1 ∷ pos 10 ∷ neg 64 ∷ pos 23 ∷ [])
    ∷ (pos 6 ∷ pos 20 ∷ pos 13 ∷ pos 6 ∷ pos 8 ∷ neg 22 ∷ pos 16 ∷ pos 34 ∷ [])
    ∷ (pos 7 ∷ pos 42 ∷ neg 49 ∷ neg 28 ∷ pos 5 ∷ pos 26 ∷ pos 4 ∷ neg 15 ∷ [])
    ∷ (pos 41 ∷ pos 34 ∷ pos 41 ∷ pos 32 ∷ pos 33 ∷ pos 24 ∷ pos 23 ∷ pos 14 ∷ [])
    ∷ (pos 8 ∷ pos 40 ∷ pos 34 ∷ pos 4 ∷ neg 24 ∷ neg 41 ∷ neg 19 ∷ neg 15 ∷ [])
    ∷ (pos 13 ∷ neg 13 ∷ pos 33 ∷ neg 54 ∷ pos 24 ∷ pos 27 ∷ neg 44 ∷ pos 33 ∷ [])
    ∷ (pos 27 ∷ neg 15 ∷ neg 15 ∷ pos 24 ∷ neg 19 ∷ pos 14 ∷ neg 36 ∷ pos 14 ∷ [])
    ∷ (neg 9 ∷ pos 24 ∷ neg 12 ∷ neg 4 ∷ pos 37 ∷ neg 5 ∷ pos 16 ∷ neg 34 ∷ [])
    ∷ (pos 5 ∷ pos 10 ∷ pos 33 ∷ neg 15 ∷ neg 54 ∷ neg 16 ∷ pos 12 ∷ pos 25 ∷ [])
    ∷ (pos 12 ∷ pos 1 ∷ pos 2 ∷ pos 0 ∷ pos 3 ∷ neg 1 ∷ neg 4 ∷ neg 4 ∷ [])
    ∷ (pos 11 ∷ pos 2 ∷ neg 56 ∷ pos 54 ∷ pos 27 ∷ neg 20 ∷ pos 13 ∷ neg 6 ∷ [])
    ∷ (neg 46 ∷ neg 41 ∷ neg 33 ∷ neg 11 ∷ neg 5 ∷ pos 7 ∷ pos 12 ∷ pos 14 ∷ [])
    ∷ (neg 14 ∷ neg 5 ∷ pos 8 ∷ pos 20 ∷ pos 6 ∷ pos 3 ∷ pos 4 ∷ neg 8 ∷ [])
    ∷ (neg 5 ∷ neg 42 ∷ pos 11 ∷ pos 8 ∷ neg 14 ∷ pos 25 ∷ neg 2 ∷ pos 2 ∷ [])
    ∷ (pos 13 ∷ pos 11 ∷ neg 22 ∷ pos 39 ∷ neg 9 ∷ pos 9 ∷ pos 5 ∷ neg 45 ∷ [])
    ∷ (neg 9 ∷ pos 7 ∷ neg 9 ∷ pos 12 ∷ neg 7 ∷ pos 34 ∷ neg 17 ∷ neg 102 ∷ [])
    ∷ (pos 7 ∷ pos 2 ∷ neg 42 ∷ pos 18 ∷ pos 35 ∷ neg 9 ∷ neg 34 ∷ pos 11 ∷ [])
    ∷ (neg 5 ∷ neg 2 ∷ pos 3 ∷ pos 22 ∷ pos 46 ∷ neg 52 ∷ neg 25 ∷ neg 9 ∷ [])
    ∷ (neg 94 ∷ pos 8 ∷ pos 11 ∷ neg 5 ∷ neg 5 ∷ neg 5 ∷ pos 4 ∷ neg 7 ∷ [])
    ∷ (neg 35 ∷ neg 7 ∷ pos 54 ∷ pos 5 ∷ neg 32 ∷ pos 3 ∷ pos 24 ∷ neg 9 ∷ [])
    ∷ (neg 22 ∷ pos 8 ∷ pos 65 ∷ pos 37 ∷ neg 1 ∷ neg 12 ∷ neg 23 ∷ neg 6 ∷ [])
    ∷ (neg 9 ∷ neg 28 ∷ pos 55 ∷ neg 33 ∷ pos 14 ∷ neg 3 ∷ pos 2 ∷ pos 18 ∷ [])
    ∷ (neg 60 ∷ pos 41 ∷ neg 17 ∷ pos 8 ∷ neg 16 ∷ pos 17 ∷ neg 11 ∷ pos 0 ∷ [])
    ∷ (neg 11 ∷ pos 29 ∷ neg 28 ∷ pos 37 ∷ pos 9 ∷ neg 53 ∷ pos 33 ∷ neg 14 ∷ [])
    ∷ (neg 9 ∷ pos 7 ∷ neg 25 ∷ neg 7 ∷ neg 11 ∷ pos 26 ∷ neg 32 ∷ neg 8 ∷ [])
    ∷ (pos 24 ∷ neg 21 ∷ pos 22 ∷ neg 19 ∷ pos 19 ∷ neg 10 ∷ pos 29 ∷ neg 14 ∷ [])
    ∷ (pos 0 ∷ pos 0 ∷ pos 0 ∷ pos 0 ∷ pos 0 ∷ pos 0 ∷ pos 0 ∷ pos 0 ∷ [])
    ∷ (neg 5 ∷ neg 52 ∷ pos 10 ∷ pos 41 ∷ pos 6 ∷ neg 30 ∷ neg 4 ∷ pos 16 ∷ [])
    ∷ (pos 32 ∷ pos 22 ∷ neg 27 ∷ neg 22 ∷ pos 32 ∷ neg 3 ∷ neg 28 ∷ neg 3 ∷ [])
    ∷ (pos 3 ∷ neg 35 ∷ pos 6 ∷ pos 17 ∷ pos 23 ∷ pos 21 ∷ pos 8 ∷ pos 2 ∷ [])
    ∷ (pos 4 ∷ neg 45 ∷ neg 17 ∷ pos 14 ∷ pos 23 ∷ neg 4 ∷ neg 31 ∷ neg 11 ∷ [])
    ∷ (neg 3 ∷ pos 14 ∷ pos 1 ∷ pos 19 ∷ neg 11 ∷ pos 2 ∷ pos 61 ∷ neg 8 ∷ [])
    ∷ (pos 9 ∷ neg 12 ∷ pos 7 ∷ neg 10 ∷ pos 12 ∷ neg 3 ∷ neg 24 ∷ pos 99 ∷ [])
    ∷ (neg 48 ∷ pos 23 ∷ pos 50 ∷ neg 37 ∷ neg 5 ∷ neg 23 ∷ pos 0 ∷ pos 8 ∷ [])
    ∷ (neg 14 ∷ pos 35 ∷ neg 64 ∷ neg 5 ∷ pos 46 ∷ neg 25 ∷ pos 13 ∷ neg 1 ∷ [])
    ∷ (neg 49 ∷ neg 19 ∷ neg 15 ∷ pos 9 ∷ pos 34 ∷ pos 50 ∷ pos 25 ∷ pos 11 ∷ [])
    ∷ (neg 6 ∷ neg 9 ∷ neg 16 ∷ neg 20 ∷ neg 32 ∷ neg 33 ∷ neg 32 ∷ neg 27 ∷ [])
    ∷ (pos 10 ∷ neg 8 ∷ pos 12 ∷ neg 15 ∷ pos 56 ∷ neg 14 ∷ neg 32 ∷ pos 33 ∷ [])
    ∷ (pos 3 ∷ neg 9 ∷ pos 1 ∷ pos 65 ∷ neg 9 ∷ neg 9 ∷ neg 10 ∷ neg 2 ∷ [])
    ∷ (neg 6 ∷ neg 23 ∷ pos 9 ∷ pos 17 ∷ pos 3 ∷ neg 28 ∷ pos 13 ∷ neg 32 ∷ [])
    ∷ (pos 4 ∷ neg 2 ∷ neg 10 ∷ pos 4 ∷ neg 16 ∷ pos 76 ∷ pos 12 ∷ neg 52 ∷ [])
    ∷ (pos 6 ∷ pos 13 ∷ pos 33 ∷ neg 6 ∷ pos 4 ∷ neg 14 ∷ neg 9 ∷ neg 3 ∷ [])
    ∷ (pos 1 ∷ neg 15 ∷ neg 16 ∷ pos 28 ∷ pos 1 ∷ neg 15 ∷ pos 11 ∷ pos 16 ∷ [])
    ∷ (pos 9 ∷ pos 4 ∷ neg 21 ∷ neg 37 ∷ neg 40 ∷ neg 6 ∷ pos 22 ∷ pos 12 ∷ [])
    ∷ (neg 15 ∷ neg 23 ∷ neg 14 ∷ neg 17 ∷ neg 16 ∷ neg 9 ∷ neg 10 ∷ neg 9 ∷ [])
    ∷ (pos 13 ∷ neg 39 ∷ pos 41 ∷ pos 5 ∷ neg 9 ∷ pos 16 ∷ neg 38 ∷ pos 25 ∷ [])
    ∷ (pos 46 ∷ neg 47 ∷ pos 4 ∷ pos 49 ∷ neg 14 ∷ pos 17 ∷ neg 2 ∷ pos 6 ∷ [])
    ∷ (pos 18 ∷ pos 5 ∷ neg 6 ∷ neg 33 ∷ neg 22 ∷ pos 44 ∷ pos 50 ∷ neg 2 ∷ [])
    ∷ (pos 1 ∷ pos 3 ∷ neg 6 ∷ pos 7 ∷ pos 7 ∷ neg 3 ∷ neg 21 ∷ pos 38 ∷ [])
    ∷ (neg 18 ∷ pos 34 ∷ neg 14 ∷ neg 41 ∷ pos 60 ∷ neg 13 ∷ pos 6 ∷ pos 16 ∷ [])
    ∷ (neg 24 ∷ pos 35 ∷ pos 19 ∷ neg 13 ∷ neg 36 ∷ pos 24 ∷ pos 3 ∷ neg 17 ∷ [])
    ∷ (neg 14 ∷ neg 10 ∷ pos 36 ∷ pos 44 ∷ neg 44 ∷ neg 29 ∷ neg 3 ∷ pos 3 ∷ [])
    ∷ (neg 54 ∷ neg 8 ∷ pos 12 ∷ pos 55 ∷ pos 26 ∷ pos 4 ∷ neg 2 ∷ neg 5 ∷ [])
    ∷ (pos 2 ∷ neg 11 ∷ pos 22 ∷ neg 23 ∷ pos 2 ∷ pos 22 ∷ pos 1 ∷ neg 25 ∷ [])
    ∷ (neg 39 ∷ pos 66 ∷ neg 49 ∷ pos 21 ∷ neg 8 ∷ neg 2 ∷ pos 10 ∷ neg 14 ∷ [])
    ∷ (neg 60 ∷ pos 25 ∷ pos 6 ∷ pos 10 ∷ pos 27 ∷ neg 25 ∷ pos 16 ∷ pos 5 ∷ [])
    ∷ (neg 2 ∷ neg 9 ∷ pos 26 ∷ neg 13 ∷ neg 20 ∷ pos 58 ∷ neg 2 ∷ pos 7 ∷ [])
    ∷ (pos 52 ∷ neg 9 ∷ pos 2 ∷ pos 5 ∷ neg 4 ∷ neg 15 ∷ pos 23 ∷ neg 1 ∷ [])
    ∷ (neg 38 ∷ pos 23 ∷ pos 8 ∷ pos 27 ∷ neg 6 ∷ pos 0 ∷ neg 27 ∷ neg 7 ∷ [])
    ∷ (pos 39 ∷ neg 10 ∷ neg 14 ∷ pos 26 ∷ pos 11 ∷ neg 45 ∷ neg 12 ∷ pos 9 ∷ [])
    ∷ (neg 5 ∷ pos 34 ∷ pos 4 ∷ neg 35 ∷ pos 10 ∷ pos 43 ∷ neg 22 ∷ neg 11 ∷ [])
    ∷ (pos 56 ∷ neg 7 ∷ pos 20 ∷ pos 1 ∷ pos 10 ∷ pos 1 ∷ neg 26 ∷ pos 9 ∷ [])
    ∷ (pos 94 ∷ pos 11 ∷ neg 27 ∷ neg 14 ∷ neg 13 ∷ pos 1 ∷ neg 11 ∷ pos 0 ∷ [])
    ∷ (pos 14 ∷ neg 5 ∷ neg 6 ∷ neg 10 ∷ neg 4 ∷ neg 15 ∷ neg 8 ∷ neg 41 ∷ [])
    ∷ (pos 21 ∷ neg 5 ∷ pos 1 ∷ neg 28 ∷ neg 8 ∷ pos 22 ∷ neg 9 ∷ pos 33 ∷ [])
    ∷ (neg 23 ∷ neg 4 ∷ neg 4 ∷ neg 12 ∷ pos 39 ∷ pos 4 ∷ neg 7 ∷ pos 3 ∷ [])
    ∷ (neg 60 ∷ pos 80 ∷ pos 8 ∷ neg 17 ∷ pos 2 ∷ neg 6 ∷ pos 12 ∷ neg 5 ∷ [])
    ∷ (pos 1 ∷ pos 9 ∷ pos 15 ∷ pos 27 ∷ pos 31 ∷ pos 30 ∷ pos 27 ∷ pos 23 ∷ [])
    ∷ (pos 61 ∷ pos 47 ∷ pos 26 ∷ pos 10 ∷ neg 5 ∷ neg 8 ∷ neg 12 ∷ neg 13 ∷ [])
    ∷ (pos 5 ∷ neg 18 ∷ pos 25 ∷ neg 15 ∷ neg 4 ∷ neg 15 ∷ neg 11 ∷ pos 12 ∷ [])
    ∷ (neg 2 ∷ neg 2 ∷ neg 16 ∷ neg 2 ∷ neg 6 ∷ pos 24 ∷ pos 12 ∷ pos 11 ∷ [])
    ∷ (neg 4 ∷ pos 9 ∷ pos 1 ∷ neg 9 ∷ pos 14 ∷ neg 45 ∷ pos 57 ∷ pos 12 ∷ [])
    ∷ (pos 20 ∷ neg 35 ∷ pos 26 ∷ pos 11 ∷ neg 64 ∷ pos 32 ∷ neg 10 ∷ neg 10 ∷ [])
    ∷ (pos 42 ∷ neg 4 ∷ neg 9 ∷ neg 16 ∷ pos 32 ∷ pos 24 ∷ pos 7 ∷ pos 10 ∷ [])
    ∷ (pos 52 ∷ neg 11 ∷ neg 57 ∷ pos 29 ∷ pos 0 ∷ pos 8 ∷ pos 0 ∷ neg 6 ∷ [])
    ∷ (pos 17 ∷ neg 17 ∷ neg 56 ∷ neg 40 ∷ pos 7 ∷ pos 20 ∷ pos 18 ∷ pos 12 ∷ [])
    ∷ (neg 6 ∷ pos 16 ∷ pos 5 ∷ pos 7 ∷ neg 1 ∷ pos 9 ∷ pos 1 ∷ pos 10 ∷ [])
    ∷ (pos 29 ∷ pos 12 ∷ pos 16 ∷ pos 13 ∷ neg 2 ∷ pos 23 ∷ pos 7 ∷ pos 9 ∷ [])
    ∷ (neg 3 ∷ neg 4 ∷ neg 5 ∷ pos 18 ∷ neg 64 ∷ pos 13 ∷ pos 55 ∷ neg 25 ∷ [])
    ∷ (pos 9 ∷ neg 9 ∷ pos 24 ∷ pos 14 ∷ neg 25 ∷ pos 15 ∷ neg 11 ∷ neg 40 ∷ [])
    ∷ (neg 30 ∷ pos 37 ∷ pos 1 ∷ neg 19 ∷ pos 22 ∷ neg 5 ∷ neg 31 ∷ pos 13 ∷ [])
    ∷ (neg 2 ∷ pos 0 ∷ pos 7 ∷ neg 4 ∷ pos 16 ∷ neg 67 ∷ pos 12 ∷ pos 66 ∷ [])
    ∷ (neg 36 ∷ pos 24 ∷ neg 8 ∷ pos 18 ∷ neg 15 ∷ neg 23 ∷ pos 19 ∷ pos 0 ∷ [])
    ∷ (neg 45 ∷ neg 7 ∷ pos 4 ∷ pos 3 ∷ neg 13 ∷ pos 13 ∷ pos 35 ∷ pos 5 ∷ [])
    ∷ (pos 13 ∷ pos 33 ∷ pos 10 ∷ pos 27 ∷ pos 23 ∷ pos 0 ∷ neg 7 ∷ neg 11 ∷ [])
    ∷ (pos 43 ∷ neg 74 ∷ pos 36 ∷ neg 12 ∷ pos 2 ∷ pos 5 ∷ neg 8 ∷ pos 6 ∷ [])
    ∷ (neg 33 ∷ pos 11 ∷ neg 16 ∷ neg 14 ∷ neg 5 ∷ neg 7 ∷ neg 3 ∷ pos 17 ∷ [])
    ∷ (neg 34 ∷ pos 27 ∷ neg 16 ∷ pos 11 ∷ neg 9 ∷ pos 15 ∷ pos 33 ∷ neg 31 ∷ [])
    ∷ (pos 8 ∷ neg 16 ∷ pos 7 ∷ neg 6 ∷ neg 7 ∷ pos 63 ∷ neg 55 ∷ neg 17 ∷ [])
    ∷ (pos 11 ∷ neg 1 ∷ pos 20 ∷ neg 46 ∷ pos 34 ∷ neg 30 ∷ pos 6 ∷ pos 9 ∷ [])
    ∷ (pos 19 ∷ pos 28 ∷ neg 9 ∷ pos 5 ∷ neg 24 ∷ neg 8 ∷ neg 23 ∷ neg 2 ∷ [])
    ∷ (pos 31 ∷ neg 19 ∷ neg 16 ∷ neg 5 ∷ neg 15 ∷ neg 18 ∷ pos 0 ∷ pos 26 ∷ [])
    ∷ (pos 18 ∷ pos 37 ∷ neg 5 ∷ neg 15 ∷ neg 2 ∷ pos 17 ∷ pos 5 ∷ neg 27 ∷ [])
    ∷ (pos 21 ∷ neg 33 ∷ pos 44 ∷ pos 12 ∷ neg 27 ∷ neg 9 ∷ pos 17 ∷ pos 11 ∷ [])
    ∷ (pos 25 ∷ neg 21 ∷ neg 31 ∷ neg 7 ∷ pos 13 ∷ pos 33 ∷ neg 8 ∷ neg 25 ∷ [])
    ∷ (neg 7 ∷ pos 7 ∷ neg 10 ∷ pos 4 ∷ neg 6 ∷ neg 9 ∷ pos 48 ∷ neg 82 ∷ [])
    ∷ (neg 23 ∷ neg 8 ∷ pos 6 ∷ pos 11 ∷ neg 23 ∷ pos 3 ∷ neg 3 ∷ pos 49 ∷ [])
    ∷ (neg 29 ∷ pos 25 ∷ pos 31 ∷ pos 4 ∷ pos 14 ∷ pos 16 ∷ pos 9 ∷ neg 4 ∷ [])
    ∷ (neg 18 ∷ pos 10 ∷ neg 26 ∷ pos 3 ∷ pos 5 ∷ neg 44 ∷ neg 9 ∷ pos 9 ∷ [])
    ∷ (neg 47 ∷ neg 55 ∷ pos 15 ∷ pos 9 ∷ pos 28 ∷ pos 1 ∷ pos 4 ∷ neg 3 ∷ [])
    ∷ (pos 46 ∷ pos 6 ∷ neg 6 ∷ neg 38 ∷ neg 29 ∷ neg 31 ∷ neg 15 ∷ neg 6 ∷ [])
    ∷ (pos 3 ∷ pos 0 ∷ pos 14 ∷ neg 6 ∷ pos 8 ∷ neg 54 ∷ neg 50 ∷ pos 33 ∷ [])
    ∷ (neg 5 ∷ pos 1 ∷ neg 14 ∷ pos 33 ∷ neg 48 ∷ pos 26 ∷ neg 4 ∷ neg 5 ∷ [])
    ∷ (neg 3 ∷ neg 5 ∷ neg 3 ∷ neg 5 ∷ neg 28 ∷ neg 22 ∷ pos 77 ∷ pos 55 ∷ [])
    ∷ (neg 1 ∷ pos 2 ∷ pos 10 ∷ pos 10 ∷ neg 9 ∷ neg 14 ∷ neg 66 ∷ neg 49 ∷ [])
    ∷ (pos 11 ∷ neg 36 ∷ neg 6 ∷ neg 20 ∷ pos 10 ∷ neg 10 ∷ pos 16 ∷ pos 12 ∷ [])
    ∷ (pos 4 ∷ neg 1 ∷ neg 16 ∷ pos 45 ∷ neg 44 ∷ neg 50 ∷ pos 31 ∷ neg 2 ∷ [])
    ∷ (pos 25 ∷ pos 42 ∷ pos 23 ∷ neg 32 ∷ neg 22 ∷ pos 0 ∷ pos 11 ∷ pos 20 ∷ [])
    ∷ (neg 40 ∷ neg 35 ∷ neg 40 ∷ neg 36 ∷ neg 32 ∷ neg 26 ∷ neg 21 ∷ neg 13 ∷ [])
    ∷ (pos 52 ∷ neg 22 ∷ pos 6 ∷ neg 24 ∷ neg 20 ∷ pos 17 ∷ neg 5 ∷ neg 8 ∷ [])
    ∷ (pos 36 ∷ neg 25 ∷ neg 11 ∷ pos 21 ∷ neg 26 ∷ pos 6 ∷ pos 34 ∷ neg 8 ∷ [])
    ∷ (pos 7 ∷ pos 20 ∷ neg 3 ∷ pos 5 ∷ neg 25 ∷ neg 8 ∷ pos 18 ∷ neg 5 ∷ [])
    ∷ (neg 9 ∷ neg 4 ∷ pos 1 ∷ neg 9 ∷ pos 20 ∷ pos 20 ∷ pos 39 ∷ pos 48 ∷ [])
    ∷ (neg 24 ∷ pos 9 ∷ pos 5 ∷ neg 65 ∷ pos 22 ∷ pos 29 ∷ pos 4 ∷ pos 3 ∷ [])
    ∷ (neg 43 ∷ neg 11 ∷ pos 32 ∷ neg 6 ∷ pos 9 ∷ pos 19 ∷ neg 27 ∷ neg 10 ∷ [])
    ∷ (neg 47 ∷ neg 14 ∷ pos 24 ∷ pos 10 ∷ neg 7 ∷ neg 36 ∷ neg 7 ∷ neg 1 ∷ [])
    ∷ (neg 4 ∷ neg 5 ∷ neg 5 ∷ pos 16 ∷ pos 53 ∷ pos 25 ∷ neg 26 ∷ neg 29 ∷ [])
    ∷ (neg 4 ∷ neg 12 ∷ pos 45 ∷ neg 58 ∷ neg 34 ∷ pos 33 ∷ neg 5 ∷ pos 2 ∷ [])
    ∷ (neg 1 ∷ pos 27 ∷ neg 48 ∷ pos 31 ∷ neg 15 ∷ pos 22 ∷ neg 5 ∷ pos 4 ∷ [])
    ∷ (pos 7 ∷ pos 7 ∷ neg 25 ∷ neg 3 ∷ pos 11 ∷ neg 22 ∷ pos 16 ∷ neg 12 ∷ [])
    ∷ (pos 8 ∷ neg 3 ∷ pos 7 ∷ neg 11 ∷ pos 45 ∷ pos 14 ∷ neg 73 ∷ neg 19 ∷ [])
    ∷ (pos 56 ∷ neg 46 ∷ pos 24 ∷ neg 20 ∷ pos 28 ∷ neg 12 ∷ neg 2 ∷ neg 1 ∷ [])
    ∷ (neg 36 ∷ neg 3 ∷ neg 33 ∷ pos 19 ∷ neg 6 ∷ pos 7 ∷ pos 2 ∷ neg 15 ∷ [])
    ∷ (pos 5 ∷ neg 31 ∷ neg 45 ∷ pos 8 ∷ pos 35 ∷ pos 13 ∷ pos 20 ∷ pos 0 ∷ [])
    ∷ (neg 9 ∷ pos 48 ∷ neg 13 ∷ neg 43 ∷ neg 3 ∷ neg 13 ∷ pos 2 ∷ neg 5 ∷ [])
    ∷ (pos 72 ∷ neg 68 ∷ neg 27 ∷ pos 2 ∷ pos 1 ∷ neg 2 ∷ neg 7 ∷ pos 5 ∷ [])
    ∷ (pos 36 ∷ pos 33 ∷ neg 40 ∷ neg 12 ∷ neg 4 ∷ neg 5 ∷ pos 23 ∷ pos 19 ∷ [])
    ∷ [])
