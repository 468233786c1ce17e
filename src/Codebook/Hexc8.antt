-- ===== src/Codebook/Hexc8.antt =====
-- libspeex/hexc_table.c: signed characters, in the order of the source.
use speex.Common.{List, [], ◌∷◌, ℤ, pos, neg, join}

unfoldable pub hexc_table : List ℤ
hexc_table = join (
    (neg 24 ∷ pos 21 ∷ neg 20 ∷ pos 5 ∷ neg 5 ∷ neg 7 ∷ pos 14 ∷ neg 10 ∷ [])
    ∷ (pos 2 ∷ neg 27 ∷ pos 16 ∷ neg 20 ∷ pos 0 ∷ neg 32 ∷ pos 26 ∷ pos 19 ∷ [])
    ∷ (pos 8 ∷ neg 11 ∷ neg 41 ∷ pos 31 ∷ pos 28 ∷ neg 27 ∷ neg 32 ∷ pos 34 ∷ [])
    ∷ (pos 42 ∷ pos 34 ∷ neg 17 ∷ pos 22 ∷ neg 10 ∷ pos 13 ∷ neg 29 ∷ pos 18 ∷ [])
    ∷ (neg 12 ∷ neg 26 ∷ neg 24 ∷ pos 11 ∷ pos 22 ∷ pos 5 ∷ neg 5 ∷ neg 5 ∷ [])
    ∷ (pos 54 ∷ neg 68 ∷ neg 43 ∷ pos 57 ∷ neg 25 ∷ pos 24 ∷ pos 4 ∷ pos 4 ∷ [])
    ∷ (pos 26 ∷ neg 8 ∷ neg 12 ∷ neg 17 ∷ pos 54 ∷ pos 30 ∷ neg 45 ∷ pos 1 ∷ [])
    ∷ (pos 10 ∷ neg 15 ∷ pos 18 ∷ neg 41 ∷ pos 11 ∷ pos 68 ∷ neg 67 ∷ pos 37 ∷ [])
    ∷ (neg 16 ∷ neg 24 ∷ neg 16 ∷ pos 38 ∷ neg 22 ∷ pos 6 ∷ neg 29 ∷ pos 30 ∷ [])
    ∷ (pos 66 ∷ neg 27 ∷ pos 5 ∷ pos 7 ∷ neg 16 ∷ pos 13 ∷ pos 2 ∷ neg 12 ∷ [])
    ∷ (neg 7 ∷ neg 3 ∷ neg 20 ∷ pos 36 ∷ pos 4 ∷ neg 28 ∷ pos 9 ∷ pos 3 ∷ [])
    ∷ (pos 32 ∷ pos 48 ∷ pos 26 ∷ pos 39 ∷ pos 3 ∷ pos 0 ∷ pos 7 ∷ neg 21 ∷ [])
    ∷ (neg 13 ∷ pos 5 ∷ neg 82 ∷ neg 7 ∷ pos 73 ∷ neg 20 ∷ pos 34 ∷ neg 9 ∷ [])
    ∷ (neg 5 ∷ pos 1 ∷ neg 1 ∷ pos 10 ∷ neg 5 ∷ neg 10 ∷ neg 1 ∷ pos 9 ∷ [])
    ∷ (pos 1 ∷ neg 9 ∷ pos 10 ∷ pos 0 ∷ neg 14 ∷ pos 11 ∷ neg 1 ∷ neg 2 ∷ [])
    ∷ (neg 1 ∷ pos 11 ∷ pos 20 ∷ pos 96 ∷ neg 81 ∷ neg 22 ∷ neg 12 ∷ neg 9 ∷ [])
    ∷ (neg 58 ∷ pos 9 ∷ pos 24 ∷ neg 30 ∷ pos 26 ∷ neg 35 ∷ pos 27 ∷ neg 12 ∷ [])
    ∷ (pos 13 ∷ neg 18 ∷ pos 56 ∷ neg 59 ∷ pos 15 ∷ neg 7 ∷ pos 23 ∷ neg 15 ∷ [])
    ∷ (neg 1 ∷ pos 6 ∷ neg 25 ∷ pos 14 ∷ neg 22 ∷ neg 20 ∷ pos 47 ∷ neg 11 ∷ [])
    ∷ (pos 16 ∷ pos 2 ∷ pos 38 ∷ neg 23 ∷ neg 19 ∷ neg 30 ∷ neg 9 ∷ pos 40 ∷ [])
    ∷ (neg 11 ∷ pos 5 ∷ pos 4 ∷ neg 6 ∷ pos 8 ∷ pos 26 ∷ neg 21 ∷ neg 11 ∷ [])
    ∷ (pos 127 ∷ pos 4 ∷ pos 1 ∷ pos 6 ∷ neg 9 ∷ pos 2 ∷ neg 7 ∷ neg 2 ∷ [])
    ∷ (neg 3 ∷ pos 7 ∷ neg 5 ∷ pos 10 ∷ neg 19 ∷ pos 7 ∷ neg 106 ∷ pos 91 ∷ [])
    ∷ (neg 3 ∷ pos 9 ∷ neg 4 ∷ pos 21 ∷ neg 8 ∷ pos 26 ∷ neg 80 ∷ pos 8 ∷ [])
    ∷ (pos 1 ∷ neg 2 ∷ neg 10 ∷ neg 17 ∷ neg 17 ∷ neg 27 ∷ pos 32 ∷ pos 71 ∷ [])
    ∷ (pos 6 ∷ neg 29 ∷ pos 11 ∷ neg 23 ∷ pos 54 ∷ neg 38 ∷ pos 29 ∷ neg 22 ∷ [])
    ∷ (pos 39 ∷ pos 87 ∷ neg 31 ∷ neg 12 ∷ neg 20 ∷ pos 3 ∷ neg 2 ∷ neg 2 ∷ [])
    ∷ (pos 2 ∷ pos 20 ∷ pos 0 ∷ neg 1 ∷ neg 35 ∷ pos 27 ∷ pos 9 ∷ neg 6 ∷ [])
    ∷ (neg 12 ∷ pos 3 ∷ neg 12 ∷ neg 6 ∷ pos 13 ∷ pos 1 ∷ pos 14 ∷ neg 22 ∷ [])
    ∷ (neg 59 ∷ neg 15 ∷ neg 17 ∷ neg 25 ∷ pos 13 ∷ neg 7 ∷ pos 7 ∷ pos 3 ∷ [])
    ∷ (pos 0 ∷ pos 1 ∷ neg 7 ∷ pos 6 ∷ neg 3 ∷ pos 61 ∷ neg 37 ∷ neg 23 ∷ [])
    ∷ (neg 23 ∷ neg 29 ∷ pos 38 ∷ neg 31 ∷ pos 27 ∷ pos 1 ∷ neg 8 ∷ pos 2 ∷ [])
    ∷ (neg 27 ∷ pos 23 ∷ neg 26 ∷ pos 36 ∷ neg 34 ∷ pos 5 ∷ pos 24 ∷ neg 24 ∷ [])
    ∷ (neg 6 ∷ pos 7 ∷ pos 3 ∷ neg 59 ∷ pos 78 ∷ neg 62 ∷ pos 44 ∷ neg 16 ∷ [])
    ∷ (pos 1 ∷ pos 6 ∷ pos 0 ∷ pos 17 ∷ pos 8 ∷ pos 45 ∷ pos 0 ∷ neg 110 ∷ [])
    ∷ (pos 6 ∷ pos 14 ∷ neg 2 ∷ pos 32 ∷ neg 77 ∷ neg 56 ∷ pos 62 ∷ neg 3 ∷ [])
    ∷ (pos 3 ∷ neg 13 ∷ pos 4 ∷ neg 16 ∷ pos 102 ∷ neg 15 ∷ neg 36 ∷ neg 1 ∷ [])
    ∷ (pos 9 ∷ neg 113 ∷ pos 6 ∷ pos 23 ∷ pos 0 ∷ pos 9 ∷ pos 9 ∷ pos 5 ∷ [])
    ∷ (neg 8 ∷ neg 1 ∷ neg 14 ∷ pos 5 ∷ neg 12 ∷ pos 121 ∷ neg 53 ∷ neg 27 ∷ [])
    ∷ (neg 8 ∷ neg 9 ∷ pos 22 ∷ neg 13 ∷ pos 3 ∷ pos 2 ∷ neg 3 ∷ pos 1 ∷ [])
    ∷ (neg 2 ∷ neg 71 ∷ pos 95 ∷ pos 38 ∷ neg 19 ∷ pos 15 ∷ neg 16 ∷ neg 5 ∷ [])
    ∷ (pos 71 ∷ pos 10 ∷ pos 2 ∷ neg 32 ∷ neg 13 ∷ neg 5 ∷ pos 15 ∷ neg 1 ∷ [])
    ∷ (neg 2 ∷ neg 14 ∷ neg 85 ∷ pos 30 ∷ pos 29 ∷ pos 6 ∷ pos 3 ∷ pos 2 ∷ [])
    ∷ (pos 0 ∷ pos 0 ∷ pos 0 ∷ pos 0 ∷ pos 0 ∷ pos 0 ∷ pos 0 ∷ pos 0 ∷ [])
    ∷ (pos 2 ∷ neg 65 ∷ neg 56 ∷ neg 9 ∷ pos 18 ∷ pos 18 ∷ pos 23 ∷ neg 14 ∷ [])
    ∷ (neg 2 ∷ pos 0 ∷ pos 12 ∷ neg 29 ∷ pos 26 ∷ neg 12 ∷ pos 1 ∷ pos 2 ∷ [])
    ∷ (neg 12 ∷ neg 64 ∷ pos 90 ∷ neg 6 ∷ pos 4 ∷ pos 1 ∷ pos 5 ∷ neg 5 ∷ [])
    ∷ (neg 110 ∷ neg 3 ∷ neg 31 ∷ pos 22 ∷ neg 29 ∷ pos 9 ∷ pos 0 ∷ pos 8 ∷ [])
    ∷ (neg 40 ∷ neg 5 ∷ pos 21 ∷ neg 5 ∷ neg 5 ∷ pos 13 ∷ pos 10 ∷ neg 18 ∷ [])
    ∷ (pos 40 ∷ pos 1 ∷ pos 35 ∷ neg 20 ∷ pos 30 ∷ neg 28 ∷ pos 11 ∷ neg 6 ∷ [])
    ∷ (pos 19 ∷ pos 7 ∷ pos 14 ∷ pos 18 ∷ neg 64 ∷ pos 9 ∷ neg 6 ∷ pos 16 ∷ [])
    ∷ (pos 51 ∷ pos 68 ∷ pos 8 ∷ pos 16 ∷ pos 12 ∷ neg 8 ∷ pos 0 ∷ neg 9 ∷ [])
    ∷ (pos 20 ∷ neg 22 ∷ pos 25 ∷ pos 7 ∷ neg 4 ∷ neg 13 ∷ pos 41 ∷ neg 35 ∷ [])
    ∷ (pos 93 ∷ neg 18 ∷ neg 54 ∷ pos 11 ∷ neg 1 ∷ pos 1 ∷ neg 9 ∷ pos 4 ∷ [])
    ∷ (neg 66 ∷ pos 66 ∷ neg 31 ∷ pos 20 ∷ neg 22 ∷ pos 25 ∷ neg 23 ∷ pos 11 ∷ [])
    ∷ (pos 10 ∷ pos 9 ∷ pos 19 ∷ pos 15 ∷ pos 11 ∷ neg 5 ∷ neg 31 ∷ neg 10 ∷ [])
    ∷ (neg 23 ∷ neg 28 ∷ neg 6 ∷ neg 6 ∷ neg 3 ∷ neg 4 ∷ pos 5 ∷ pos 3 ∷ [])
    ∷ (neg 28 ∷ pos 22 ∷ neg 11 ∷ neg 42 ∷ pos 25 ∷ neg 25 ∷ neg 16 ∷ pos 41 ∷ [])
    ∷ (pos 34 ∷ pos 47 ∷ neg 6 ∷ pos 2 ∷ pos 42 ∷ neg 19 ∷ neg 22 ∷ pos 5 ∷ [])
    ∷ (neg 39 ∷ pos 32 ∷ pos 6 ∷ neg 35 ∷ pos 22 ∷ pos 17 ∷ neg 30 ∷ pos 8 ∷ [])
    ∷ (neg 26 ∷ neg 11 ∷ neg 11 ∷ pos 3 ∷ neg 12 ∷ pos 33 ∷ pos 33 ∷ neg 37 ∷ [])
    ∷ (pos 21 ∷ neg 1 ∷ pos 6 ∷ neg 4 ∷ pos 3 ∷ pos 0 ∷ neg 5 ∷ pos 5 ∷ [])
    ∷ (pos 12 ∷ neg 12 ∷ pos 57 ∷ pos 27 ∷ neg 61 ∷ neg 3 ∷ pos 20 ∷ neg 17 ∷ [])
    ∷ (pos 2 ∷ pos 0 ∷ pos 4 ∷ pos 0 ∷ neg 2 ∷ neg 33 ∷ neg 58 ∷ pos 81 ∷ [])
    ∷ (neg 23 ∷ pos 39 ∷ neg 10 ∷ neg 5 ∷ pos 2 ∷ pos 6 ∷ neg 7 ∷ pos 5 ∷ [])
    ∷ (pos 4 ∷ neg 3 ∷ neg 2 ∷ neg 13 ∷ neg 23 ∷ neg 72 ∷ pos 107 ∷ pos 15 ∷ [])
    ∷ (neg 5 ∷ pos 0 ∷ neg 7 ∷ neg 3 ∷ neg 6 ∷ pos 5 ∷ neg 4 ∷ pos 15 ∷ [])
    ∷ (pos 47 ∷ pos 12 ∷ neg 31 ∷ pos 25 ∷ neg 16 ∷ pos 8 ∷ pos 22 ∷ neg 25 ∷ [])
    ∷ (neg 62 ∷ neg 56 ∷ neg 18 ∷ pos 14 ∷ pos 28 ∷ pos 12 ∷ pos 2 ∷ neg 11 ∷ [])
    ∷ (pos 74 ∷ neg 66 ∷ pos 41 ∷ neg 20 ∷ neg 7 ∷ pos 16 ∷ neg 20 ∷ pos 16 ∷ [])
    ∷ (neg 8 ∷ pos 0 ∷ neg 16 ∷ pos 4 ∷ neg 19 ∷ pos 92 ∷ pos 12 ∷ neg 59 ∷ [])
    ∷ (neg 14 ∷ neg 39 ∷ pos 49 ∷ neg 25 ∷ neg 16 ∷ pos 23 ∷ neg 27 ∷ pos 19 ∷ [])
    ∷ (neg 3 ∷ neg 33 ∷ pos 19 ∷ pos 85 ∷ neg 29 ∷ pos 6 ∷ neg 7 ∷ neg 10 ∷ [])
    ∷ (pos 16 ∷ neg 7 ∷ neg 12 ∷ pos 1 ∷ neg 6 ∷ pos 2 ∷ pos 4 ∷ neg 2 ∷ [])
    ∷ (pos 64 ∷ pos 10 ∷ neg 25 ∷ pos 41 ∷ neg 2 ∷ neg 31 ∷ pos 15 ∷ pos 0 ∷ [])
    ∷ (pos 110 ∷ pos 50 ∷ pos 69 ∷ pos 35 ∷ pos 28 ∷ pos 19 ∷ neg 10 ∷ pos 2 ∷ [])
    ∷ (neg 43 ∷ neg 49 ∷ neg 56 ∷ neg 15 ∷ neg 16 ∷ pos 10 ∷ pos 3 ∷ pos 12 ∷ [])
    ∷ (neg 1 ∷ neg 8 ∷ pos 1 ∷ pos 26 ∷ neg 12 ∷ neg 1 ∷ pos 7 ∷ neg 11 ∷ [])
    ∷ (neg 27 ∷ pos 41 ∷ pos 25 ∷ pos 1 ∷ neg 11 ∷ neg 18 ∷ pos 22 ∷ neg 7 ∷ [])
    ∷ (neg 1 ∷ neg 47 ∷ neg 8 ∷ pos 23 ∷ neg 3 ∷ neg 17 ∷ neg 7 ∷ pos 18 ∷ [])
    ∷ (neg 125 ∷ pos 59 ∷ neg 5 ∷ pos 3 ∷ pos 18 ∷ pos 1 ∷ pos 2 ∷ pos 3 ∷ [])
    ∷ (pos 27 ∷ neg 35 ∷ pos 65 ∷ neg 53 ∷ pos 50 ∷ neg 46 ∷ pos 37 ∷ neg 21 ∷ [])
    ∷ (neg 28 ∷ pos 7 ∷ pos 14 ∷ neg 37 ∷ neg 5 ∷ neg 5 ∷ pos 12 ∷ pos 5 ∷ [])
    ∷ (neg 8 ∷ pos 78 ∷ neg 19 ∷ pos 21 ∷ neg 6 ∷ neg 16 ∷ pos 8 ∷ neg 7 ∷ [])
    ∷ (pos 5 ∷ pos 2 ∷ pos 7 ∷ pos 2 ∷ pos 10 ∷ neg 6 ∷ pos 12 ∷ neg 60 ∷ [])
    ∷ (pos 44 ∷ pos 11 ∷ neg 36 ∷ neg 32 ∷ pos 31 ∷ pos 0 ∷ pos 2 ∷ neg 2 ∷ [])
    ∷ (pos 2 ∷ pos 1 ∷ neg 3 ∷ pos 7 ∷ neg 10 ∷ pos 17 ∷ neg 21 ∷ pos 10 ∷ [])
    ∷ (pos 6 ∷ neg 2 ∷ pos 19 ∷ neg 2 ∷ pos 59 ∷ neg 38 ∷ neg 86 ∷ pos 38 ∷ [])
    ∷ (pos 8 ∷ neg 41 ∷ neg 30 ∷ neg 45 ∷ neg 33 ∷ pos 7 ∷ pos 15 ∷ pos 28 ∷ [])
    ∷ (pos 29 ∷ neg 7 ∷ pos 24 ∷ neg 40 ∷ pos 7 ∷ pos 7 ∷ pos 5 ∷ neg 2 ∷ [])
    ∷ (pos 9 ∷ pos 24 ∷ neg 23 ∷ neg 18 ∷ pos 6 ∷ neg 29 ∷ pos 30 ∷ pos 2 ∷ [])
    ∷ (pos 28 ∷ pos 49 ∷ neg 11 ∷ neg 46 ∷ pos 10 ∷ pos 43 ∷ neg 13 ∷ neg 9 ∷ [])
    ∷ (neg 1 ∷ neg 3 ∷ neg 7 ∷ neg 7 ∷ neg 17 ∷ neg 6 ∷ pos 97 ∷ neg 33 ∷ [])
    ∷ (neg 21 ∷ pos 3 ∷ pos 5 ∷ pos 1 ∷ pos 12 ∷ neg 43 ∷ neg 8 ∷ pos 28 ∷ [])
    ∷ (pos 7 ∷ neg 43 ∷ neg 7 ∷ pos 17 ∷ neg 20 ∷ pos 19 ∷ neg 1 ∷ pos 2 ∷ [])
    ∷ (neg 13 ∷ pos 9 ∷ pos 54 ∷ pos 34 ∷ pos 9 ∷ neg 28 ∷ neg 11 ∷ neg 9 ∷ [])
    ∷ (neg 17 ∷ pos 110 ∷ neg 59 ∷ pos 44 ∷ neg 26 ∷ pos 0 ∷ pos 3 ∷ neg 12 ∷ [])
    ∷ (neg 47 ∷ pos 73 ∷ neg 34 ∷ neg 43 ∷ pos 38 ∷ neg 33 ∷ pos 16 ∷ neg 5 ∷ [])
    ∷ (neg 46 ∷ neg 4 ∷ neg 6 ∷ neg 2 ∷ neg 25 ∷ pos 19 ∷ neg 29 ∷ pos 28 ∷ [])
    ∷ (neg 13 ∷ pos 5 ∷ pos 14 ∷ pos 27 ∷ neg 40 ∷ neg 43 ∷ pos 4 ∷ pos 32 ∷ [])
    ∷ (neg 13 ∷ neg 2 ∷ neg 35 ∷ neg 4 ∷ pos 112 ∷ neg 42 ∷ pos 9 ∷ neg 12 ∷ [])
    ∷ (pos 37 ∷ neg 28 ∷ pos 17 ∷ pos 14 ∷ neg 19 ∷ pos 35 ∷ neg 39 ∷ pos 23 ∷ [])
    ∷ (pos 3 ∷ neg 14 ∷ neg 1 ∷ neg 57 ∷ neg 5 ∷ pos 94 ∷ neg 9 ∷ pos 3 ∷ [])
    ∷ (neg 39 ∷ pos 5 ∷ pos 30 ∷ neg 10 ∷ neg 32 ∷ pos 42 ∷ neg 13 ∷ neg 14 ∷ [])
    ∷ (neg 97 ∷ neg 63 ∷ pos 30 ∷ neg 9 ∷ pos 1 ∷ neg 7 ∷ pos 12 ∷ pos 5 ∷ [])
    ∷ (pos 20 ∷ pos 17 ∷ neg 9 ∷ neg 36 ∷ neg 30 ∷ pos 25 ∷ pos 47 ∷ neg 9 ∷ [])
    ∷ (neg 15 ∷ pos 12 ∷ neg 22 ∷ pos 98 ∷ neg 8 ∷ neg 50 ∷ pos 15 ∷ neg 27 ∷ [])
    ∷ (pos 21 ∷ neg 16 ∷ neg 11 ∷ pos 2 ∷ pos 12 ∷ neg 10 ∷ pos 10 ∷ neg 3 ∷ [])
    ∷ (pos 33 ∷ pos 36 ∷ neg 96 ∷ pos 0 ∷ neg 17 ∷ pos 31 ∷ neg 9 ∷ pos 9 ∷ [])
    ∷ (pos 3 ∷ neg 20 ∷ pos 13 ∷ neg 11 ∷ pos 8 ∷ neg 4 ∷ pos 10 ∷ neg 10 ∷ [])
    ∷ (pos 9 ∷ pos 1 ∷ pos 112 ∷ neg 70 ∷ neg 27 ∷ pos 5 ∷ neg 21 ∷ pos 2 ∷ [])
    ∷ (neg 57 ∷ neg 3 ∷ neg 29 ∷ pos 10 ∷ pos 19 ∷ neg 21 ∷ pos 21 ∷ neg 10 ∷ [])
    ∷ (neg 66 ∷ neg 3 ∷ pos 91 ∷ neg 35 ∷ pos 30 ∷ neg 12 ∷ pos 0 ∷ neg 7 ∷ [])
    ∷ (pos 59 ∷ neg 28 ∷ pos 26 ∷ pos 2 ∷ pos 14 ∷ neg 18 ∷ pos 1 ∷ pos 1 ∷ [])
    ∷ (pos 11 ∷ pos 17 ∷ pos 20 ∷ neg 54 ∷ neg 59 ∷ pos 27 ∷ pos 4 ∷ pos 29 ∷ [])
    ∷ (pos 32 ∷ pos 5 ∷ pos 19 ∷ pos 12 ∷ neg 4 ∷ pos 1 ∷ pos 7 ∷ neg 10 ∷ [])
    ∷ (pos 5 ∷ neg 2 ∷ pos 10 ∷ pos 0 ∷ pos 23 ∷ neg 5 ∷ pos 28 ∷ neg 104 ∷ [])
    ∷ (pos 46 ∷ pos 11 ∷ pos 16 ∷ pos 3 ∷ pos 29 ∷ pos 1 ∷ neg 8 ∷ neg 14 ∷ [])
    ∷ (pos 1 ∷ pos 7 ∷ neg 50 ∷ pos 88 ∷ neg 62 ∷ pos 26 ∷ pos 8 ∷ neg 17 ∷ [])
    ∷ (neg 14 ∷ pos 50 ∷ pos 0 ∷ pos 32 ∷ neg 12 ∷ neg 3 ∷ neg 27 ∷ pos 18 ∷ [])
    ∷ (neg 8 ∷ neg 5 ∷ pos 8 ∷ pos 3 ∷ neg 20 ∷ neg 11 ∷ pos 37 ∷ neg 12 ∷ [])
    ∷ (pos 9 ∷ pos 33 ∷ pos 46 ∷ neg 101 ∷ neg 1 ∷ neg 4 ∷ pos 1 ∷ pos 6 ∷ [])
    ∷ (neg 1 ∷ pos 28 ∷ neg 42 ∷ neg 15 ∷ pos 16 ∷ pos 5 ∷ neg 1 ∷ neg 2 ∷ [])
    ∷ (neg 55 ∷ pos 85 ∷ pos 38 ∷ neg 9 ∷ neg 4 ∷ pos 11 ∷ neg 2 ∷ neg 9 ∷ [])
    ∷ (neg 6 ∷ pos 3 ∷ neg 20 ∷ neg 10 ∷ neg 77 ∷ pos 89 ∷ pos 24 ∷ neg 3 ∷ [])
    ∷ (neg 104 ∷ neg 57 ∷ neg 26 ∷ neg 31 ∷ neg 20 ∷ neg 6 ∷ neg 9 ∷ pos 14 ∷ [])
    ∷ (pos 20 ∷ neg 23 ∷ pos 46 ∷ neg 15 ∷ neg 31 ∷ pos 28 ∷ pos 1 ∷ neg 15 ∷ [])
    ∷ (neg 2 ∷ pos 6 ∷ neg 2 ∷ pos 31 ∷ pos 45 ∷ neg 76 ∷ pos 23 ∷ neg 25 ∷ [])
    ∷ [])
