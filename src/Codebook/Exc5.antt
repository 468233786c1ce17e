-- ===== src/Codebook/Exc5.antt =====
-- libspeex/exc_5_256_table.c: signed characters, in the order of the source.
use speex.Common.{List, [], ◌∷◌, ℤ, pos, neg, join}

unfoldable pub exc_5_256_table : List ℤ
exc_5_256_table = join (
    (neg 8 ∷ neg 37 ∷ pos 5 ∷ neg 43 ∷ pos 5 ∷ [])
    ∷ (pos 73 ∷ pos 61 ∷ pos 39 ∷ pos 12 ∷ neg 3 ∷ [])
    ∷ (neg 61 ∷ neg 32 ∷ pos 2 ∷ pos 42 ∷ pos 30 ∷ [])
    ∷ (neg 3 ∷ pos 17 ∷ neg 27 ∷ pos 9 ∷ pos 34 ∷ [])
    ∷ (pos 20 ∷ neg 1 ∷ neg 5 ∷ pos 2 ∷ pos 23 ∷ [])
    ∷ (neg 7 ∷ neg 46 ∷ pos 26 ∷ pos 53 ∷ neg 47 ∷ [])
    ∷ (pos 20 ∷ neg 2 ∷ neg 33 ∷ neg 89 ∷ neg 51 ∷ [])
    ∷ (neg 64 ∷ pos 27 ∷ pos 11 ∷ pos 15 ∷ neg 34 ∷ [])
    ∷ (neg 5 ∷ neg 56 ∷ pos 25 ∷ neg 9 ∷ neg 1 ∷ [])
    ∷ (neg 29 ∷ pos 1 ∷ pos 40 ∷ pos 67 ∷ neg 23 ∷ [])
    ∷ (neg 16 ∷ pos 16 ∷ pos 33 ∷ pos 19 ∷ pos 7 ∷ [])
    ∷ (pos 14 ∷ pos 85 ∷ pos 22 ∷ neg 10 ∷ neg 10 ∷ [])
    ∷ (neg 12 ∷ neg 7 ∷ neg 1 ∷ pos 52 ∷ pos 89 ∷ [])
    ∷ (pos 29 ∷ pos 11 ∷ neg 20 ∷ neg 37 ∷ neg 46 ∷ [])
    ∷ (neg 15 ∷ pos 17 ∷ neg 24 ∷ neg 28 ∷ pos 24 ∷ [])
    ∷ (pos 2 ∷ pos 1 ∷ pos 0 ∷ pos 23 ∷ neg 101 ∷ [])
    ∷ (pos 23 ∷ pos 14 ∷ neg 1 ∷ neg 23 ∷ neg 18 ∷ [])
    ∷ (pos 9 ∷ pos 5 ∷ neg 13 ∷ pos 38 ∷ pos 1 ∷ [])
    ∷ (neg 28 ∷ neg 28 ∷ pos 4 ∷ pos 27 ∷ pos 51 ∷ [])
    ∷ (neg 26 ∷ pos 34 ∷ neg 40 ∷ pos 35 ∷ pos 47 ∷ [])
    ∷ (pos 54 ∷ pos 38 ∷ neg 54 ∷ neg 26 ∷ neg 6 ∷ [])
    ∷ (pos 42 ∷ neg 25 ∷ pos 13 ∷ neg 30 ∷ neg 36 ∷ [])
    ∷ (pos 18 ∷ pos 41 ∷ neg 4 ∷ neg 33 ∷ pos 23 ∷ [])
    ∷ (neg 32 ∷ neg 7 ∷ neg 4 ∷ pos 51 ∷ neg 3 ∷ [])
    ∷ (pos 17 ∷ neg 52 ∷ pos 56 ∷ neg 47 ∷ pos 36 ∷ [])
    ∷ (neg 2 ∷ neg 21 ∷ pos 36 ∷ pos 10 ∷ pos 8 ∷ [])
    ∷ (neg 33 ∷ pos 31 ∷ pos 19 ∷ pos 9 ∷ neg 5 ∷ [])
    ∷ (neg 40 ∷ pos 10 ∷ neg 9 ∷ neg 21 ∷ pos 19 ∷ [])
    ∷ (pos 18 ∷ neg 78 ∷ neg 18 ∷ neg 5 ∷ pos 0 ∷ [])
    ∷ (neg 26 ∷ neg 36 ∷ neg 47 ∷ neg 51 ∷ neg 44 ∷ [])
    ∷ (pos 18 ∷ pos 40 ∷ pos 27 ∷ neg 2 ∷ pos 29 ∷ [])
    ∷ (pos 49 ∷ neg 26 ∷ pos 2 ∷ pos 32 ∷ neg 54 ∷ [])
    ∷ (pos 30 ∷ neg 73 ∷ pos 54 ∷ pos 3 ∷ neg 5 ∷ [])
    ∷ (pos 36 ∷ pos 22 ∷ pos 53 ∷ pos 10 ∷ neg 1 ∷ [])
    ∷ (neg 84 ∷ neg 53 ∷ neg 29 ∷ neg 5 ∷ pos 3 ∷ [])
    ∷ (neg 44 ∷ pos 53 ∷ neg 51 ∷ pos 4 ∷ pos 22 ∷ [])
    ∷ (pos 71 ∷ neg 35 ∷ neg 1 ∷ pos 33 ∷ neg 5 ∷ [])
    ∷ (neg 27 ∷ neg 7 ∷ pos 36 ∷ pos 17 ∷ neg 23 ∷ [])
    ∷ (neg 39 ∷ pos 16 ∷ neg 9 ∷ neg 55 ∷ neg 15 ∷ [])
    ∷ (neg 20 ∷ pos 39 ∷ neg 35 ∷ pos 6 ∷ neg 39 ∷ [])
    ∷ (neg 14 ∷ pos 18 ∷ pos 48 ∷ neg 64 ∷ neg 17 ∷ [])
    ∷ (neg 15 ∷ pos 9 ∷ pos 39 ∷ pos 81 ∷ pos 37 ∷ [])
    ∷ (neg 68 ∷ pos 37 ∷ pos 47 ∷ neg 21 ∷ neg 6 ∷ [])
    ∷ (neg 104 ∷ pos 13 ∷ pos 6 ∷ pos 9 ∷ neg 2 ∷ [])
    ∷ (pos 35 ∷ pos 8 ∷ neg 23 ∷ pos 18 ∷ pos 42 ∷ [])
    ∷ (pos 45 ∷ pos 21 ∷ pos 33 ∷ neg 5 ∷ neg 49 ∷ [])
    ∷ (pos 9 ∷ neg 6 ∷ neg 43 ∷ neg 56 ∷ pos 39 ∷ [])
    ∷ (pos 2 ∷ neg 16 ∷ neg 25 ∷ pos 87 ∷ pos 1 ∷ [])
    ∷ (neg 3 ∷ neg 9 ∷ pos 17 ∷ neg 25 ∷ neg 11 ∷ [])
    ∷ (neg 9 ∷ neg 1 ∷ pos 10 ∷ pos 2 ∷ neg 14 ∷ [])
    ∷ (neg 14 ∷ pos 4 ∷ neg 1 ∷ neg 10 ∷ pos 28 ∷ [])
    ∷ (neg 23 ∷ pos 40 ∷ neg 32 ∷ pos 26 ∷ neg 9 ∷ [])
    ∷ (pos 26 ∷ pos 4 ∷ neg 27 ∷ neg 23 ∷ pos 3 ∷ [])
    ∷ (pos 42 ∷ neg 60 ∷ pos 1 ∷ pos 49 ∷ neg 3 ∷ [])
    ∷ (pos 27 ∷ pos 10 ∷ neg 52 ∷ neg 40 ∷ neg 2 ∷ [])
    ∷ (pos 18 ∷ pos 45 ∷ neg 23 ∷ pos 17 ∷ neg 44 ∷ [])
    ∷ (pos 3 ∷ neg 3 ∷ pos 17 ∷ neg 46 ∷ pos 52 ∷ [])
    ∷ (neg 40 ∷ neg 47 ∷ pos 25 ∷ pos 75 ∷ pos 31 ∷ [])
    ∷ (neg 49 ∷ pos 53 ∷ pos 30 ∷ neg 30 ∷ neg 32 ∷ [])
    ∷ (neg 36 ∷ pos 38 ∷ neg 6 ∷ neg 15 ∷ neg 16 ∷ [])
    ∷ (pos 54 ∷ neg 27 ∷ neg 48 ∷ pos 3 ∷ pos 38 ∷ [])
    ∷ (neg 29 ∷ neg 32 ∷ neg 22 ∷ neg 14 ∷ neg 4 ∷ [])
    ∷ (neg 23 ∷ neg 13 ∷ pos 32 ∷ neg 39 ∷ pos 9 ∷ [])
    ∷ (pos 8 ∷ neg 45 ∷ neg 13 ∷ pos 34 ∷ neg 16 ∷ [])
    ∷ (pos 49 ∷ pos 40 ∷ pos 32 ∷ pos 31 ∷ pos 28 ∷ [])
    ∷ (pos 23 ∷ pos 23 ∷ pos 32 ∷ pos 47 ∷ pos 59 ∷ [])
    ∷ (neg 68 ∷ pos 8 ∷ pos 62 ∷ pos 44 ∷ pos 25 ∷ [])
    ∷ (neg 14 ∷ neg 24 ∷ neg 65 ∷ neg 16 ∷ pos 36 ∷ [])
    ∷ (pos 67 ∷ neg 25 ∷ neg 38 ∷ neg 21 ∷ pos 4 ∷ [])
    ∷ (neg 33 ∷ neg 2 ∷ pos 42 ∷ pos 5 ∷ neg 63 ∷ [])
    ∷ (pos 40 ∷ pos 11 ∷ pos 26 ∷ neg 42 ∷ neg 23 ∷ [])
    ∷ (neg 61 ∷ pos 79 ∷ neg 31 ∷ pos 23 ∷ neg 20 ∷ [])
    ∷ (pos 10 ∷ neg 32 ∷ pos 53 ∷ neg 25 ∷ neg 36 ∷ [])
    ∷ (pos 10 ∷ neg 26 ∷ neg 5 ∷ pos 3 ∷ pos 0 ∷ [])
    ∷ (neg 71 ∷ pos 5 ∷ neg 10 ∷ neg 37 ∷ pos 1 ∷ [])
    ∷ (neg 24 ∷ pos 21 ∷ neg 54 ∷ neg 17 ∷ pos 1 ∷ [])
    ∷ (neg 29 ∷ neg 25 ∷ neg 15 ∷ neg 27 ∷ pos 32 ∷ [])
    ∷ (pos 68 ∷ pos 45 ∷ neg 16 ∷ neg 37 ∷ neg 18 ∷ [])
    ∷ (neg 5 ∷ pos 1 ∷ pos 0 ∷ neg 77 ∷ pos 71 ∷ [])
    ∷ (neg 6 ∷ pos 3 ∷ neg 20 ∷ pos 71 ∷ neg 67 ∷ [])
    ∷ (pos 29 ∷ neg 35 ∷ pos 10 ∷ neg 30 ∷ pos 19 ∷ [])
    ∷ (pos 4 ∷ pos 16 ∷ pos 17 ∷ pos 5 ∷ pos 0 ∷ [])
    ∷ (neg 14 ∷ pos 19 ∷ pos 2 ∷ pos 28 ∷ pos 26 ∷ [])
    ∷ (pos 59 ∷ pos 3 ∷ pos 2 ∷ pos 24 ∷ pos 39 ∷ [])
    ∷ (pos 55 ∷ neg 50 ∷ neg 45 ∷ neg 18 ∷ neg 17 ∷ [])
    ∷ (pos 33 ∷ neg 35 ∷ pos 14 ∷ neg 1 ∷ pos 1 ∷ [])
    ∷ (pos 8 ∷ pos 87 ∷ neg 35 ∷ neg 29 ∷ pos 0 ∷ [])
    ∷ (neg 27 ∷ pos 13 ∷ neg 7 ∷ pos 23 ∷ neg 13 ∷ [])
    ∷ (pos 37 ∷ neg 40 ∷ pos 50 ∷ neg 35 ∷ pos 14 ∷ [])
    ∷ (pos 19 ∷ neg 7 ∷ neg 14 ∷ pos 49 ∷ pos 54 ∷ [])
    ∷ (neg 5 ∷ pos 22 ∷ neg 2 ∷ neg 29 ∷ neg 8 ∷ [])
    ∷ (neg 27 ∷ pos 38 ∷ pos 13 ∷ pos 27 ∷ pos 48 ∷ [])
    ∷ (pos 12 ∷ neg 41 ∷ neg 21 ∷ neg 15 ∷ pos 28 ∷ [])
    ∷ (pos 7 ∷ neg 16 ∷ neg 24 ∷ neg 19 ∷ neg 20 ∷ [])
    ∷ (pos 11 ∷ neg 20 ∷ pos 9 ∷ pos 2 ∷ pos 13 ∷ [])
    ∷ (pos 23 ∷ neg 20 ∷ pos 11 ∷ pos 27 ∷ neg 27 ∷ [])
    ∷ (pos 71 ∷ neg 69 ∷ pos 8 ∷ pos 2 ∷ neg 6 ∷ [])
    ∷ (pos 22 ∷ pos 12 ∷ pos 16 ∷ pos 16 ∷ pos 9 ∷ [])
    ∷ (neg 16 ∷ neg 8 ∷ neg 17 ∷ pos 1 ∷ pos 25 ∷ [])
    ∷ (pos 1 ∷ pos 40 ∷ neg 37 ∷ neg 33 ∷ pos 66 ∷ [])
    ∷ (pos 94 ∷ pos 53 ∷ pos 4 ∷ neg 22 ∷ neg 25 ∷ [])
    ∷ (neg 41 ∷ neg 42 ∷ pos 25 ∷ pos 35 ∷ neg 16 ∷ [])
    ∷ (neg 15 ∷ pos 57 ∷ pos 31 ∷ neg 29 ∷ neg 32 ∷ [])
    ∷ (pos 21 ∷ pos 16 ∷ neg 60 ∷ pos 45 ∷ pos 15 ∷ [])
    ∷ (neg 1 ∷ pos 7 ∷ pos 57 ∷ neg 26 ∷ neg 47 ∷ [])
    ∷ (neg 29 ∷ pos 11 ∷ pos 8 ∷ pos 15 ∷ pos 19 ∷ [])
    ∷ (neg 105 ∷ neg 8 ∷ pos 54 ∷ pos 27 ∷ pos 10 ∷ [])
    ∷ (neg 17 ∷ pos 6 ∷ neg 12 ∷ neg 1 ∷ neg 10 ∷ [])
    ∷ (pos 4 ∷ pos 0 ∷ pos 23 ∷ neg 10 ∷ pos 31 ∷ [])
    ∷ (pos 13 ∷ pos 11 ∷ pos 10 ∷ pos 12 ∷ neg 64 ∷ [])
    ∷ (pos 23 ∷ neg 3 ∷ neg 8 ∷ neg 19 ∷ pos 16 ∷ [])
    ∷ (pos 52 ∷ pos 24 ∷ neg 40 ∷ pos 16 ∷ pos 10 ∷ [])
    ∷ (pos 40 ∷ pos 5 ∷ pos 9 ∷ pos 0 ∷ neg 13 ∷ [])
    ∷ (neg 7 ∷ neg 21 ∷ neg 8 ∷ neg 6 ∷ neg 7 ∷ [])
    ∷ (neg 21 ∷ pos 59 ∷ pos 16 ∷ neg 53 ∷ pos 18 ∷ [])
    ∷ (neg 60 ∷ pos 11 ∷ neg 47 ∷ pos 14 ∷ neg 18 ∷ [])
    ∷ (pos 25 ∷ neg 13 ∷ neg 24 ∷ pos 4 ∷ neg 39 ∷ [])
    ∷ (pos 16 ∷ neg 28 ∷ pos 54 ∷ pos 26 ∷ neg 67 ∷ [])
    ∷ (pos 30 ∷ pos 27 ∷ neg 20 ∷ neg 52 ∷ pos 20 ∷ [])
    ∷ (neg 12 ∷ pos 55 ∷ pos 12 ∷ pos 18 ∷ neg 16 ∷ [])
    ∷ (pos 39 ∷ neg 14 ∷ neg 6 ∷ neg 26 ∷ pos 56 ∷ [])
    ∷ (neg 88 ∷ neg 55 ∷ pos 12 ∷ pos 25 ∷ pos 26 ∷ [])
    ∷ (neg 37 ∷ pos 6 ∷ pos 75 ∷ pos 0 ∷ neg 34 ∷ [])
    ∷ (neg 81 ∷ pos 54 ∷ neg 30 ∷ pos 1 ∷ neg 7 ∷ [])
    ∷ (pos 49 ∷ neg 23 ∷ neg 14 ∷ pos 21 ∷ pos 10 ∷ [])
    ∷ (neg 62 ∷ neg 58 ∷ neg 57 ∷ neg 47 ∷ neg 34 ∷ [])
    ∷ (pos 15 ∷ neg 4 ∷ pos 34 ∷ neg 78 ∷ pos 31 ∷ [])
    ∷ (pos 25 ∷ neg 11 ∷ pos 7 ∷ pos 50 ∷ neg 10 ∷ [])
    ∷ (pos 42 ∷ neg 63 ∷ pos 14 ∷ neg 36 ∷ neg 4 ∷ [])
    ∷ (pos 57 ∷ pos 55 ∷ pos 57 ∷ pos 53 ∷ pos 42 ∷ [])
    ∷ (neg 42 ∷ neg 1 ∷ pos 15 ∷ pos 40 ∷ pos 37 ∷ [])
    ∷ (pos 15 ∷ pos 25 ∷ neg 11 ∷ pos 6 ∷ pos 1 ∷ [])
    ∷ (pos 31 ∷ neg 2 ∷ neg 6 ∷ neg 1 ∷ neg 7 ∷ [])
    ∷ (neg 64 ∷ pos 34 ∷ pos 28 ∷ pos 30 ∷ neg 1 ∷ [])
    ∷ (pos 3 ∷ pos 21 ∷ pos 0 ∷ neg 88 ∷ neg 12 ∷ [])
    ∷ (neg 56 ∷ pos 25 ∷ neg 28 ∷ pos 40 ∷ pos 8 ∷ [])
    ∷ (neg 28 ∷ neg 14 ∷ pos 9 ∷ pos 12 ∷ pos 2 ∷ [])
    ∷ (neg 6 ∷ neg 17 ∷ pos 22 ∷ pos 49 ∷ neg 6 ∷ [])
    ∷ (neg 26 ∷ pos 14 ∷ pos 28 ∷ neg 20 ∷ pos 4 ∷ [])
    ∷ (neg 12 ∷ pos 50 ∷ pos 35 ∷ pos 40 ∷ pos 13 ∷ [])
    ∷ (neg 38 ∷ neg 58 ∷ neg 29 ∷ pos 17 ∷ pos 30 ∷ [])
    ∷ (pos 22 ∷ pos 60 ∷ pos 26 ∷ neg 54 ∷ neg 39 ∷ [])
    ∷ (neg 12 ∷ pos 58 ∷ neg 28 ∷ neg 63 ∷ pos 10 ∷ [])
    ∷ (neg 21 ∷ neg 8 ∷ neg 12 ∷ pos 26 ∷ neg 62 ∷ [])
    ∷ (pos 6 ∷ neg 10 ∷ neg 11 ∷ neg 22 ∷ neg 6 ∷ [])
    ∷ (neg 7 ∷ pos 4 ∷ pos 1 ∷ pos 18 ∷ pos 2 ∷ [])
    ∷ (neg 70 ∷ pos 11 ∷ pos 14 ∷ pos 4 ∷ pos 13 ∷ [])
    ∷ (pos 19 ∷ neg 24 ∷ neg 34 ∷ pos 24 ∷ pos 67 ∷ [])
    ∷ (pos 17 ∷ pos 51 ∷ neg 21 ∷ pos 13 ∷ pos 23 ∷ [])
    ∷ (pos 54 ∷ neg 30 ∷ pos 48 ∷ pos 1 ∷ neg 13 ∷ [])
    ∷ (pos 80 ∷ pos 26 ∷ neg 16 ∷ neg 2 ∷ pos 13 ∷ [])
    ∷ (neg 4 ∷ pos 6 ∷ neg 30 ∷ pos 29 ∷ neg 24 ∷ [])
    ∷ (pos 73 ∷ neg 58 ∷ pos 30 ∷ neg 27 ∷ pos 20 ∷ [])
    ∷ (neg 2 ∷ neg 21 ∷ pos 41 ∷ pos 45 ∷ pos 30 ∷ [])
    ∷ (neg 27 ∷ neg 3 ∷ neg 5 ∷ neg 18 ∷ neg 20 ∷ [])
    ∷ (neg 49 ∷ neg 3 ∷ neg 35 ∷ pos 10 ∷ pos 42 ∷ [])
    ∷ (neg 19 ∷ neg 67 ∷ neg 53 ∷ neg 11 ∷ pos 9 ∷ [])
    ∷ (pos 13 ∷ neg 15 ∷ neg 33 ∷ neg 51 ∷ neg 30 ∷ [])
    ∷ (pos 15 ∷ pos 7 ∷ pos 25 ∷ neg 30 ∷ pos 4 ∷ [])
    ∷ (pos 28 ∷ neg 22 ∷ neg 34 ∷ pos 54 ∷ neg 29 ∷ [])
    ∷ (pos 39 ∷ neg 46 ∷ pos 20 ∷ pos 16 ∷ pos 34 ∷ [])
    ∷ (neg 4 ∷ pos 47 ∷ pos 75 ∷ pos 1 ∷ neg 44 ∷ [])
    ∷ (neg 55 ∷ neg 24 ∷ pos 7 ∷ neg 1 ∷ pos 9 ∷ [])
    ∷ (neg 42 ∷ pos 50 ∷ neg 8 ∷ neg 36 ∷ pos 41 ∷ [])
    ∷ (pos 68 ∷ pos 0 ∷ neg 4 ∷ neg 10 ∷ neg 23 ∷ [])
    ∷ (neg 15 ∷ neg 50 ∷ pos 64 ∷ pos 36 ∷ neg 9 ∷ [])
    ∷ (neg 27 ∷ pos 12 ∷ pos 25 ∷ neg 38 ∷ neg 47 ∷ [])
    ∷ (neg 37 ∷ pos 32 ∷ neg 49 ∷ pos 51 ∷ neg 36 ∷ [])
    ∷ (pos 2 ∷ neg 4 ∷ pos 69 ∷ neg 26 ∷ pos 19 ∷ [])
    ∷ (pos 7 ∷ pos 45 ∷ pos 67 ∷ pos 46 ∷ pos 13 ∷ [])
    ∷ (neg 63 ∷ pos 46 ∷ pos 15 ∷ neg 47 ∷ pos 4 ∷ [])
    ∷ (neg 41 ∷ pos 13 ∷ neg 6 ∷ pos 5 ∷ neg 21 ∷ [])
    ∷ (pos 37 ∷ pos 26 ∷ neg 55 ∷ neg 7 ∷ pos 33 ∷ [])
    ∷ (neg 1 ∷ neg 28 ∷ pos 10 ∷ neg 17 ∷ neg 64 ∷ [])
    ∷ (neg 14 ∷ pos 0 ∷ neg 36 ∷ neg 17 ∷ pos 93 ∷ [])
    ∷ (neg 3 ∷ neg 9 ∷ neg 66 ∷ pos 44 ∷ neg 21 ∷ [])
    ∷ (pos 3 ∷ neg 12 ∷ pos 38 ∷ neg 6 ∷ neg 13 ∷ [])
    ∷ (neg 12 ∷ pos 19 ∷ pos 13 ∷ pos 43 ∷ neg 43 ∷ [])
    ∷ (neg 10 ∷ neg 12 ∷ pos 6 ∷ neg 5 ∷ pos 9 ∷ [])
    ∷ (neg 49 ∷ pos 32 ∷ neg 5 ∷ pos 2 ∷ pos 4 ∷ [])
    ∷ (pos 5 ∷ pos 15 ∷ neg 16 ∷ pos 10 ∷ neg 21 ∷ [])
    ∷ (pos 8 ∷ neg 62 ∷ neg 8 ∷ pos 64 ∷ pos 8 ∷ [])
    ∷ (pos 79 ∷ neg 1 ∷ neg 66 ∷ neg 49 ∷ neg 18 ∷ [])
    ∷ (pos 5 ∷ pos 40 ∷ neg 5 ∷ neg 30 ∷ neg 45 ∷ [])
    ∷ (pos 1 ∷ neg 6 ∷ pos 21 ∷ neg 32 ∷ pos 93 ∷ [])
    ∷ (neg 18 ∷ neg 30 ∷ neg 21 ∷ pos 32 ∷ pos 21 ∷ [])
    ∷ (neg 18 ∷ pos 22 ∷ pos 8 ∷ pos 5 ∷ neg 41 ∷ [])
    ∷ (neg 54 ∷ pos 80 ∷ pos 22 ∷ neg 10 ∷ neg 7 ∷ [])
    ∷ (neg 8 ∷ neg 23 ∷ neg 64 ∷ pos 66 ∷ pos 56 ∷ [])
    ∷ (neg 14 ∷ neg 30 ∷ neg 41 ∷ neg 46 ∷ neg 14 ∷ [])
    ∷ (neg 29 ∷ neg 37 ∷ pos 27 ∷ neg 14 ∷ pos 42 ∷ [])
    ∷ (neg 2 ∷ neg 9 ∷ neg 29 ∷ pos 34 ∷ pos 14 ∷ [])
    ∷ (pos 33 ∷ neg 14 ∷ pos 22 ∷ pos 4 ∷ pos 10 ∷ [])
    ∷ (pos 26 ∷ pos 26 ∷ pos 28 ∷ pos 32 ∷ pos 23 ∷ [])
    ∷ (neg 72 ∷ neg 32 ∷ pos 3 ∷ pos 0 ∷ neg 14 ∷ [])
    ∷ (pos 35 ∷ neg 42 ∷ neg 78 ∷ neg 32 ∷ pos 6 ∷ [])
    ∷ (pos 29 ∷ neg 18 ∷ neg 45 ∷ neg 5 ∷ pos 7 ∷ [])
    ∷ (neg 33 ∷ neg 45 ∷ neg 3 ∷ neg 22 ∷ neg 34 ∷ [])
    ∷ (pos 8 ∷ neg 8 ∷ pos 4 ∷ neg 51 ∷ neg 25 ∷ [])
    ∷ (neg 9 ∷ pos 59 ∷ neg 78 ∷ pos 21 ∷ neg 5 ∷ [])
    ∷ (neg 25 ∷ neg 48 ∷ pos 66 ∷ neg 15 ∷ neg 17 ∷ [])
    ∷ (neg 24 ∷ neg 49 ∷ neg 13 ∷ pos 25 ∷ neg 23 ∷ [])
    ∷ (neg 64 ∷ neg 6 ∷ pos 40 ∷ neg 24 ∷ neg 19 ∷ [])
    ∷ (neg 11 ∷ pos 57 ∷ neg 33 ∷ neg 8 ∷ pos 1 ∷ [])
    ∷ (pos 10 ∷ neg 52 ∷ neg 54 ∷ pos 28 ∷ pos 39 ∷ [])
    ∷ (pos 49 ∷ pos 34 ∷ neg 11 ∷ neg 61 ∷ neg 41 ∷ [])
    ∷ (neg 43 ∷ pos 10 ∷ pos 15 ∷ neg 15 ∷ pos 51 ∷ [])
    ∷ (pos 30 ∷ pos 15 ∷ neg 51 ∷ pos 32 ∷ neg 34 ∷ [])
    ∷ (neg 2 ∷ neg 34 ∷ pos 14 ∷ pos 18 ∷ pos 16 ∷ [])
    ∷ (pos 1 ∷ pos 1 ∷ neg 3 ∷ neg 3 ∷ pos 1 ∷ [])
    ∷ (pos 1 ∷ neg 18 ∷ pos 6 ∷ pos 16 ∷ pos 48 ∷ [])
    ∷ (pos 12 ∷ neg 5 ∷ neg 42 ∷ pos 7 ∷ pos 36 ∷ [])
    ∷ (pos 48 ∷ pos 7 ∷ neg 20 ∷ neg 10 ∷ pos 7 ∷ [])
    ∷ (pos 12 ∷ pos 2 ∷ pos 54 ∷ pos 39 ∷ neg 38 ∷ [])
    ∷ (pos 37 ∷ pos 54 ∷ pos 4 ∷ neg 11 ∷ neg 8 ∷ [])
    ∷ (neg 46 ∷ neg 10 ∷ pos 5 ∷ neg 10 ∷ neg 34 ∷ [])
    ∷ (pos 46 ∷ neg 12 ∷ pos 29 ∷ neg 37 ∷ pos 39 ∷ [])
    ∷ (pos 36 ∷ neg 11 ∷ pos 24 ∷ pos 56 ∷ pos 17 ∷ [])
    ∷ (pos 14 ∷ pos 20 ∷ pos 25 ∷ pos 0 ∷ neg 25 ∷ [])
    ∷ (neg 28 ∷ pos 55 ∷ neg 7 ∷ neg 5 ∷ pos 27 ∷ [])
    ∷ (pos 3 ∷ pos 9 ∷ neg 26 ∷ neg 8 ∷ pos 6 ∷ [])
    ∷ (neg 24 ∷ neg 10 ∷ neg 30 ∷ neg 31 ∷ neg 34 ∷ [])
    ∷ (pos 18 ∷ pos 4 ∷ pos 22 ∷ pos 21 ∷ pos 40 ∷ [])
    ∷ (neg 1 ∷ neg 29 ∷ neg 37 ∷ neg 8 ∷ neg 21 ∷ [])
    ∷ (pos 92 ∷ neg 29 ∷ pos 11 ∷ neg 3 ∷ pos 11 ∷ [])
    ∷ (pos 73 ∷ pos 23 ∷ pos 22 ∷ pos 7 ∷ pos 4 ∷ [])
    ∷ (neg 44 ∷ neg 9 ∷ neg 11 ∷ pos 21 ∷ neg 13 ∷ [])
    ∷ (pos 11 ∷ pos 9 ∷ neg 78 ∷ neg 1 ∷ pos 47 ∷ [])
    ∷ (pos 114 ∷ neg 12 ∷ neg 37 ∷ neg 19 ∷ neg 5 ∷ [])
    ∷ (neg 11 ∷ neg 22 ∷ pos 19 ∷ pos 12 ∷ neg 30 ∷ [])
    ∷ (pos 7 ∷ pos 38 ∷ pos 45 ∷ neg 21 ∷ neg 8 ∷ [])
    ∷ (neg 9 ∷ pos 55 ∷ neg 45 ∷ pos 56 ∷ neg 21 ∷ [])
    ∷ (pos 7 ∷ pos 17 ∷ pos 46 ∷ neg 57 ∷ neg 87 ∷ [])
    ∷ (neg 6 ∷ pos 27 ∷ pos 31 ∷ pos 31 ∷ pos 7 ∷ [])
    ∷ (neg 56 ∷ neg 12 ∷ pos 46 ∷ pos 21 ∷ neg 5 ∷ [])
    ∷ (neg 12 ∷ pos 36 ∷ pos 3 ∷ pos 3 ∷ neg 21 ∷ [])
    ∷ (pos 43 ∷ pos 19 ∷ pos 12 ∷ neg 7 ∷ pos 9 ∷ [])
    ∷ (neg 14 ∷ pos 0 ∷ neg 9 ∷ neg 33 ∷ neg 91 ∷ [])
    ∷ (pos 7 ∷ pos 26 ∷ pos 3 ∷ neg 11 ∷ pos 64 ∷ [])
    ∷ (pos 83 ∷ neg 31 ∷ neg 46 ∷ pos 25 ∷ pos 2 ∷ [])
    ∷ (pos 9 ∷ pos 5 ∷ pos 2 ∷ pos 2 ∷ neg 1 ∷ [])
    ∷ (pos 20 ∷ neg 17 ∷ pos 10 ∷ neg 5 ∷ neg 27 ∷ [])
    ∷ (neg 8 ∷ pos 20 ∷ pos 8 ∷ neg 19 ∷ pos 16 ∷ [])
    ∷ (neg 21 ∷ neg 13 ∷ neg 31 ∷ pos 5 ∷ pos 5 ∷ [])
    ∷ (pos 42 ∷ pos 24 ∷ pos 9 ∷ pos 34 ∷ neg 20 ∷ [])
    ∷ (pos 28 ∷ neg 61 ∷ pos 22 ∷ pos 11 ∷ neg 39 ∷ [])
    ∷ (pos 64 ∷ neg 20 ∷ neg 1 ∷ neg 30 ∷ neg 9 ∷ [])
    ∷ (neg 20 ∷ pos 24 ∷ neg 25 ∷ neg 24 ∷ neg 29 ∷ [])
    ∷ (pos 22 ∷ neg 60 ∷ pos 6 ∷ neg 5 ∷ pos 41 ∷ [])
    ∷ (neg 9 ∷ neg 87 ∷ pos 14 ∷ pos 34 ∷ pos 15 ∷ [])
    ∷ (neg 57 ∷ pos 52 ∷ pos 69 ∷ pos 15 ∷ neg 3 ∷ [])
    ∷ (neg 102 ∷ pos 58 ∷ pos 16 ∷ pos 3 ∷ pos 6 ∷ [])
    ∷ (pos 60 ∷ neg 75 ∷ neg 32 ∷ pos 26 ∷ pos 7 ∷ [])
    ∷ (neg 57 ∷ neg 27 ∷ neg 32 ∷ neg 24 ∷ neg 21 ∷ [])
    ∷ (neg 29 ∷ neg 16 ∷ pos 62 ∷ neg 46 ∷ pos 31 ∷ [])
    ∷ (pos 30 ∷ neg 27 ∷ neg 15 ∷ pos 7 ∷ pos 15 ∷ [])
    ∷ [])
