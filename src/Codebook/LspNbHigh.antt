-- ===== src/Codebook/LspNbHigh.antt =====
-- libspeex/lsp_tables_nb.c: signed characters, in the order of the source.
use speex.Common.{List, [], ◌∷◌, ℤ, pos, neg, join}

unfoldable pub cdbk_nb_high1 : List ℤ
cdbk_nb_high1 = join (
    (neg 26 ∷ neg 8 ∷ pos 29 ∷ pos 21 ∷ pos 4 ∷ [])
    ∷ (pos 19 ∷ neg 39 ∷ pos 33 ∷ neg 7 ∷ neg 36 ∷ [])
    ∷ (pos 56 ∷ pos 54 ∷ pos 48 ∷ pos 40 ∷ pos 29 ∷ [])
    ∷ (neg 4 ∷ neg 24 ∷ neg 42 ∷ neg 66 ∷ neg 43 ∷ [])
    ∷ (neg 60 ∷ pos 19 ∷ neg 2 ∷ pos 37 ∷ pos 41 ∷ [])
    ∷ (neg 10 ∷ neg 37 ∷ neg 60 ∷ neg 64 ∷ pos 18 ∷ [])
    ∷ (neg 22 ∷ pos 77 ∷ pos 73 ∷ pos 40 ∷ pos 25 ∷ [])
    ∷ (pos 4 ∷ pos 19 ∷ neg 19 ∷ neg 66 ∷ neg 2 ∷ [])
    ∷ (pos 11 ∷ pos 5 ∷ pos 21 ∷ pos 14 ∷ pos 26 ∷ [])
    ∷ (neg 25 ∷ neg 86 ∷ neg 4 ∷ pos 18 ∷ pos 1 ∷ [])
    ∷ (pos 26 ∷ neg 37 ∷ pos 10 ∷ pos 37 ∷ neg 1 ∷ [])
    ∷ (pos 24 ∷ neg 12 ∷ neg 59 ∷ neg 11 ∷ pos 20 ∷ [])
    ∷ (neg 6 ∷ pos 34 ∷ neg 16 ∷ neg 16 ∷ pos 42 ∷ [])
    ∷ (pos 19 ∷ neg 28 ∷ neg 51 ∷ pos 53 ∷ pos 32 ∷ [])
    ∷ (pos 4 ∷ pos 10 ∷ pos 62 ∷ pos 21 ∷ neg 12 ∷ [])
    ∷ (neg 34 ∷ pos 27 ∷ pos 4 ∷ neg 48 ∷ neg 48 ∷ [])
    ∷ (neg 50 ∷ neg 49 ∷ pos 31 ∷ neg 7 ∷ neg 21 ∷ [])
    ∷ (neg 42 ∷ neg 25 ∷ neg 4 ∷ neg 43 ∷ neg 22 ∷ [])
    ∷ (pos 59 ∷ pos 2 ∷ pos 27 ∷ pos 12 ∷ neg 9 ∷ [])
    ∷ (neg 6 ∷ neg 16 ∷ neg 8 ∷ neg 32 ∷ neg 58 ∷ [])
    ∷ (neg 16 ∷ neg 29 ∷ neg 5 ∷ pos 41 ∷ pos 23 ∷ [])
    ∷ (neg 30 ∷ neg 33 ∷ neg 46 ∷ neg 13 ∷ neg 10 ∷ [])
    ∷ (neg 38 ∷ pos 52 ∷ pos 52 ∷ pos 1 ∷ neg 17 ∷ [])
    ∷ (neg 9 ∷ pos 10 ∷ pos 26 ∷ neg 25 ∷ neg 6 ∷ [])
    ∷ (pos 33 ∷ neg 20 ∷ pos 53 ∷ pos 55 ∷ pos 25 ∷ [])
    ∷ (neg 32 ∷ neg 5 ∷ neg 42 ∷ pos 23 ∷ pos 21 ∷ [])
    ∷ (pos 66 ∷ pos 5 ∷ neg 28 ∷ pos 20 ∷ pos 9 ∷ [])
    ∷ (pos 75 ∷ pos 29 ∷ neg 7 ∷ neg 42 ∷ neg 39 ∷ [])
    ∷ (pos 15 ∷ pos 3 ∷ neg 23 ∷ pos 21 ∷ pos 6 ∷ [])
    ∷ (pos 11 ∷ pos 1 ∷ neg 29 ∷ pos 14 ∷ pos 63 ∷ [])
    ∷ (pos 10 ∷ pos 54 ∷ pos 26 ∷ neg 24 ∷ neg 51 ∷ [])
    ∷ (neg 49 ∷ pos 7 ∷ neg 23 ∷ neg 51 ∷ pos 15 ∷ [])
    ∷ (neg 66 ∷ pos 1 ∷ pos 60 ∷ pos 25 ∷ pos 10 ∷ [])
    ∷ (pos 0 ∷ neg 30 ∷ neg 4 ∷ neg 15 ∷ pos 17 ∷ [])
    ∷ (pos 19 ∷ pos 59 ∷ pos 40 ∷ pos 4 ∷ neg 5 ∷ [])
    ∷ (pos 33 ∷ pos 6 ∷ neg 22 ∷ neg 58 ∷ neg 70 ∷ [])
    ∷ (neg 5 ∷ pos 23 ∷ neg 6 ∷ pos 60 ∷ pos 44 ∷ [])
    ∷ (neg 29 ∷ neg 16 ∷ neg 47 ∷ neg 29 ∷ pos 52 ∷ [])
    ∷ (neg 19 ∷ pos 50 ∷ pos 28 ∷ pos 16 ∷ pos 35 ∷ [])
    ∷ (pos 31 ∷ pos 36 ∷ pos 0 ∷ neg 21 ∷ pos 6 ∷ [])
    ∷ (pos 21 ∷ pos 27 ∷ pos 22 ∷ pos 42 ∷ pos 7 ∷ [])
    ∷ (neg 66 ∷ neg 40 ∷ neg 8 ∷ pos 7 ∷ pos 19 ∷ [])
    ∷ (pos 46 ∷ pos 0 ∷ neg 4 ∷ pos 60 ∷ pos 36 ∷ [])
    ∷ (pos 45 ∷ neg 7 ∷ neg 29 ∷ neg 6 ∷ neg 32 ∷ [])
    ∷ (neg 39 ∷ pos 2 ∷ pos 6 ∷ neg 9 ∷ pos 33 ∷ [])
    ∷ (pos 20 ∷ neg 51 ∷ neg 34 ∷ pos 18 ∷ neg 6 ∷ [])
    ∷ (pos 19 ∷ pos 6 ∷ pos 11 ∷ pos 5 ∷ neg 19 ∷ [])
    ∷ (neg 29 ∷ neg 2 ∷ pos 42 ∷ neg 11 ∷ neg 45 ∷ [])
    ∷ (neg 21 ∷ neg 55 ∷ pos 57 ∷ pos 37 ∷ pos 2 ∷ [])
    ∷ (neg 14 ∷ neg 67 ∷ neg 16 ∷ neg 27 ∷ neg 38 ∷ [])
    ∷ (pos 69 ∷ pos 48 ∷ pos 19 ∷ pos 2 ∷ neg 17 ∷ [])
    ∷ (pos 20 ∷ neg 20 ∷ neg 16 ∷ neg 34 ∷ neg 17 ∷ [])
    ∷ (neg 25 ∷ neg 61 ∷ pos 10 ∷ pos 73 ∷ pos 45 ∷ [])
    ∷ (pos 16 ∷ neg 40 ∷ neg 64 ∷ neg 17 ∷ neg 29 ∷ [])
    ∷ (neg 22 ∷ pos 56 ∷ pos 17 ∷ neg 39 ∷ pos 8 ∷ [])
    ∷ (neg 11 ∷ pos 8 ∷ neg 25 ∷ neg 18 ∷ neg 13 ∷ [])
    ∷ (neg 19 ∷ pos 8 ∷ pos 54 ∷ pos 57 ∷ pos 36 ∷ [])
    ∷ (neg 17 ∷ neg 26 ∷ neg 4 ∷ pos 6 ∷ neg 21 ∷ [])
    ∷ (pos 40 ∷ pos 42 ∷ neg 4 ∷ pos 20 ∷ pos 31 ∷ [])
    ∷ (pos 53 ∷ pos 10 ∷ neg 34 ∷ neg 53 ∷ pos 31 ∷ [])
    ∷ (neg 17 ∷ pos 35 ∷ pos 0 ∷ pos 15 ∷ neg 6 ∷ [])
    ∷ (neg 20 ∷ neg 63 ∷ neg 73 ∷ pos 22 ∷ pos 25 ∷ [])
    ∷ (pos 29 ∷ pos 17 ∷ pos 8 ∷ neg 29 ∷ neg 39 ∷ [])
    ∷ (neg 69 ∷ pos 18 ∷ pos 15 ∷ neg 15 ∷ neg 5 ∷ [])
    ∷ [])

unfoldable pub cdbk_nb_high2 : List ℤ
cdbk_nb_high2 = join (
    (pos 11 ∷ pos 47 ∷ pos 16 ∷ neg 9 ∷ neg 46 ∷ [])
    ∷ (neg 32 ∷ pos 26 ∷ neg 64 ∷ pos 34 ∷ neg 5 ∷ [])
    ∷ (pos 38 ∷ neg 7 ∷ pos 47 ∷ pos 20 ∷ pos 2 ∷ [])
    ∷ (neg 73 ∷ neg 99 ∷ neg 3 ∷ neg 45 ∷ pos 20 ∷ [])
    ∷ (pos 70 ∷ neg 52 ∷ pos 15 ∷ neg 6 ∷ neg 7 ∷ [])
    ∷ (neg 82 ∷ pos 31 ∷ pos 21 ∷ pos 47 ∷ pos 51 ∷ [])
    ∷ (pos 39 ∷ neg 3 ∷ pos 9 ∷ pos 0 ∷ neg 41 ∷ [])
    ∷ (neg 7 ∷ neg 15 ∷ neg 54 ∷ pos 2 ∷ pos 0 ∷ [])
    ∷ (pos 27 ∷ neg 31 ∷ pos 9 ∷ neg 45 ∷ neg 22 ∷ [])
    ∷ (neg 38 ∷ neg 24 ∷ neg 24 ∷ pos 8 ∷ neg 33 ∷ [])
    ∷ (pos 23 ∷ pos 5 ∷ pos 50 ∷ neg 36 ∷ neg 17 ∷ [])
    ∷ (neg 18 ∷ neg 51 ∷ neg 2 ∷ pos 13 ∷ pos 19 ∷ [])
    ∷ (pos 43 ∷ pos 12 ∷ neg 15 ∷ neg 12 ∷ pos 61 ∷ [])
    ∷ (pos 38 ∷ pos 38 ∷ pos 7 ∷ pos 13 ∷ pos 0 ∷ [])
    ∷ (pos 6 ∷ neg 1 ∷ pos 3 ∷ pos 62 ∷ pos 9 ∷ [])
    ∷ (pos 27 ∷ pos 22 ∷ neg 33 ∷ pos 38 ∷ neg 35 ∷ [])
    ∷ (neg 9 ∷ pos 30 ∷ neg 43 ∷ neg 9 ∷ neg 32 ∷ [])
    ∷ (neg 1 ∷ pos 4 ∷ neg 4 ∷ pos 1 ∷ neg 5 ∷ [])
    ∷ (neg 11 ∷ neg 8 ∷ pos 38 ∷ pos 31 ∷ pos 11 ∷ [])
    ∷ (neg 10 ∷ neg 42 ∷ neg 21 ∷ neg 37 ∷ pos 1 ∷ [])
    ∷ (pos 43 ∷ pos 15 ∷ neg 13 ∷ neg 35 ∷ neg 19 ∷ [])
    ∷ (neg 18 ∷ pos 15 ∷ pos 23 ∷ neg 26 ∷ pos 59 ∷ [])
    ∷ (pos 1 ∷ neg 21 ∷ pos 53 ∷ pos 8 ∷ neg 41 ∷ [])
    ∷ (neg 50 ∷ neg 14 ∷ neg 28 ∷ pos 4 ∷ pos 21 ∷ [])
    ∷ (pos 25 ∷ neg 28 ∷ neg 40 ∷ pos 5 ∷ neg 40 ∷ [])
    ∷ (neg 41 ∷ pos 4 ∷ pos 51 ∷ neg 33 ∷ neg 8 ∷ [])
    ∷ (neg 8 ∷ pos 1 ∷ pos 17 ∷ neg 60 ∷ pos 12 ∷ [])
    ∷ (pos 25 ∷ neg 41 ∷ pos 17 ∷ pos 34 ∷ pos 43 ∷ [])
    ∷ (pos 19 ∷ pos 45 ∷ pos 7 ∷ neg 37 ∷ pos 24 ∷ [])
    ∷ (neg 15 ∷ pos 56 ∷ neg 2 ∷ pos 35 ∷ neg 10 ∷ [])
    ∷ (pos 48 ∷ pos 4 ∷ neg 47 ∷ neg 2 ∷ pos 5 ∷ [])
    ∷ (neg 5 ∷ neg 54 ∷ pos 5 ∷ neg 3 ∷ neg 33 ∷ [])
    ∷ (neg 10 ∷ pos 30 ∷ neg 2 ∷ neg 44 ∷ neg 24 ∷ [])
    ∷ (neg 38 ∷ pos 9 ∷ neg 9 ∷ pos 42 ∷ pos 4 ∷ [])
    ∷ (pos 6 ∷ neg 56 ∷ pos 44 ∷ neg 16 ∷ pos 9 ∷ [])
    ∷ (neg 40 ∷ neg 26 ∷ pos 18 ∷ neg 20 ∷ pos 10 ∷ [])
    ∷ (pos 28 ∷ neg 41 ∷ neg 21 ∷ neg 4 ∷ pos 13 ∷ [])
    ∷ (neg 18 ∷ pos 32 ∷ neg 30 ∷ neg 3 ∷ pos 37 ∷ [])
    ∷ (pos 15 ∷ pos 22 ∷ pos 28 ∷ pos 50 ∷ neg 40 ∷ [])
    ∷ (pos 3 ∷ neg 29 ∷ neg 64 ∷ pos 7 ∷ pos 51 ∷ [])
    ∷ (neg 19 ∷ neg 11 ∷ pos 17 ∷ neg 27 ∷ neg 40 ∷ [])
    ∷ (neg 64 ∷ pos 24 ∷ neg 12 ∷ neg 7 ∷ neg 27 ∷ [])
    ∷ (pos 3 ∷ pos 37 ∷ pos 48 ∷ neg 1 ∷ pos 2 ∷ [])
    ∷ (neg 9 ∷ neg 38 ∷ neg 34 ∷ pos 46 ∷ pos 1 ∷ [])
    ∷ (pos 27 ∷ neg 6 ∷ pos 19 ∷ neg 13 ∷ pos 26 ∷ [])
    ∷ (pos 10 ∷ pos 34 ∷ pos 20 ∷ pos 25 ∷ pos 40 ∷ [])
    ∷ (pos 50 ∷ neg 6 ∷ neg 7 ∷ pos 30 ∷ pos 9 ∷ [])
    ∷ (neg 24 ∷ pos 0 ∷ neg 23 ∷ pos 71 ∷ neg 61 ∷ [])
    ∷ (pos 22 ∷ pos 58 ∷ neg 34 ∷ neg 4 ∷ pos 2 ∷ [])
    ∷ (neg 49 ∷ neg 33 ∷ pos 25 ∷ pos 30 ∷ neg 8 ∷ [])
    ∷ (neg 6 ∷ neg 16 ∷ pos 77 ∷ pos 2 ∷ pos 38 ∷ [])
    ∷ (neg 8 ∷ neg 35 ∷ neg 6 ∷ neg 30 ∷ pos 56 ∷ [])
    ∷ (pos 78 ∷ pos 31 ∷ pos 33 ∷ neg 20 ∷ pos 13 ∷ [])
    ∷ (neg 39 ∷ pos 20 ∷ pos 22 ∷ pos 4 ∷ pos 21 ∷ [])
    ∷ (neg 8 ∷ pos 4 ∷ neg 6 ∷ pos 10 ∷ neg 83 ∷ [])
    ∷ (neg 41 ∷ pos 9 ∷ neg 25 ∷ neg 43 ∷ pos 15 ∷ [])
    ∷ (neg 7 ∷ neg 12 ∷ neg 34 ∷ neg 39 ∷ neg 37 ∷ [])
    ∷ (neg 33 ∷ pos 19 ∷ pos 30 ∷ pos 16 ∷ neg 33 ∷ [])
    ∷ (pos 42 ∷ neg 25 ∷ pos 25 ∷ neg 68 ∷ pos 44 ∷ [])
    ∷ (neg 15 ∷ neg 11 ∷ neg 4 ∷ pos 23 ∷ pos 50 ∷ [])
    ∷ (pos 14 ∷ pos 4 ∷ neg 39 ∷ neg 43 ∷ pos 20 ∷ [])
    ∷ (neg 30 ∷ pos 60 ∷ pos 9 ∷ neg 20 ∷ pos 7 ∷ [])
    ∷ (pos 16 ∷ pos 19 ∷ neg 33 ∷ pos 37 ∷ pos 29 ∷ [])
    ∷ (pos 16 ∷ neg 35 ∷ pos 7 ∷ pos 38 ∷ neg 27 ∷ [])
    ∷ [])
