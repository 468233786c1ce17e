-- ===== src/Codebook/LspNbLow.antt =====
-- libspeex/lsp_tables_nb.c: signed characters, in the order of the source.
use speex.Common.{List, [], ◌∷◌, ℤ, pos, neg, join}

unfoldable pub cdbk_nb_low1 : List ℤ
cdbk_nb_low1 = join (
    (neg 34 ∷ neg 52 ∷ neg 15 ∷ pos 45 ∷ pos 2 ∷ [])
    ∷ (pos 23 ∷ pos 21 ∷ pos 52 ∷ pos 24 ∷ neg 33 ∷ [])
    ∷ (neg 9 ∷ neg 1 ∷ pos 9 ∷ neg 44 ∷ neg 41 ∷ [])
    ∷ (neg 13 ∷ neg 17 ∷ pos 44 ∷ pos 22 ∷ neg 17 ∷ [])
    ∷ (neg 6 ∷ neg 4 ∷ neg 1 ∷ pos 22 ∷ pos 38 ∷ [])
    ∷ (pos 26 ∷ pos 16 ∷ pos 2 ∷ pos 50 ∷ pos 27 ∷ [])
    ∷ (neg 35 ∷ neg 34 ∷ neg 9 ∷ neg 41 ∷ pos 6 ∷ [])
    ∷ (pos 0 ∷ neg 16 ∷ neg 34 ∷ pos 51 ∷ pos 8 ∷ [])
    ∷ (neg 14 ∷ neg 31 ∷ neg 49 ∷ pos 15 ∷ neg 33 ∷ [])
    ∷ (pos 45 ∷ pos 49 ∷ pos 33 ∷ neg 11 ∷ neg 37 ∷ [])
    ∷ (neg 62 ∷ neg 54 ∷ pos 45 ∷ pos 11 ∷ neg 5 ∷ [])
    ∷ (neg 72 ∷ pos 11 ∷ neg 1 ∷ neg 12 ∷ neg 11 ∷ [])
    ∷ (pos 24 ∷ pos 27 ∷ neg 11 ∷ neg 43 ∷ pos 46 ∷ [])
    ∷ (pos 43 ∷ pos 33 ∷ neg 12 ∷ neg 9 ∷ neg 1 ∷ [])
    ∷ (pos 1 ∷ neg 4 ∷ neg 23 ∷ neg 57 ∷ neg 71 ∷ [])
    ∷ (pos 11 ∷ pos 8 ∷ pos 16 ∷ pos 17 ∷ neg 8 ∷ [])
    ∷ (neg 20 ∷ neg 31 ∷ neg 41 ∷ pos 53 ∷ pos 48 ∷ [])
    ∷ (neg 16 ∷ pos 3 ∷ pos 65 ∷ neg 24 ∷ neg 8 ∷ [])
    ∷ (neg 23 ∷ neg 32 ∷ neg 37 ∷ neg 32 ∷ neg 49 ∷ [])
    ∷ (neg 10 ∷ neg 17 ∷ pos 6 ∷ pos 38 ∷ pos 5 ∷ [])
    ∷ (neg 9 ∷ neg 17 ∷ neg 46 ∷ pos 8 ∷ pos 52 ∷ [])
    ∷ (pos 3 ∷ pos 6 ∷ pos 45 ∷ pos 40 ∷ pos 39 ∷ [])
    ∷ (neg 7 ∷ neg 6 ∷ neg 34 ∷ neg 74 ∷ pos 31 ∷ [])
    ∷ (pos 8 ∷ pos 1 ∷ neg 16 ∷ pos 43 ∷ pos 68 ∷ [])
    ∷ (neg 11 ∷ neg 19 ∷ neg 31 ∷ pos 4 ∷ pos 6 ∷ [])
    ∷ (pos 0 ∷ neg 6 ∷ neg 17 ∷ neg 16 ∷ neg 38 ∷ [])
    ∷ (neg 16 ∷ neg 30 ∷ pos 2 ∷ pos 9 ∷ neg 39 ∷ [])
    ∷ (neg 16 ∷ neg 1 ∷ pos 43 ∷ neg 10 ∷ pos 48 ∷ [])
    ∷ (pos 3 ∷ pos 3 ∷ neg 16 ∷ neg 31 ∷ neg 3 ∷ [])
    ∷ (pos 62 ∷ pos 68 ∷ pos 43 ∷ pos 13 ∷ pos 3 ∷ [])
    ∷ (neg 10 ∷ pos 8 ∷ pos 20 ∷ neg 56 ∷ pos 12 ∷ [])
    ∷ (pos 12 ∷ neg 2 ∷ neg 18 ∷ pos 22 ∷ neg 15 ∷ [])
    ∷ (neg 40 ∷ neg 36 ∷ pos 1 ∷ pos 7 ∷ pos 41 ∷ [])
    ∷ (pos 0 ∷ pos 1 ∷ pos 46 ∷ neg 6 ∷ neg 62 ∷ [])
    ∷ (neg 4 ∷ neg 12 ∷ neg 2 ∷ neg 11 ∷ neg 83 ∷ [])
    ∷ (neg 13 ∷ neg 2 ∷ pos 91 ∷ pos 33 ∷ neg 10 ∷ [])
    ∷ (pos 0 ∷ pos 4 ∷ neg 11 ∷ neg 16 ∷ pos 79 ∷ [])
    ∷ (pos 32 ∷ pos 37 ∷ pos 14 ∷ pos 9 ∷ pos 51 ∷ [])
    ∷ (neg 21 ∷ neg 28 ∷ neg 56 ∷ neg 34 ∷ pos 0 ∷ [])
    ∷ (pos 21 ∷ pos 9 ∷ neg 26 ∷ pos 11 ∷ pos 28 ∷ [])
    ∷ (neg 42 ∷ neg 54 ∷ neg 23 ∷ neg 2 ∷ neg 15 ∷ [])
    ∷ (pos 31 ∷ pos 30 ∷ pos 8 ∷ neg 39 ∷ neg 66 ∷ [])
    ∷ (neg 39 ∷ neg 36 ∷ pos 31 ∷ neg 28 ∷ neg 40 ∷ [])
    ∷ (neg 46 ∷ pos 35 ∷ pos 40 ∷ pos 22 ∷ pos 24 ∷ [])
    ∷ (pos 33 ∷ pos 48 ∷ pos 23 ∷ neg 34 ∷ pos 14 ∷ [])
    ∷ (pos 40 ∷ pos 32 ∷ pos 17 ∷ pos 27 ∷ neg 3 ∷ [])
    ∷ (pos 25 ∷ pos 26 ∷ neg 13 ∷ neg 61 ∷ neg 17 ∷ [])
    ∷ (pos 11 ∷ pos 4 ∷ pos 31 ∷ pos 60 ∷ neg 6 ∷ [])
    ∷ (neg 26 ∷ neg 41 ∷ neg 64 ∷ pos 13 ∷ pos 16 ∷ [])
    ∷ (neg 26 ∷ pos 54 ∷ pos 31 ∷ neg 11 ∷ neg 23 ∷ [])
    ∷ (neg 9 ∷ neg 11 ∷ neg 34 ∷ neg 71 ∷ neg 21 ∷ [])
    ∷ (neg 34 ∷ neg 35 ∷ pos 55 ∷ pos 50 ∷ pos 29 ∷ [])
    ∷ (neg 22 ∷ neg 27 ∷ neg 50 ∷ neg 38 ∷ pos 57 ∷ [])
    ∷ (pos 33 ∷ pos 42 ∷ pos 57 ∷ pos 48 ∷ pos 26 ∷ [])
    ∷ (pos 11 ∷ pos 0 ∷ neg 49 ∷ neg 31 ∷ pos 26 ∷ [])
    ∷ (neg 4 ∷ neg 14 ∷ pos 5 ∷ pos 78 ∷ pos 37 ∷ [])
    ∷ (pos 17 ∷ pos 0 ∷ neg 49 ∷ neg 12 ∷ neg 23 ∷ [])
    ∷ (pos 26 ∷ pos 14 ∷ pos 2 ∷ pos 2 ∷ neg 43 ∷ [])
    ∷ (neg 17 ∷ neg 12 ∷ pos 10 ∷ neg 8 ∷ neg 4 ∷ [])
    ∷ (pos 8 ∷ pos 18 ∷ pos 12 ∷ neg 6 ∷ pos 20 ∷ [])
    ∷ (neg 12 ∷ neg 6 ∷ neg 13 ∷ neg 25 ∷ pos 34 ∷ [])
    ∷ (pos 15 ∷ pos 40 ∷ pos 49 ∷ pos 7 ∷ pos 8 ∷ [])
    ∷ (pos 13 ∷ pos 20 ∷ pos 20 ∷ neg 19 ∷ neg 22 ∷ [])
    ∷ (neg 2 ∷ neg 8 ∷ pos 2 ∷ pos 51 ∷ neg 51 ∷ [])
    ∷ [])

unfoldable pub cdbk_nb_low2 : List ℤ
cdbk_nb_low2 = join (
    (neg 6 ∷ pos 53 ∷ neg 21 ∷ neg 24 ∷ pos 4 ∷ [])
    ∷ (pos 26 ∷ pos 17 ∷ neg 4 ∷ neg 37 ∷ pos 25 ∷ [])
    ∷ (pos 17 ∷ neg 36 ∷ neg 13 ∷ pos 31 ∷ pos 3 ∷ [])
    ∷ (neg 6 ∷ pos 27 ∷ pos 15 ∷ neg 10 ∷ pos 31 ∷ [])
    ∷ (pos 28 ∷ pos 26 ∷ neg 10 ∷ neg 10 ∷ neg 40 ∷ [])
    ∷ (pos 16 ∷ neg 7 ∷ pos 15 ∷ pos 13 ∷ pos 41 ∷ [])
    ∷ (neg 9 ∷ pos 0 ∷ neg 4 ∷ pos 50 ∷ neg 6 ∷ [])
    ∷ (neg 7 ∷ pos 14 ∷ pos 38 ∷ pos 22 ∷ pos 0 ∷ [])
    ∷ (neg 48 ∷ pos 2 ∷ pos 1 ∷ neg 13 ∷ neg 19 ∷ [])
    ∷ (pos 32 ∷ neg 3 ∷ neg 60 ∷ pos 11 ∷ neg 17 ∷ [])
    ∷ (neg 1 ∷ neg 24 ∷ neg 34 ∷ neg 1 ∷ pos 35 ∷ [])
    ∷ (neg 5 ∷ neg 27 ∷ pos 28 ∷ pos 44 ∷ pos 13 ∷ [])
    ∷ (pos 25 ∷ pos 15 ∷ pos 42 ∷ neg 11 ∷ pos 15 ∷ [])
    ∷ (pos 51 ∷ pos 35 ∷ neg 36 ∷ pos 20 ∷ pos 8 ∷ [])
    ∷ (neg 4 ∷ neg 12 ∷ neg 29 ∷ pos 19 ∷ neg 47 ∷ [])
    ∷ (pos 49 ∷ neg 15 ∷ neg 4 ∷ pos 16 ∷ neg 29 ∷ [])
    ∷ (neg 39 ∷ pos 14 ∷ neg 30 ∷ pos 4 ∷ pos 25 ∷ [])
    ∷ (neg 9 ∷ neg 5 ∷ neg 51 ∷ neg 14 ∷ neg 3 ∷ [])
    ∷ (neg 40 ∷ neg 32 ∷ pos 38 ∷ pos 5 ∷ neg 9 ∷ [])
    ∷ (neg 8 ∷ neg 4 ∷ neg 1 ∷ neg 22 ∷ pos 71 ∷ [])
    ∷ (neg 3 ∷ pos 14 ∷ pos 26 ∷ neg 18 ∷ neg 22 ∷ [])
    ∷ (pos 24 ∷ neg 41 ∷ neg 25 ∷ neg 24 ∷ pos 6 ∷ [])
    ∷ (pos 23 ∷ pos 19 ∷ neg 10 ∷ pos 39 ∷ neg 26 ∷ [])
    ∷ (neg 27 ∷ pos 65 ∷ pos 45 ∷ pos 2 ∷ neg 7 ∷ [])
    ∷ (neg 26 ∷ neg 8 ∷ pos 22 ∷ neg 12 ∷ pos 16 ∷ [])
    ∷ (pos 15 ∷ pos 16 ∷ neg 35 ∷ neg 5 ∷ pos 33 ∷ [])
    ∷ (neg 21 ∷ neg 8 ∷ pos 0 ∷ pos 23 ∷ pos 33 ∷ [])
    ∷ (pos 34 ∷ pos 6 ∷ pos 21 ∷ pos 36 ∷ pos 6 ∷ [])
    ∷ (neg 7 ∷ neg 22 ∷ pos 8 ∷ neg 37 ∷ neg 14 ∷ [])
    ∷ (pos 31 ∷ pos 38 ∷ pos 11 ∷ neg 4 ∷ neg 3 ∷ [])
    ∷ (neg 39 ∷ neg 32 ∷ neg 8 ∷ pos 32 ∷ neg 23 ∷ [])
    ∷ (neg 6 ∷ neg 12 ∷ pos 16 ∷ pos 20 ∷ neg 28 ∷ [])
    ∷ (neg 4 ∷ pos 23 ∷ pos 13 ∷ neg 52 ∷ neg 1 ∷ [])
    ∷ (pos 22 ∷ pos 6 ∷ neg 33 ∷ neg 40 ∷ neg 6 ∷ [])
    ∷ (pos 4 ∷ neg 62 ∷ pos 13 ∷ pos 5 ∷ neg 26 ∷ [])
    ∷ (pos 35 ∷ pos 39 ∷ pos 11 ∷ pos 2 ∷ pos 57 ∷ [])
    ∷ (neg 11 ∷ pos 9 ∷ neg 20 ∷ neg 28 ∷ neg 33 ∷ [])
    ∷ (pos 52 ∷ neg 5 ∷ neg 6 ∷ neg 2 ∷ pos 22 ∷ [])
    ∷ (neg 14 ∷ neg 16 ∷ neg 48 ∷ pos 35 ∷ pos 1 ∷ [])
    ∷ (neg 58 ∷ pos 20 ∷ pos 13 ∷ pos 33 ∷ neg 1 ∷ [])
    ∷ (neg 74 ∷ pos 56 ∷ neg 18 ∷ neg 22 ∷ neg 31 ∷ [])
    ∷ (pos 12 ∷ pos 6 ∷ neg 14 ∷ pos 4 ∷ neg 2 ∷ [])
    ∷ (neg 9 ∷ neg 47 ∷ pos 10 ∷ neg 3 ∷ pos 29 ∷ [])
    ∷ (neg 17 ∷ neg 5 ∷ pos 61 ∷ pos 14 ∷ pos 47 ∷ [])
    ∷ (neg 12 ∷ pos 2 ∷ pos 72 ∷ neg 39 ∷ neg 17 ∷ [])
    ∷ (pos 92 ∷ pos 64 ∷ neg 53 ∷ neg 51 ∷ neg 15 ∷ [])
    ∷ (neg 30 ∷ neg 38 ∷ neg 41 ∷ neg 29 ∷ neg 28 ∷ [])
    ∷ (pos 27 ∷ pos 9 ∷ pos 36 ∷ pos 9 ∷ neg 35 ∷ [])
    ∷ (neg 42 ∷ pos 81 ∷ neg 21 ∷ pos 20 ∷ pos 25 ∷ [])
    ∷ (neg 16 ∷ neg 5 ∷ neg 17 ∷ neg 35 ∷ pos 21 ∷ [])
    ∷ (pos 15 ∷ neg 28 ∷ pos 48 ∷ pos 2 ∷ neg 2 ∷ [])
    ∷ (pos 9 ∷ neg 19 ∷ pos 29 ∷ neg 40 ∷ pos 30 ∷ [])
    ∷ (neg 18 ∷ neg 18 ∷ pos 18 ∷ neg 16 ∷ neg 57 ∷ [])
    ∷ (pos 15 ∷ neg 20 ∷ neg 12 ∷ neg 15 ∷ neg 37 ∷ [])
    ∷ (neg 15 ∷ pos 33 ∷ neg 39 ∷ pos 21 ∷ neg 22 ∷ [])
    ∷ (neg 13 ∷ pos 35 ∷ pos 11 ∷ pos 13 ∷ neg 38 ∷ [])
    ∷ (neg 63 ∷ pos 29 ∷ pos 23 ∷ neg 27 ∷ pos 32 ∷ [])
    ∷ (pos 18 ∷ pos 3 ∷ neg 26 ∷ pos 42 ∷ pos 33 ∷ [])
    ∷ (neg 64 ∷ neg 66 ∷ neg 17 ∷ pos 16 ∷ pos 56 ∷ [])
    ∷ (pos 2 ∷ pos 36 ∷ pos 3 ∷ pos 31 ∷ pos 21 ∷ [])
    ∷ (neg 41 ∷ neg 39 ∷ pos 8 ∷ neg 57 ∷ pos 14 ∷ [])
    ∷ (pos 37 ∷ neg 2 ∷ pos 19 ∷ neg 36 ∷ neg 19 ∷ [])
    ∷ (neg 23 ∷ neg 29 ∷ neg 16 ∷ pos 1 ∷ neg 3 ∷ [])
    ∷ (neg 8 ∷ neg 10 ∷ pos 31 ∷ pos 64 ∷ neg 65 ∷ [])
    ∷ [])
