-- ===== src/Codebook/LspHigh.antt =====
-- libspeex/high_lsp_tables.c: signed characters, in the order of the source.
use speex.Common.{List, [], ◌∷◌, ℤ, pos, neg, join}

unfoldable pub high_lsp_cdbk : List ℤ
high_lsp_cdbk = join (
    (pos 39 ∷ pos 12 ∷ neg 14 ∷ neg 20 ∷ neg 29 ∷ neg 61 ∷ neg 67 ∷ neg 76 ∷ [])
    ∷ (neg 32 ∷ neg 71 ∷ neg 67 ∷ pos 68 ∷ pos 77 ∷ pos 46 ∷ pos 34 ∷ pos 5 ∷ [])
    ∷ (neg 13 ∷ neg 48 ∷ neg 46 ∷ neg 72 ∷ neg 81 ∷ neg 84 ∷ neg 60 ∷ neg 58 ∷ [])
    ∷ (neg 40 ∷ neg 28 ∷ pos 82 ∷ pos 93 ∷ pos 68 ∷ pos 45 ∷ pos 29 ∷ pos 3 ∷ [])
    ∷ (neg 19 ∷ neg 47 ∷ neg 28 ∷ neg 43 ∷ neg 35 ∷ neg 30 ∷ neg 8 ∷ neg 13 ∷ [])
    ∷ (neg 39 ∷ neg 91 ∷ neg 91 ∷ neg 123 ∷ neg 96 ∷ pos 10 ∷ pos 10 ∷ neg 6 ∷ [])
    ∷ (neg 18 ∷ neg 55 ∷ neg 60 ∷ neg 91 ∷ neg 56 ∷ neg 36 ∷ neg 27 ∷ neg 16 ∷ [])
    ∷ (neg 48 ∷ neg 75 ∷ pos 40 ∷ pos 28 ∷ neg 10 ∷ neg 28 ∷ pos 35 ∷ pos 9 ∷ [])
    ∷ (pos 37 ∷ pos 19 ∷ pos 1 ∷ neg 20 ∷ neg 31 ∷ neg 41 ∷ neg 18 ∷ neg 25 ∷ [])
    ∷ (neg 35 ∷ neg 68 ∷ neg 80 ∷ pos 45 ∷ pos 27 ∷ neg 1 ∷ pos 47 ∷ pos 13 ∷ [])
    ∷ (pos 0 ∷ neg 29 ∷ neg 35 ∷ neg 57 ∷ neg 50 ∷ neg 79 ∷ neg 73 ∷ neg 38 ∷ [])
    ∷ (neg 19 ∷ pos 5 ∷ pos 35 ∷ pos 14 ∷ neg 10 ∷ neg 23 ∷ pos 16 ∷ neg 8 ∷ [])
    ∷ (pos 5 ∷ neg 24 ∷ neg 40 ∷ neg 62 ∷ neg 23 ∷ neg 27 ∷ neg 22 ∷ neg 16 ∷ [])
    ∷ (neg 18 ∷ neg 46 ∷ neg 72 ∷ neg 77 ∷ pos 43 ∷ pos 21 ∷ pos 33 ∷ pos 1 ∷ [])
    ∷ (neg 80 ∷ neg 70 ∷ neg 70 ∷ neg 64 ∷ neg 56 ∷ neg 52 ∷ neg 39 ∷ neg 33 ∷ [])
    ∷ (neg 31 ∷ neg 38 ∷ neg 19 ∷ neg 19 ∷ neg 15 ∷ pos 32 ∷ pos 33 ∷ neg 2 ∷ [])
    ∷ (pos 7 ∷ neg 15 ∷ neg 15 ∷ neg 24 ∷ neg 23 ∷ neg 33 ∷ neg 41 ∷ neg 56 ∷ [])
    ∷ (neg 24 ∷ neg 57 ∷ pos 5 ∷ pos 89 ∷ pos 64 ∷ pos 41 ∷ pos 27 ∷ pos 5 ∷ [])
    ∷ (neg 9 ∷ neg 47 ∷ neg 60 ∷ neg 97 ∷ neg 97 ∷ neg 124 ∷ neg 20 ∷ neg 9 ∷ [])
    ∷ (neg 44 ∷ neg 73 ∷ pos 31 ∷ pos 29 ∷ neg 4 ∷ pos 64 ∷ pos 48 ∷ pos 7 ∷ [])
    ∷ (neg 35 ∷ neg 57 ∷ pos 0 ∷ neg 3 ∷ neg 26 ∷ neg 47 ∷ neg 3 ∷ neg 6 ∷ [])
    ∷ (neg 40 ∷ neg 76 ∷ neg 79 ∷ neg 48 ∷ pos 12 ∷ pos 81 ∷ pos 55 ∷ pos 10 ∷ [])
    ∷ (pos 9 ∷ neg 24 ∷ neg 43 ∷ neg 73 ∷ neg 57 ∷ neg 69 ∷ pos 16 ∷ pos 5 ∷ [])
    ∷ (neg 28 ∷ neg 53 ∷ pos 18 ∷ pos 29 ∷ pos 20 ∷ pos 0 ∷ neg 4 ∷ neg 11 ∷ [])
    ∷ (pos 6 ∷ neg 13 ∷ pos 23 ∷ pos 7 ∷ neg 17 ∷ neg 35 ∷ neg 37 ∷ neg 37 ∷ [])
    ∷ (neg 30 ∷ neg 68 ∷ neg 63 ∷ pos 6 ∷ pos 24 ∷ neg 9 ∷ neg 14 ∷ pos 3 ∷ [])
    ∷ (pos 21 ∷ neg 13 ∷ neg 27 ∷ neg 57 ∷ neg 49 ∷ neg 80 ∷ neg 24 ∷ neg 41 ∷ [])
    ∷ (neg 5 ∷ neg 16 ∷ neg 5 ∷ pos 1 ∷ pos 45 ∷ pos 25 ∷ pos 12 ∷ neg 7 ∷ [])
    ∷ (pos 3 ∷ neg 15 ∷ neg 6 ∷ neg 16 ∷ neg 15 ∷ neg 8 ∷ pos 6 ∷ neg 13 ∷ [])
    ∷ (neg 42 ∷ neg 81 ∷ neg 80 ∷ neg 87 ∷ pos 14 ∷ pos 1 ∷ neg 10 ∷ neg 3 ∷ [])
    ∷ (neg 43 ∷ neg 69 ∷ neg 46 ∷ neg 24 ∷ neg 28 ∷ neg 29 ∷ pos 36 ∷ pos 6 ∷ [])
    ∷ (neg 43 ∷ neg 56 ∷ neg 12 ∷ pos 12 ∷ pos 54 ∷ pos 79 ∷ pos 43 ∷ pos 9 ∷ [])
    ∷ (pos 54 ∷ pos 22 ∷ pos 2 ∷ pos 8 ∷ neg 12 ∷ neg 43 ∷ neg 46 ∷ neg 52 ∷ [])
    ∷ (neg 38 ∷ neg 69 ∷ neg 89 ∷ neg 5 ∷ pos 75 ∷ pos 38 ∷ pos 33 ∷ pos 5 ∷ [])
    ∷ (neg 13 ∷ neg 53 ∷ neg 62 ∷ neg 87 ∷ neg 89 ∷ neg 113 ∷ neg 99 ∷ neg 55 ∷ [])
    ∷ (neg 34 ∷ neg 37 ∷ pos 62 ∷ pos 55 ∷ pos 33 ∷ pos 16 ∷ pos 21 ∷ neg 2 ∷ [])
    ∷ (neg 17 ∷ neg 46 ∷ neg 29 ∷ neg 38 ∷ neg 38 ∷ neg 48 ∷ neg 39 ∷ neg 42 ∷ [])
    ∷ (neg 36 ∷ neg 75 ∷ neg 72 ∷ neg 88 ∷ neg 48 ∷ neg 30 ∷ pos 21 ∷ pos 2 ∷ [])
    ∷ (neg 15 ∷ neg 57 ∷ neg 64 ∷ neg 98 ∷ neg 84 ∷ neg 76 ∷ pos 25 ∷ pos 1 ∷ [])
    ∷ (neg 46 ∷ neg 80 ∷ neg 12 ∷ pos 18 ∷ neg 7 ∷ pos 3 ∷ pos 34 ∷ pos 6 ∷ [])
    ∷ (pos 38 ∷ pos 31 ∷ pos 23 ∷ pos 4 ∷ neg 1 ∷ pos 20 ∷ pos 14 ∷ neg 15 ∷ [])
    ∷ (neg 43 ∷ neg 78 ∷ neg 91 ∷ neg 24 ∷ pos 14 ∷ neg 3 ∷ pos 54 ∷ pos 16 ∷ [])
    ∷ (pos 0 ∷ neg 27 ∷ neg 28 ∷ neg 44 ∷ neg 56 ∷ neg 83 ∷ neg 92 ∷ neg 89 ∷ [])
    ∷ (neg 3 ∷ pos 34 ∷ pos 56 ∷ pos 41 ∷ pos 36 ∷ pos 22 ∷ pos 20 ∷ neg 8 ∷ [])
    ∷ (neg 7 ∷ neg 35 ∷ neg 42 ∷ neg 62 ∷ neg 49 ∷ pos 3 ∷ pos 12 ∷ neg 10 ∷ [])
    ∷ (neg 50 ∷ neg 87 ∷ neg 96 ∷ neg 66 ∷ pos 92 ∷ pos 70 ∷ pos 38 ∷ pos 9 ∷ [])
    ∷ (neg 70 ∷ neg 71 ∷ neg 62 ∷ neg 42 ∷ neg 39 ∷ neg 43 ∷ neg 11 ∷ neg 7 ∷ [])
    ∷ (neg 50 ∷ neg 79 ∷ neg 58 ∷ neg 50 ∷ neg 31 ∷ pos 32 ∷ pos 31 ∷ neg 6 ∷ [])
    ∷ (neg 4 ∷ neg 25 ∷ pos 7 ∷ neg 17 ∷ neg 38 ∷ neg 70 ∷ neg 58 ∷ neg 27 ∷ [])
    ∷ (neg 43 ∷ neg 83 ∷ neg 28 ∷ pos 59 ∷ pos 36 ∷ pos 20 ∷ pos 31 ∷ pos 2 ∷ [])
    ∷ (neg 27 ∷ neg 71 ∷ neg 80 ∷ neg 109 ∷ neg 98 ∷ neg 75 ∷ neg 33 ∷ neg 32 ∷ [])
    ∷ (neg 31 ∷ neg 2 ∷ pos 33 ∷ pos 15 ∷ neg 6 ∷ pos 43 ∷ pos 33 ∷ neg 5 ∷ [])
    ∷ (pos 0 ∷ neg 22 ∷ neg 10 ∷ neg 27 ∷ neg 34 ∷ neg 49 ∷ neg 11 ∷ neg 20 ∷ [])
    ∷ (neg 41 ∷ neg 91 ∷ neg 100 ∷ neg 121 ∷ neg 39 ∷ pos 57 ∷ pos 41 ∷ pos 10 ∷ [])
    ∷ (neg 19 ∷ neg 50 ∷ neg 38 ∷ neg 59 ∷ neg 60 ∷ neg 70 ∷ neg 18 ∷ neg 20 ∷ [])
    ∷ (neg 8 ∷ neg 31 ∷ neg 8 ∷ neg 15 ∷ pos 1 ∷ neg 14 ∷ neg 26 ∷ neg 25 ∷ [])
    ∷ (pos 33 ∷ pos 21 ∷ pos 32 ∷ pos 17 ∷ pos 1 ∷ neg 19 ∷ neg 19 ∷ neg 26 ∷ [])
    ∷ (neg 58 ∷ neg 81 ∷ neg 35 ∷ neg 22 ∷ pos 45 ∷ pos 30 ∷ pos 11 ∷ neg 11 ∷ [])
    ∷ (pos 3 ∷ neg 26 ∷ neg 48 ∷ neg 87 ∷ neg 67 ∷ neg 83 ∷ neg 58 ∷ pos 3 ∷ [])
    ∷ (neg 1 ∷ neg 26 ∷ neg 20 ∷ pos 44 ∷ pos 10 ∷ pos 25 ∷ pos 39 ∷ pos 5 ∷ [])
    ∷ (neg 9 ∷ neg 35 ∷ neg 27 ∷ neg 38 ∷ pos 7 ∷ pos 10 ∷ pos 4 ∷ neg 9 ∷ [])
    ∷ (neg 42 ∷ neg 85 ∷ neg 102 ∷ neg 127 ∷ pos 52 ∷ pos 44 ∷ pos 28 ∷ pos 10 ∷ [])
    ∷ (neg 47 ∷ neg 61 ∷ neg 40 ∷ neg 39 ∷ neg 17 ∷ neg 1 ∷ neg 10 ∷ neg 33 ∷ [])
    ∷ (neg 42 ∷ neg 74 ∷ neg 48 ∷ pos 21 ∷ neg 4 ∷ pos 70 ∷ pos 52 ∷ pos 10 ∷ [])
    ∷ [])

unfoldable pub high_lsp_cdbk2 : List ℤ
high_lsp_cdbk2 = join (
    (neg 36 ∷ neg 62 ∷ pos 6 ∷ neg 9 ∷ neg 10 ∷ neg 14 ∷ neg 56 ∷ pos 23 ∷ [])
    ∷ (pos 1 ∷ neg 26 ∷ pos 23 ∷ neg 48 ∷ neg 17 ∷ pos 12 ∷ pos 8 ∷ neg 7 ∷ [])
    ∷ (pos 23 ∷ pos 29 ∷ neg 36 ∷ neg 28 ∷ neg 6 ∷ neg 29 ∷ neg 17 ∷ neg 5 ∷ [])
    ∷ (pos 40 ∷ pos 23 ∷ pos 10 ∷ pos 10 ∷ neg 46 ∷ neg 13 ∷ pos 36 ∷ pos 6 ∷ [])
    ∷ (pos 4 ∷ neg 30 ∷ neg 29 ∷ pos 62 ∷ pos 32 ∷ neg 32 ∷ neg 1 ∷ pos 22 ∷ [])
    ∷ (neg 14 ∷ pos 1 ∷ neg 4 ∷ neg 22 ∷ neg 45 ∷ pos 2 ∷ pos 54 ∷ pos 4 ∷ [])
    ∷ (neg 30 ∷ neg 57 ∷ neg 59 ∷ neg 12 ∷ pos 27 ∷ neg 3 ∷ neg 31 ∷ pos 8 ∷ [])
    ∷ (neg 9 ∷ pos 5 ∷ pos 10 ∷ neg 14 ∷ pos 32 ∷ pos 66 ∷ pos 19 ∷ pos 9 ∷ [])
    ∷ (pos 2 ∷ neg 25 ∷ neg 37 ∷ pos 23 ∷ neg 15 ∷ pos 18 ∷ neg 38 ∷ neg 31 ∷ [])
    ∷ (pos 5 ∷ neg 9 ∷ neg 21 ∷ pos 15 ∷ pos 0 ∷ pos 22 ∷ pos 62 ∷ pos 30 ∷ [])
    ∷ (pos 15 ∷ neg 12 ∷ neg 14 ∷ neg 46 ∷ pos 77 ∷ pos 21 ∷ pos 33 ∷ pos 3 ∷ [])
    ∷ (pos 34 ∷ pos 29 ∷ neg 19 ∷ pos 50 ∷ pos 2 ∷ pos 11 ∷ pos 9 ∷ neg 38 ∷ [])
    ∷ (neg 12 ∷ neg 37 ∷ pos 62 ∷ pos 1 ∷ neg 15 ∷ pos 54 ∷ pos 32 ∷ pos 6 ∷ [])
    ∷ (pos 2 ∷ neg 24 ∷ pos 20 ∷ pos 35 ∷ neg 21 ∷ pos 2 ∷ pos 19 ∷ pos 24 ∷ [])
    ∷ (neg 13 ∷ pos 55 ∷ pos 4 ∷ pos 9 ∷ pos 39 ∷ neg 19 ∷ pos 30 ∷ neg 1 ∷ [])
    ∷ (neg 21 ∷ pos 73 ∷ pos 54 ∷ pos 33 ∷ pos 8 ∷ pos 18 ∷ pos 3 ∷ pos 15 ∷ [])
    ∷ (pos 6 ∷ neg 19 ∷ neg 47 ∷ pos 6 ∷ neg 3 ∷ neg 48 ∷ neg 50 ∷ pos 1 ∷ [])
    ∷ (pos 26 ∷ pos 20 ∷ pos 8 ∷ neg 23 ∷ neg 50 ∷ pos 65 ∷ neg 14 ∷ neg 55 ∷ [])
    ∷ (neg 17 ∷ neg 31 ∷ neg 37 ∷ neg 28 ∷ pos 53 ∷ neg 1 ∷ neg 17 ∷ neg 53 ∷ [])
    ∷ (pos 1 ∷ pos 57 ∷ pos 11 ∷ neg 8 ∷ neg 25 ∷ neg 30 ∷ neg 37 ∷ pos 64 ∷ [])
    ∷ (pos 5 ∷ neg 52 ∷ neg 45 ∷ pos 15 ∷ pos 23 ∷ pos 31 ∷ pos 15 ∷ pos 14 ∷ [])
    ∷ (neg 25 ∷ pos 24 ∷ pos 33 ∷ neg 2 ∷ neg 44 ∷ neg 56 ∷ neg 18 ∷ pos 6 ∷ [])
    ∷ (neg 21 ∷ neg 43 ∷ pos 4 ∷ neg 12 ∷ pos 17 ∷ neg 37 ∷ pos 20 ∷ neg 10 ∷ [])
    ∷ (pos 34 ∷ pos 15 ∷ pos 2 ∷ pos 15 ∷ pos 55 ∷ pos 21 ∷ neg 11 ∷ neg 31 ∷ [])
    ∷ (neg 6 ∷ pos 46 ∷ pos 25 ∷ pos 16 ∷ neg 9 ∷ neg 25 ∷ neg 8 ∷ neg 62 ∷ [])
    ∷ (pos 28 ∷ pos 17 ∷ pos 20 ∷ neg 32 ∷ neg 29 ∷ pos 26 ∷ pos 30 ∷ pos 25 ∷ [])
    ∷ (neg 19 ∷ pos 2 ∷ neg 16 ∷ neg 17 ∷ pos 26 ∷ neg 51 ∷ pos 2 ∷ pos 50 ∷ [])
    ∷ (pos 42 ∷ pos 19 ∷ neg 66 ∷ pos 23 ∷ pos 29 ∷ neg 2 ∷ pos 3 ∷ pos 19 ∷ [])
    ∷ (neg 19 ∷ neg 37 ∷ pos 32 ∷ pos 15 ∷ pos 6 ∷ pos 30 ∷ neg 34 ∷ pos 13 ∷ [])
    ∷ (pos 11 ∷ neg 5 ∷ pos 40 ∷ pos 31 ∷ pos 10 ∷ neg 42 ∷ pos 4 ∷ neg 9 ∷ [])
    ∷ (pos 26 ∷ neg 9 ∷ neg 70 ∷ pos 17 ∷ neg 2 ∷ neg 23 ∷ pos 20 ∷ neg 22 ∷ [])
    ∷ (neg 55 ∷ pos 51 ∷ neg 24 ∷ neg 31 ∷ pos 22 ∷ neg 22 ∷ pos 15 ∷ neg 13 ∷ [])
    ∷ (pos 3 ∷ neg 10 ∷ neg 28 ∷ neg 16 ∷ pos 56 ∷ pos 4 ∷ neg 63 ∷ pos 11 ∷ [])
    ∷ (neg 18 ∷ neg 15 ∷ neg 18 ∷ neg 38 ∷ neg 35 ∷ pos 16 ∷ neg 7 ∷ pos 34 ∷ [])
    ∷ (neg 1 ∷ neg 21 ∷ neg 49 ∷ neg 47 ∷ pos 9 ∷ neg 37 ∷ pos 7 ∷ pos 8 ∷ [])
    ∷ (pos 69 ∷ pos 55 ∷ pos 20 ∷ pos 6 ∷ neg 33 ∷ neg 45 ∷ neg 10 ∷ neg 9 ∷ [])
    ∷ (pos 6 ∷ neg 9 ∷ pos 12 ∷ pos 71 ∷ pos 15 ∷ neg 3 ∷ neg 42 ∷ neg 7 ∷ [])
    ∷ (neg 24 ∷ pos 32 ∷ neg 35 ∷ neg 2 ∷ neg 42 ∷ neg 17 ∷ neg 5 ∷ pos 0 ∷ [])
    ∷ (neg 2 ∷ neg 33 ∷ neg 54 ∷ pos 13 ∷ neg 12 ∷ neg 34 ∷ pos 47 ∷ pos 23 ∷ [])
    ∷ (pos 19 ∷ pos 55 ∷ pos 7 ∷ neg 8 ∷ pos 74 ∷ pos 31 ∷ pos 14 ∷ pos 16 ∷ [])
    ∷ (neg 23 ∷ neg 26 ∷ pos 19 ∷ pos 12 ∷ neg 18 ∷ neg 49 ∷ neg 28 ∷ neg 31 ∷ [])
    ∷ (neg 20 ∷ pos 2 ∷ neg 14 ∷ neg 20 ∷ neg 47 ∷ pos 78 ∷ pos 40 ∷ pos 13 ∷ [])
    ∷ (neg 23 ∷ neg 11 ∷ pos 21 ∷ neg 6 ∷ pos 18 ∷ pos 1 ∷ pos 47 ∷ pos 5 ∷ [])
    ∷ (pos 38 ∷ pos 35 ∷ pos 32 ∷ pos 46 ∷ pos 22 ∷ pos 8 ∷ pos 13 ∷ pos 16 ∷ [])
    ∷ (neg 14 ∷ pos 18 ∷ pos 51 ∷ pos 19 ∷ pos 40 ∷ pos 39 ∷ pos 11 ∷ neg 26 ∷ [])
    ∷ (neg 1 ∷ neg 17 ∷ pos 47 ∷ pos 2 ∷ neg 53 ∷ neg 15 ∷ pos 31 ∷ neg 22 ∷ [])
    ∷ (pos 38 ∷ pos 21 ∷ neg 15 ∷ neg 16 ∷ pos 5 ∷ neg 33 ∷ pos 53 ∷ pos 15 ∷ [])
    ∷ (neg 38 ∷ pos 86 ∷ pos 11 ∷ neg 3 ∷ neg 24 ∷ pos 49 ∷ pos 13 ∷ neg 4 ∷ [])
    ∷ (neg 11 ∷ neg 18 ∷ pos 28 ∷ pos 20 ∷ neg 12 ∷ neg 27 ∷ neg 26 ∷ pos 35 ∷ [])
    ∷ (neg 25 ∷ neg 35 ∷ neg 3 ∷ neg 20 ∷ neg 61 ∷ pos 30 ∷ pos 10 ∷ neg 55 ∷ [])
    ∷ (neg 12 ∷ neg 22 ∷ neg 52 ∷ neg 54 ∷ neg 14 ∷ pos 19 ∷ neg 32 ∷ neg 12 ∷ [])
    ∷ (pos 45 ∷ pos 15 ∷ neg 8 ∷ neg 48 ∷ neg 9 ∷ pos 11 ∷ neg 32 ∷ pos 8 ∷ [])
    ∷ (neg 16 ∷ neg 34 ∷ neg 13 ∷ pos 51 ∷ pos 18 ∷ pos 38 ∷ neg 2 ∷ neg 32 ∷ [])
    ∷ (neg 17 ∷ pos 22 ∷ neg 2 ∷ neg 18 ∷ neg 28 ∷ neg 70 ∷ pos 59 ∷ pos 27 ∷ [])
    ∷ (neg 28 ∷ neg 19 ∷ neg 10 ∷ neg 20 ∷ neg 9 ∷ neg 9 ∷ neg 8 ∷ neg 21 ∷ [])
    ∷ (pos 21 ∷ neg 8 ∷ pos 35 ∷ neg 2 ∷ pos 45 ∷ neg 3 ∷ neg 9 ∷ pos 12 ∷ [])
    ∷ (pos 0 ∷ pos 30 ∷ pos 7 ∷ neg 39 ∷ pos 43 ∷ pos 27 ∷ neg 38 ∷ neg 91 ∷ [])
    ∷ (pos 30 ∷ pos 26 ∷ pos 19 ∷ neg 55 ∷ neg 4 ∷ pos 63 ∷ pos 14 ∷ neg 17 ∷ [])
    ∷ (pos 13 ∷ pos 9 ∷ pos 13 ∷ pos 2 ∷ pos 7 ∷ pos 4 ∷ pos 6 ∷ pos 61 ∷ [])
    ∷ (pos 72 ∷ neg 1 ∷ neg 17 ∷ pos 29 ∷ neg 1 ∷ neg 22 ∷ neg 17 ∷ pos 8 ∷ [])
    ∷ (neg 28 ∷ neg 37 ∷ pos 63 ∷ pos 44 ∷ pos 41 ∷ pos 3 ∷ pos 2 ∷ pos 14 ∷ [])
    ∷ (pos 9 ∷ neg 6 ∷ pos 75 ∷ neg 8 ∷ neg 7 ∷ neg 12 ∷ neg 15 ∷ neg 12 ∷ [])
    ∷ (pos 13 ∷ pos 9 ∷ neg 4 ∷ pos 30 ∷ neg 22 ∷ neg 65 ∷ pos 15 ∷ pos 0 ∷ [])
    ∷ (neg 45 ∷ pos 4 ∷ neg 4 ∷ pos 1 ∷ pos 5 ∷ pos 22 ∷ pos 11 ∷ pos 23 ∷ [])
    ∷ [])
