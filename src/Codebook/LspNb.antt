-- ===== src/Codebook/LspNb.antt =====
-- libspeex/lsp_tables_nb.c: signed characters, in the order of the source.
use speex.Common.{List, [], ◌∷◌, ℤ, pos, neg, join}

unfoldable pub cdbk_nb : List ℤ
cdbk_nb = join (
    (pos 30 ∷ pos 19 ∷ pos 38 ∷ pos 34 ∷ pos 40 ∷ [])
    ∷ (pos 32 ∷ pos 46 ∷ pos 43 ∷ pos 58 ∷ pos 43 ∷ [])
    ∷ (pos 5 ∷ neg 18 ∷ neg 25 ∷ neg 40 ∷ neg 33 ∷ [])
    ∷ (neg 55 ∷ neg 52 ∷ pos 20 ∷ pos 34 ∷ pos 28 ∷ [])
    ∷ (neg 20 ∷ neg 63 ∷ neg 97 ∷ neg 92 ∷ pos 61 ∷ [])
    ∷ (pos 53 ∷ pos 47 ∷ pos 49 ∷ pos 53 ∷ pos 75 ∷ [])
    ∷ (neg 14 ∷ neg 53 ∷ neg 77 ∷ neg 79 ∷ pos 0 ∷ [])
    ∷ (neg 3 ∷ neg 5 ∷ pos 19 ∷ pos 22 ∷ pos 26 ∷ [])
    ∷ (neg 9 ∷ neg 53 ∷ neg 55 ∷ pos 66 ∷ pos 90 ∷ [])
    ∷ (pos 72 ∷ pos 85 ∷ pos 68 ∷ pos 74 ∷ pos 52 ∷ [])
    ∷ (neg 4 ∷ neg 41 ∷ neg 58 ∷ neg 31 ∷ neg 18 ∷ [])
    ∷ (neg 31 ∷ pos 27 ∷ pos 32 ∷ pos 30 ∷ pos 18 ∷ [])
    ∷ (pos 24 ∷ pos 3 ∷ pos 8 ∷ pos 5 ∷ neg 12 ∷ [])
    ∷ (neg 3 ∷ pos 26 ∷ pos 28 ∷ pos 74 ∷ pos 63 ∷ [])
    ∷ (neg 2 ∷ neg 39 ∷ neg 67 ∷ neg 77 ∷ neg 106 ∷ [])
    ∷ (neg 74 ∷ pos 59 ∷ pos 59 ∷ pos 73 ∷ pos 65 ∷ [])
    ∷ (pos 44 ∷ pos 40 ∷ pos 71 ∷ pos 72 ∷ pos 82 ∷ [])
    ∷ (pos 83 ∷ pos 98 ∷ pos 88 ∷ pos 89 ∷ pos 60 ∷ [])
    ∷ (neg 6 ∷ neg 31 ∷ neg 47 ∷ neg 48 ∷ neg 13 ∷ [])
    ∷ (neg 39 ∷ neg 9 ∷ pos 7 ∷ pos 2 ∷ pos 79 ∷ [])
    ∷ (neg 1 ∷ neg 39 ∷ neg 60 ∷ neg 17 ∷ pos 87 ∷ [])
    ∷ (pos 81 ∷ pos 65 ∷ pos 50 ∷ pos 45 ∷ pos 19 ∷ [])
    ∷ (neg 21 ∷ neg 67 ∷ neg 91 ∷ neg 87 ∷ neg 41 ∷ [])
    ∷ (neg 50 ∷ pos 7 ∷ pos 18 ∷ pos 39 ∷ pos 74 ∷ [])
    ∷ (pos 10 ∷ neg 31 ∷ neg 28 ∷ pos 39 ∷ pos 24 ∷ [])
    ∷ (pos 13 ∷ pos 23 ∷ pos 5 ∷ pos 56 ∷ pos 45 ∷ [])
    ∷ (pos 29 ∷ pos 10 ∷ neg 5 ∷ neg 13 ∷ neg 11 ∷ [])
    ∷ (neg 35 ∷ neg 18 ∷ neg 8 ∷ neg 10 ∷ neg 8 ∷ [])
    ∷ (neg 25 ∷ neg 71 ∷ neg 77 ∷ neg 21 ∷ pos 2 ∷ [])
    ∷ (pos 16 ∷ pos 50 ∷ pos 63 ∷ pos 87 ∷ pos 87 ∷ [])
    ∷ (pos 5 ∷ neg 32 ∷ neg 40 ∷ neg 51 ∷ neg 68 ∷ [])
    ∷ (pos 0 ∷ pos 12 ∷ pos 6 ∷ pos 54 ∷ pos 34 ∷ [])
    ∷ (pos 5 ∷ neg 12 ∷ pos 32 ∷ pos 52 ∷ pos 68 ∷ [])
    ∷ (pos 64 ∷ pos 69 ∷ pos 59 ∷ pos 65 ∷ pos 45 ∷ [])
    ∷ (pos 14 ∷ neg 16 ∷ neg 31 ∷ neg 40 ∷ neg 65 ∷ [])
    ∷ (neg 67 ∷ pos 41 ∷ pos 49 ∷ pos 47 ∷ pos 37 ∷ [])
    ∷ (neg 11 ∷ neg 52 ∷ neg 75 ∷ neg 84 ∷ neg 4 ∷ [])
    ∷ (pos 57 ∷ pos 48 ∷ pos 42 ∷ pos 42 ∷ pos 33 ∷ [])
    ∷ (neg 11 ∷ neg 51 ∷ neg 68 ∷ neg 6 ∷ pos 13 ∷ [])
    ∷ (pos 0 ∷ pos 8 ∷ neg 8 ∷ pos 26 ∷ pos 32 ∷ [])
    ∷ (neg 23 ∷ neg 53 ∷ pos 0 ∷ pos 36 ∷ pos 56 ∷ [])
    ∷ (pos 76 ∷ pos 97 ∷ pos 105 ∷ pos 111 ∷ pos 97 ∷ [])
    ∷ (neg 1 ∷ neg 28 ∷ neg 39 ∷ neg 40 ∷ neg 43 ∷ [])
    ∷ (neg 54 ∷ neg 44 ∷ neg 40 ∷ neg 18 ∷ pos 35 ∷ [])
    ∷ (pos 16 ∷ neg 20 ∷ neg 19 ∷ neg 28 ∷ neg 42 ∷ [])
    ∷ (pos 29 ∷ pos 47 ∷ pos 38 ∷ pos 74 ∷ pos 45 ∷ [])
    ∷ (pos 3 ∷ neg 29 ∷ neg 48 ∷ neg 62 ∷ neg 80 ∷ [])
    ∷ (neg 104 ∷ neg 33 ∷ pos 56 ∷ pos 59 ∷ pos 59 ∷ [])
    ∷ (pos 10 ∷ pos 17 ∷ pos 46 ∷ pos 72 ∷ pos 84 ∷ [])
    ∷ (pos 101 ∷ pos 117 ∷ pos 123 ∷ pos 123 ∷ pos 106 ∷ [])
    ∷ (neg 7 ∷ neg 33 ∷ neg 49 ∷ neg 51 ∷ neg 70 ∷ [])
    ∷ (neg 67 ∷ neg 27 ∷ neg 31 ∷ pos 70 ∷ pos 67 ∷ [])
    ∷ (neg 16 ∷ neg 62 ∷ neg 85 ∷ neg 20 ∷ pos 82 ∷ [])
    ∷ (pos 71 ∷ pos 86 ∷ pos 80 ∷ pos 85 ∷ pos 74 ∷ [])
    ∷ (neg 19 ∷ neg 58 ∷ neg 75 ∷ neg 45 ∷ neg 29 ∷ [])
    ∷ (neg 33 ∷ neg 18 ∷ neg 25 ∷ pos 45 ∷ pos 57 ∷ [])
    ∷ (neg 12 ∷ neg 42 ∷ neg 5 ∷ pos 12 ∷ pos 28 ∷ [])
    ∷ (pos 36 ∷ pos 52 ∷ pos 64 ∷ pos 81 ∷ pos 82 ∷ [])
    ∷ (pos 13 ∷ neg 9 ∷ neg 27 ∷ neg 28 ∷ pos 22 ∷ [])
    ∷ (pos 3 ∷ pos 2 ∷ pos 22 ∷ pos 26 ∷ pos 6 ∷ [])
    ∷ (neg 6 ∷ neg 44 ∷ neg 51 ∷ pos 2 ∷ pos 15 ∷ [])
    ∷ (pos 10 ∷ pos 48 ∷ pos 43 ∷ pos 49 ∷ pos 34 ∷ [])
    ∷ (neg 19 ∷ neg 62 ∷ neg 84 ∷ neg 89 ∷ neg 102 ∷ [])
    ∷ (neg 24 ∷ pos 8 ∷ pos 17 ∷ pos 61 ∷ pos 68 ∷ [])
    ∷ (pos 39 ∷ pos 24 ∷ pos 23 ∷ pos 19 ∷ pos 16 ∷ [])
    ∷ (neg 5 ∷ pos 12 ∷ pos 15 ∷ pos 27 ∷ pos 15 ∷ [])
    ∷ (neg 8 ∷ neg 44 ∷ neg 49 ∷ neg 60 ∷ neg 18 ∷ [])
    ∷ (neg 32 ∷ neg 28 ∷ pos 52 ∷ pos 54 ∷ pos 62 ∷ [])
    ∷ (neg 8 ∷ neg 48 ∷ neg 77 ∷ neg 70 ∷ pos 66 ∷ [])
    ∷ (pos 101 ∷ pos 83 ∷ pos 63 ∷ pos 61 ∷ pos 37 ∷ [])
    ∷ (neg 12 ∷ neg 50 ∷ neg 75 ∷ neg 64 ∷ pos 33 ∷ [])
    ∷ (pos 17 ∷ pos 13 ∷ pos 25 ∷ pos 15 ∷ pos 77 ∷ [])
    ∷ (pos 1 ∷ neg 42 ∷ neg 29 ∷ pos 72 ∷ pos 64 ∷ [])
    ∷ (pos 46 ∷ pos 49 ∷ pos 31 ∷ pos 61 ∷ pos 44 ∷ [])
    ∷ (neg 8 ∷ neg 47 ∷ neg 54 ∷ neg 46 ∷ neg 30 ∷ [])
    ∷ (pos 19 ∷ pos 20 ∷ neg 1 ∷ neg 16 ∷ pos 0 ∷ [])
    ∷ (pos 16 ∷ neg 12 ∷ neg 18 ∷ neg 9 ∷ neg 26 ∷ [])
    ∷ (neg 27 ∷ neg 10 ∷ neg 22 ∷ pos 53 ∷ pos 45 ∷ [])
    ∷ (neg 10 ∷ neg 47 ∷ neg 75 ∷ neg 82 ∷ neg 105 ∷ [])
    ∷ (neg 109 ∷ pos 8 ∷ pos 25 ∷ pos 49 ∷ pos 77 ∷ [])
    ∷ (pos 50 ∷ pos 65 ∷ pos 114 ∷ pos 117 ∷ pos 124 ∷ [])
    ∷ (pos 118 ∷ pos 115 ∷ pos 96 ∷ pos 90 ∷ pos 61 ∷ [])
    ∷ (neg 9 ∷ neg 45 ∷ neg 63 ∷ neg 60 ∷ neg 75 ∷ [])
    ∷ (neg 57 ∷ pos 8 ∷ pos 11 ∷ pos 20 ∷ pos 29 ∷ [])
    ∷ (pos 0 ∷ neg 35 ∷ neg 49 ∷ neg 43 ∷ pos 40 ∷ [])
    ∷ (pos 47 ∷ pos 35 ∷ pos 40 ∷ pos 55 ∷ pos 38 ∷ [])
    ∷ (neg 24 ∷ neg 76 ∷ neg 103 ∷ neg 112 ∷ neg 27 ∷ [])
    ∷ (pos 3 ∷ pos 23 ∷ pos 34 ∷ pos 52 ∷ pos 75 ∷ [])
    ∷ (pos 8 ∷ neg 29 ∷ neg 43 ∷ pos 12 ∷ pos 63 ∷ [])
    ∷ (pos 38 ∷ pos 35 ∷ pos 29 ∷ pos 24 ∷ pos 8 ∷ [])
    ∷ (pos 25 ∷ pos 11 ∷ pos 1 ∷ neg 15 ∷ neg 18 ∷ [])
    ∷ (neg 43 ∷ neg 7 ∷ pos 37 ∷ pos 40 ∷ pos 21 ∷ [])
    ∷ (neg 20 ∷ neg 56 ∷ neg 19 ∷ neg 19 ∷ neg 4 ∷ [])
    ∷ (neg 2 ∷ pos 11 ∷ pos 29 ∷ pos 51 ∷ pos 63 ∷ [])
    ∷ (neg 2 ∷ neg 44 ∷ neg 62 ∷ neg 75 ∷ neg 89 ∷ [])
    ∷ (pos 30 ∷ pos 57 ∷ pos 51 ∷ pos 74 ∷ pos 51 ∷ [])
    ∷ (pos 50 ∷ pos 46 ∷ pos 68 ∷ pos 64 ∷ pos 65 ∷ [])
    ∷ (pos 52 ∷ pos 63 ∷ pos 55 ∷ pos 65 ∷ pos 43 ∷ [])
    ∷ (pos 18 ∷ neg 9 ∷ neg 26 ∷ neg 35 ∷ neg 55 ∷ [])
    ∷ (neg 69 ∷ pos 3 ∷ pos 6 ∷ pos 8 ∷ pos 17 ∷ [])
    ∷ (neg 15 ∷ neg 61 ∷ neg 86 ∷ neg 97 ∷ pos 1 ∷ [])
    ∷ (pos 86 ∷ pos 93 ∷ pos 74 ∷ pos 78 ∷ pos 67 ∷ [])
    ∷ (neg 1 ∷ neg 38 ∷ neg 66 ∷ neg 48 ∷ pos 48 ∷ [])
    ∷ (pos 39 ∷ pos 29 ∷ pos 25 ∷ pos 17 ∷ neg 1 ∷ [])
    ∷ (pos 13 ∷ pos 13 ∷ pos 29 ∷ pos 39 ∷ pos 50 ∷ [])
    ∷ (pos 51 ∷ pos 69 ∷ pos 82 ∷ pos 97 ∷ pos 98 ∷ [])
    ∷ (neg 2 ∷ neg 36 ∷ neg 46 ∷ neg 27 ∷ neg 16 ∷ [])
    ∷ (neg 30 ∷ neg 13 ∷ neg 4 ∷ neg 7 ∷ neg 4 ∷ [])
    ∷ (pos 25 ∷ neg 5 ∷ neg 11 ∷ neg 6 ∷ neg 25 ∷ [])
    ∷ (neg 21 ∷ pos 33 ∷ pos 12 ∷ pos 31 ∷ pos 29 ∷ [])
    ∷ (neg 8 ∷ neg 38 ∷ neg 52 ∷ neg 63 ∷ neg 68 ∷ [])
    ∷ (neg 89 ∷ neg 33 ∷ neg 1 ∷ pos 10 ∷ pos 74 ∷ [])
    ∷ (neg 2 ∷ neg 15 ∷ pos 59 ∷ pos 91 ∷ pos 105 ∷ [])
    ∷ (pos 105 ∷ pos 101 ∷ pos 87 ∷ pos 84 ∷ pos 62 ∷ [])
    ∷ (neg 7 ∷ neg 33 ∷ neg 50 ∷ neg 35 ∷ neg 54 ∷ [])
    ∷ (neg 47 ∷ pos 25 ∷ pos 17 ∷ pos 82 ∷ pos 81 ∷ [])
    ∷ (neg 13 ∷ neg 56 ∷ neg 83 ∷ pos 21 ∷ pos 58 ∷ [])
    ∷ (pos 31 ∷ pos 42 ∷ pos 25 ∷ pos 72 ∷ pos 65 ∷ [])
    ∷ (neg 24 ∷ neg 66 ∷ neg 91 ∷ neg 56 ∷ pos 9 ∷ [])
    ∷ (neg 2 ∷ pos 21 ∷ pos 10 ∷ pos 69 ∷ pos 75 ∷ [])
    ∷ (pos 2 ∷ neg 24 ∷ pos 11 ∷ pos 22 ∷ pos 25 ∷ [])
    ∷ (pos 28 ∷ pos 38 ∷ pos 34 ∷ pos 48 ∷ pos 33 ∷ [])
    ∷ (pos 7 ∷ neg 29 ∷ neg 26 ∷ pos 17 ∷ pos 15 ∷ [])
    ∷ (neg 1 ∷ pos 14 ∷ pos 0 ∷ neg 2 ∷ pos 0 ∷ [])
    ∷ (neg 6 ∷ neg 41 ∷ neg 67 ∷ pos 6 ∷ neg 2 ∷ [])
    ∷ (neg 9 ∷ pos 19 ∷ pos 2 ∷ pos 85 ∷ pos 74 ∷ [])
    ∷ (neg 22 ∷ neg 67 ∷ neg 84 ∷ neg 71 ∷ neg 50 ∷ [])
    ∷ (pos 3 ∷ pos 11 ∷ neg 9 ∷ pos 2 ∷ pos 62 ∷ [])
    ∷ [])
