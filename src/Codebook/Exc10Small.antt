-- ===== src/Codebook/Exc10Small.antt =====
-- libspeex/exc_10_16_table.c: signed characters, in the order of the source.
use speex.Common.{List, [], ◌∷◌, ℤ, pos, neg, join}

unfoldable pub exc_10_16_table : List ℤ
exc_10_16_table = join (
    (pos 22 ∷ pos 39 ∷ pos 14 ∷ pos 44 ∷ pos 11 ∷ [])
    ∷ (pos 35 ∷ neg 2 ∷ pos 23 ∷ neg 4 ∷ pos 6 ∷ [])
    ∷ (pos 46 ∷ neg 28 ∷ pos 13 ∷ neg 27 ∷ neg 23 ∷ [])
    ∷ (pos 12 ∷ pos 4 ∷ pos 20 ∷ neg 5 ∷ pos 9 ∷ [])
    ∷ (pos 37 ∷ neg 18 ∷ neg 23 ∷ pos 23 ∷ pos 0 ∷ [])
    ∷ (pos 9 ∷ neg 6 ∷ neg 20 ∷ pos 4 ∷ neg 1 ∷ [])
    ∷ (neg 17 ∷ neg 5 ∷ neg 4 ∷ pos 17 ∷ pos 0 ∷ [])
    ∷ (pos 1 ∷ pos 9 ∷ neg 2 ∷ pos 1 ∷ pos 2 ∷ [])
    ∷ (pos 2 ∷ neg 12 ∷ pos 8 ∷ neg 25 ∷ pos 39 ∷ [])
    ∷ (pos 15 ∷ pos 9 ∷ pos 16 ∷ neg 55 ∷ neg 11 ∷ [])
    ∷ (pos 9 ∷ pos 11 ∷ pos 5 ∷ pos 10 ∷ neg 2 ∷ [])
    ∷ (neg 60 ∷ pos 8 ∷ pos 13 ∷ neg 6 ∷ pos 11 ∷ [])
    ∷ (neg 16 ∷ pos 27 ∷ neg 47 ∷ neg 12 ∷ pos 11 ∷ [])
    ∷ (pos 1 ∷ pos 16 ∷ neg 7 ∷ pos 9 ∷ neg 3 ∷ [])
    ∷ (neg 29 ∷ pos 9 ∷ neg 14 ∷ pos 25 ∷ neg 19 ∷ [])
    ∷ (pos 34 ∷ pos 36 ∷ pos 12 ∷ pos 40 ∷ neg 10 ∷ [])
    ∷ (neg 3 ∷ neg 24 ∷ neg 14 ∷ neg 37 ∷ neg 21 ∷ [])
    ∷ (neg 35 ∷ neg 2 ∷ neg 36 ∷ pos 3 ∷ neg 6 ∷ [])
    ∷ (pos 67 ∷ pos 28 ∷ pos 6 ∷ neg 17 ∷ neg 3 ∷ [])
    ∷ (neg 12 ∷ neg 16 ∷ neg 15 ∷ neg 17 ∷ neg 7 ∷ [])
    ∷ (neg 59 ∷ neg 36 ∷ neg 13 ∷ pos 1 ∷ pos 7 ∷ [])
    ∷ (pos 1 ∷ pos 2 ∷ pos 10 ∷ pos 2 ∷ pos 11 ∷ [])
    ∷ (pos 13 ∷ pos 10 ∷ pos 8 ∷ neg 2 ∷ pos 7 ∷ [])
    ∷ (pos 3 ∷ pos 5 ∷ pos 4 ∷ pos 2 ∷ pos 2 ∷ [])
    ∷ (neg 3 ∷ neg 8 ∷ pos 4 ∷ neg 5 ∷ pos 6 ∷ [])
    ∷ (pos 7 ∷ neg 42 ∷ pos 15 ∷ pos 35 ∷ neg 2 ∷ [])
    ∷ (neg 46 ∷ pos 38 ∷ pos 28 ∷ neg 20 ∷ neg 9 ∷ [])
    ∷ (pos 1 ∷ pos 7 ∷ neg 3 ∷ pos 0 ∷ neg 2 ∷ [])
    ∷ (pos 0 ∷ pos 0 ∷ pos 0 ∷ pos 0 ∷ pos 0 ∷ [])
    ∷ (pos 0 ∷ pos 0 ∷ pos 0 ∷ pos 0 ∷ pos 0 ∷ [])
    ∷ (neg 15 ∷ neg 28 ∷ pos 52 ∷ pos 32 ∷ pos 5 ∷ [])
    ∷ (neg 5 ∷ neg 17 ∷ neg 20 ∷ neg 10 ∷ neg 1 ∷ [])
    ∷ [])
