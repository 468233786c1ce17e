-- ===== src/Codebook/GainLbr.antt =====
-- libspeex/gain_table_lbr.c: signed characters, in the order of the source.
use speex.Common.{List, [], ◌∷◌, ℤ, pos, neg, join}

unfoldable pub gain_cdbk_lbr : List ℤ
gain_cdbk_lbr = join (
    (neg 32 ∷ neg 32 ∷ neg 32 ∷ pos 0 ∷ neg 31 ∷ neg 58 ∷ neg 16 ∷ pos 22 ∷ [])
    ∷ (neg 41 ∷ neg 24 ∷ neg 43 ∷ pos 14 ∷ neg 56 ∷ neg 22 ∷ neg 55 ∷ pos 29 ∷ [])
    ∷ (neg 13 ∷ pos 33 ∷ neg 41 ∷ pos 47 ∷ neg 4 ∷ neg 39 ∷ neg 9 ∷ pos 29 ∷ [])
    ∷ (neg 41 ∷ pos 15 ∷ neg 12 ∷ pos 38 ∷ neg 8 ∷ neg 15 ∷ neg 12 ∷ pos 31 ∷ [])
    ∷ (pos 1 ∷ pos 2 ∷ neg 44 ∷ pos 40 ∷ neg 22 ∷ neg 66 ∷ neg 42 ∷ pos 27 ∷ [])
    ∷ (neg 38 ∷ pos 28 ∷ neg 23 ∷ pos 38 ∷ neg 21 ∷ pos 14 ∷ neg 37 ∷ pos 31 ∷ [])
    ∷ (pos 0 ∷ pos 21 ∷ neg 50 ∷ pos 52 ∷ neg 53 ∷ neg 71 ∷ neg 27 ∷ pos 33 ∷ [])
    ∷ (neg 37 ∷ neg 1 ∷ neg 19 ∷ pos 25 ∷ neg 19 ∷ neg 5 ∷ neg 28 ∷ pos 22 ∷ [])
    ∷ (pos 6 ∷ pos 65 ∷ neg 44 ∷ pos 74 ∷ neg 33 ∷ neg 48 ∷ neg 33 ∷ pos 9 ∷ [])
    ∷ (neg 40 ∷ pos 57 ∷ neg 14 ∷ pos 58 ∷ neg 17 ∷ pos 4 ∷ neg 45 ∷ pos 32 ∷ [])
    ∷ (neg 31 ∷ pos 38 ∷ neg 33 ∷ pos 36 ∷ neg 23 ∷ pos 28 ∷ neg 40 ∷ pos 39 ∷ [])
    ∷ (neg 43 ∷ pos 29 ∷ neg 12 ∷ pos 46 ∷ neg 34 ∷ pos 13 ∷ neg 23 ∷ pos 28 ∷ [])
    ∷ (neg 16 ∷ pos 15 ∷ neg 27 ∷ pos 34 ∷ neg 14 ∷ neg 82 ∷ neg 15 ∷ pos 43 ∷ [])
    ∷ (neg 31 ∷ pos 25 ∷ neg 32 ∷ pos 29 ∷ neg 21 ∷ pos 5 ∷ neg 5 ∷ pos 38 ∷ [])
    ∷ (neg 47 ∷ neg 63 ∷ neg 51 ∷ pos 33 ∷ neg 46 ∷ pos 12 ∷ pos 3 ∷ pos 47 ∷ [])
    ∷ (neg 28 ∷ neg 17 ∷ neg 29 ∷ pos 11 ∷ neg 10 ∷ pos 14 ∷ neg 40 ∷ pos 38 ∷ [])
    ∷ [])
