-- ===== src/Header/Examples.antt =====
-- The header of a wideband file, on machines of both kinds.
use speex.Common.{
  ℕ, zero, suc, ◌<◌, ◌&&◌, Bool, ltb, get_or, replicate, ◌≡◌, ◌↔◌, refl, arith, true, false, List,
  [], ◌∷◌, ◌++◌, length, none, some, ok,
}
use speex.Header.{
  SpeexHeader, magic, byte, swapped, init_header, speex_header_to_packet, speex_packet_to_header,
}
use speex.Header.Fields.{IsHeader}
use speex.Header.Acceptance.{IsRefused, IsAllowed, speex_packet_to_header-IsRefused}
use speex.Header.RoundTrip.{speex_packet_to_header-speex_header_to_packet}
use speex.Header.Init.{
  wideband, speex_mode, made, mode_number, mode_frame, made-IsHeader, init_header-returns,
}

-- "1.2"
abbrev version : List ℕ
version = 49 ∷ 46 ∷ 50 ∷ 0 ∷ 7 ∷ []

-- Five channels, which no reader takes.
abbrev header : SpeexHeader
header = made version 16000 5 1 320

header-IsHeader : IsHeader header
header-IsHeader =
    made-IsHeader version 16000 5 1 320 (omega arith) (omega arith) (omega arith) (omega arith)

swapped_rate : swapped 16000 ≡ 2151546880
unfolding swapped byte
swapped_rate = refl

abbrev are_bytes : List ℕ → Bool
are_bytes [] = true
are_bytes (x ∷ xs) = ltb x 256 && are_bytes xs

-- A packet with the mark and the mode 3.
abbrev third_mode : List ℕ
third_mode = magic ++ (replicate 32 0 ++ (3 ∷ replicate 39 0))

third_mode-bytes : (i : ℕ) → get_or third_mode i 0 < 256
third_mode-bytes = below_from third_mode refl
  where
    below_from : (xs : List ℕ) → are_bytes xs ≡ true → (i : ℕ) → get_or xs i 0 < 256
    below_from [] h i = omega arith
    below_from (x ∷ xs) h zero = ground arith
    below_from (x ∷ xs) h (suc i) = below_from xs (ground arith) i

speex_packet_to_header-IsRefused_example :
    (speex_packet_to_header true third_mode ≡ none) ↔ IsRefused third_mode
speex_packet_to_header-IsRefused_example =
    speex_packet_to_header-IsRefused true third_mode third_mode-bytes

speex_packet_to_header-speex_header_to_packet_example :
    (length (speex_header_to_packet true header) ≡ 80)
    × (channels : ℕ) × (speex_packet_to_header false
          (speex_header_to_packet true header ++ (9 ∷ []))
        ≡ some (record header { nb_channels = channels }))
    × IsAllowed header.nb_channels channels
speex_packet_to_header-speex_header_to_packet_example =
    speex_packet_to_header-speex_header_to_packet true false header (9 ∷ []) header-IsHeader
      (omega arith)

init_header-returns_example :
    (h : SpeexHeader) × (init_header version 16000 2 (speex_mode wideband) ≡ ok h)
    × (h.mode ≡ mode_number wideband)
    × (h.frame_size ≡ mode_frame wideband)
    × (speex_packet_to_header false (speex_header_to_packet true h) ≡ some h)
init_header-returns_example =
    init_header-returns true false version 16000 2 wideband (omega arith) (omega arith)
      (omega arith)
