-- ===== src/Header/Init.antt =====
-- The headers that speex_init_header makes for the three modes.
use speex.Common.{
  ℕ, zero, suc, ◌-◌, ◌^◌, ◌≤◌, ◌<◌, ◌≡◌, refl, ap, sym, ◌∙◌, arith, Bool, List, [], ◌∷◌, ◌++◌,
  length, some,
}
use speex.Common.{ok, pattern32, length-replicate}
use speex.Header.{
  SpeexHeader, SpeexMode, magic, copy_version, init_header, speex_header_to_packet,
  speex_packet_to_header,
}
use speex.Header.Fields.{IsHeader}
use speex.Header.RoundTrip.{speex_packet_to_header-speex_header_to_packet}
use speex.Modes.Narrow.{nb_mode}
use speex.Modes.Wide.{sb_wb_mode, sb_uwb_mode}
use speex.Modes.Query.{nb_mode_query, wb_mode_query}

-- The three modes of the library.
pub data LibraryMode : Type 0 where
  narrowband : LibraryMode
  wideband : LibraryMode
  ultra_wideband : LibraryMode

abbrev pub speex_mode : LibraryMode → SpeexMode
speex_mode narrowband = record { mode_id = 0; bitstream_version = 4; query = nb_mode_query nb_mode }
speex_mode wideband = record {
  mode_id = 1;
  bitstream_version = 4;
  query = wb_mode_query sb_wb_mode;
}
speex_mode ultra_wideband = record {
  mode_id = 2;
  bitstream_version = 4;
  query = wb_mode_query sb_uwb_mode;
}

length-copy_version : (v : List ℕ) (left : ℕ) → length (copy_version v left) ≡ suc left
unfolding copy_version
length-copy_version [] left = length-replicate (suc left) 0
length-copy_version (c ∷ cs) zero = refl
length-copy_version (zero ∷ cs) (suc left) = length-replicate (suc (suc left)) 0
length-copy_version (suc c ∷ cs) (suc left) = omega (arith, length-copy_version cs left)

-- The header that the call makes.
abbrev pub made : List ℕ → ℕ → ℕ → ℕ → ℕ → SpeexHeader
made version rate channels mode frame_size = record {
  speex_string = magic;
  speex_version = copy_version version 19;
  speex_version_id = 1;
  header_size = 80;
  rate = rate;
  mode = mode;
  mode_bitstream_version = 4;
  nb_channels = channels;
  bitrate = 2 ^ 32 - 1;
  frame_size = frame_size;
  vbr = 0;
  frames_per_packet = 0;
  extra_headers = 0;
  reserved1 = 0;
  reserved2 = 0;
}

pub made-IsHeader :
    (version : List ℕ) (rate channels mode frame_size : ℕ)
    → rate < 2 ^ 32
    → channels < 2 ^ 32
    → mode < 2 ^ 32
    → frame_size < 2 ^ 32
    → IsHeader (made version rate channels mode frame_size)
made-IsHeader version rate channels mode frame_size a b c d = record {
  marked = refl;
  version = length-copy_version version 19;
  speex_version_id_lt = omega arith;
  header_size_lt = omega arith;
  rate_lt = a;
  mode_lt = c;
  mode_bitstream_version_lt = omega arith;
  nb_channels_lt = b;
  bitrate_lt = omega arith;
  frame_size_lt = d;
  vbr_lt = omega arith;
  frames_per_packet_lt = omega arith;
  extra_headers_lt = omega arith;
  reserved1_zero = refl;
  reserved2_zero = refl;
}

abbrev pub mode_number : LibraryMode → ℕ
mode_number narrowband = 0
mode_number wideband = 1
mode_number ultra_wideband = 2

-- The samples of a frame.
abbrev pub mode_frame : LibraryMode → ℕ
mode_frame narrowband = 160
mode_frame wideband = 320
mode_frame ultra_wideband = 640

init_header-made :
    (version : List ℕ) (rate channels : ℕ) (k : LibraryMode)
    → init_header version rate channels (speex_mode k)
      ≡ ok (made version rate channels (mode_number k) (mode_frame k))
unfolding init_header nb_mode_query wb_mode_query nb_mode sb_wb_mode sb_uwb_mode pattern32
init_header-made version rate channels narrowband = refl
init_header-made version rate channels wideband = refl
init_header-made version rate channels ultra_wideband = refl

mode_number-lt : (k : LibraryMode) → mode_number k < 3
mode_number-lt narrowband = omega arith
mode_number-lt wideband = omega arith
mode_number-lt ultra_wideband = omega arith

mode_frame-le : (k : LibraryMode) → mode_frame k ≤ 640
mode_frame-le narrowband = omega arith
mode_frame-le wideband = omega arith
mode_frame-le ultra_wideband = omega arith

-- speex_init_header for each of the three modes, with a rate of 32 bits and one or two channels,
-- returns a header with the number of the mode and its frame size, and that header comes back
-- whole from its packet, whatever the byte orders of the two machines.
pub init_header-returns :
    (a b : Bool) (version : List ℕ) (rate channels : ℕ) (k : LibraryMode)
    → rate < 2 ^ 32
    → 1 ≤ channels
    → channels ≤ 2
    → (h : SpeexHeader) × (init_header version rate channels (speex_mode k) ≡ ok h)
      × (h.mode ≡ mode_number k)
      × (h.frame_size ≡ mode_frame k)
      × (speex_packet_to_header b (speex_header_to_packet a h) ≡ some h)
init_header-returns a b version rate channels k few some_channels most =
    let h = made version rate channels (mode_number k) (mode_frame k) in
    let i =
      made-IsHeader version rate channels (mode_number k) (mode_frame k) few (omega arith)
        (omega (arith, mode_number-lt k)) (omega (arith, mode_frame-le k)) in
    let (size, n, back, allowed) =
      speex_packet_to_header-speex_header_to_packet a b h [] i (mode_number-lt k) in
    (
      h,
      init_header-made version rate channels k,
      refl,
      refl,
      ap (speex_packet_to_header b) (sym (append_nothing (speex_header_to_packet a h)))
          ∙ back
          ∙ ap (λ n. some (made version rate n (mode_number k) (mode_frame k)))
              (allowed.stays some_channels most),
    )
  where
    append_nothing : (xs : List ℕ) → xs ++ [] ≡ xs
    append_nothing [] = refl
    append_nothing (x ∷ xs) = ap (λ ys. x ∷ ys) (append_nothing xs)
