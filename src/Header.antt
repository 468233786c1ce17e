-- ===== src/Header.antt =====
-- libspeex/speex_header.c: the header of a Speex file. An int32 is its 32 bits, a character its
-- byte; a packet is the bytes of the memory behind the pointer, as many as the size that is given.
pub mod Words
pub mod Fields
pub mod Acceptance
pub mod RoundTrip
pub mod Init
mod Examples
use speex.Common.{
  ℕ, zero, suc, ◌+◌, ◌*◌, ◌/◌, ◌%◌, ◌^◌, List, [], ◌∷◌, ◌++◌, length, take, drop, get_or, replicate,
  Bool, true, false, Option, none, some,
}
use speex.Common.{
  ℤ, pos, negsuc, ltb, ltb_ℤ, leb, ◌==◌, ◌&&◌, ◌||◌, pos_part, if◌then◌else◌, signed32, pattern32,
  Result, ok, ◌>>=◌,
}
use speex.Modes.Query.{ModeRequest, mode_frame_size, Answer}

-- Byte `k` of a word: `(ui >> 8*k) & 0xff`
unfoldable pub byte : ℕ → ℕ → ℕ
byte w k = w / 2 ^ (8 * k) % 2 ^ 8

-- The four terms that le_int joins with `|` have no common bits.
unfoldable pub swapped : ℕ → ℕ
unfolding byte
swapped ui = byte ui 3 + byte ui 2 * 2 ^ 8 + byte ui 1 * 2 ^ 16 + byte ui 0 * 2 ^ 24

-- `le_int` on a machine that is big-endian or not.
unfoldable pub le_int : Bool → ℕ → ℕ
unfolding swapped
le_int big i = if big then swapped i else i

pub record SpeexHeader : Type 0 where
  pub speex_string : List ℕ
  pub speex_version : List ℕ
  pub speex_version_id : ℕ
  pub header_size : ℕ
  pub rate : ℕ
  pub mode : ℕ
  pub mode_bitstream_version : ℕ
  pub nb_channels : ℕ
  pub bitrate : ℕ
  pub frame_size : ℕ
  pub vbr : ℕ
  pub frames_per_packet : ℕ
  pub extra_headers : ℕ
  pub reserved1 : ℕ
  pub reserved2 : ℕ

-- `SpeexMode`, as far as a header needs it.
pub record SpeexMode : Type 0 where
  pub mode_id : ℕ
  pub bitstream_version : ℕ
  pub query : ModeRequest → ℤ → Result Answer

-- "Speex   "
abbrev pub magic : List ℕ
magic = 83 ∷ 112 ∷ 101 ∷ 101 ∷ 120 ∷ 32 ∷ 32 ∷ 32 ∷ []

-- The characters of a C string up to its 0, at most `left` of them, and zeros up to `left` + 1.
unfoldable pub copy_version : List ℕ → ℕ → List ℕ
copy_version [] left = replicate (suc left) 0
copy_version (c ∷ cs) zero = 0 ∷ []
copy_version (zero ∷ cs) (suc left) = replicate (suc (suc left)) 0
copy_version (suc c ∷ cs) (suc left) = suc c ∷ copy_version cs left

-- SPEEX_VERSION is a parameter; -1 is 2 ^ 32 - 1. The answer's frame size goes into the header.
unfoldable pub init_header : List ℕ → ℕ → ℕ → SpeexMode → Result SpeexHeader
unfolding copy_version pattern32
init_header version rate nb_channels m = do
  a ← m.query mode_frame_size (pos 0)
  ok (record {
    speex_string = magic;
    speex_version = copy_version version 19;
    speex_version_id = 1;
    header_size = 80;
    rate = rate;
    mode = m.mode_id;
    mode_bitstream_version = m.bitstream_version;
    nb_channels = nb_channels;
    bitrate = pattern32 (negsuc 0);
    frame_size = pattern32 a.value;
    vbr = 0;
    frames_per_packet = 0;
    extra_headers = 0;
    reserved1 = 0;
    reserved2 = 0;
  })

-- The ENDIAN_SWITCH lines.
unfoldable pub switch : Bool → SpeexHeader → SpeexHeader
unfolding le_int
switch big h = record h {
  speex_version_id = le_int big h.speex_version_id;
  header_size = le_int big h.header_size;
  rate = le_int big h.rate;
  mode = le_int big h.mode;
  mode_bitstream_version = le_int big h.mode_bitstream_version;
  nb_channels = le_int big h.nb_channels;
  bitrate = le_int big h.bitrate;
  frame_size = le_int big h.frame_size;
  vbr = le_int big h.vbr;
  frames_per_packet = le_int big h.frames_per_packet;
  extra_headers = le_int big h.extra_headers;
}

-- An int in memory, its lowest byte first or last.
unfoldable pub word_bytes : Bool → ℕ → List ℕ
unfolding byte
word_bytes big w =
    if big
    then byte w 3 ∷ byte w 2 ∷ byte w 1 ∷ byte w 0 ∷ []
    else byte w 0 ∷ byte w 1 ∷ byte w 2 ∷ byte w 3 ∷ []

unfoldable pub word_at : Bool → List ℕ → ℕ → ℕ
word_at big bytes i =
    let b = λ (k : ℕ). get_or bytes (i + k) 0 in
    if big
    then b 3 + b 2 * 2 ^ 8 + b 1 * 2 ^ 16 + b 0 * 2 ^ 24
    else b 0 + b 1 * 2 ^ 8 + b 2 * 2 ^ 16 + b 3 * 2 ^ 24

unfoldable pub words_bytes : Bool → List ℕ → List ℕ
unfolding word_bytes
words_bytes big [] = []
words_bytes big (w ∷ ws) = word_bytes big w ++ words_bytes big ws

-- The 80 bytes of the struct.
unfoldable pub image : Bool → SpeexHeader → List ℕ
unfolding words_bytes
image big h =
    h.speex_string
    ++ (h.speex_version
        ++ words_bytes big (
            h.speex_version_id ∷ h.header_size ∷ h.rate ∷ h.mode ∷ h.mode_bitstream_version
            ∷ h.nb_channels ∷ h.bitrate ∷ h.frame_size ∷ h.vbr ∷ h.frames_per_packet
            ∷ h.extra_headers ∷ h.reserved1 ∷ h.reserved2 ∷ []))

-- The struct that the memory holds.
unfoldable pub struct_at : Bool → List ℕ → SpeexHeader
unfolding word_at
struct_at big packet =
    let words = drop 20 (drop 8 packet) in
    record {
      speex_string = take 8 packet;
      speex_version = take 20 (drop 8 packet);
      speex_version_id = word_at big words 0;
      header_size = word_at big words 4;
      rate = word_at big words 8;
      mode = word_at big words 12;
      mode_bitstream_version = word_at big words 16;
      nb_channels = word_at big words 20;
      bitrate = word_at big words 24;
      frame_size = word_at big words 28;
      vbr = word_at big words 32;
      frames_per_packet = word_at big words 36;
      extra_headers = word_at big words 40;
      reserved1 = word_at big words 44;
      reserved2 = word_at big words 48;
    }

unfoldable pub speex_header_to_packet : Bool → SpeexHeader → List ℕ
unfolding image switch
speex_header_to_packet big h = image big (switch big h)

-- for (i=0;i<8;i++) if (packet[i]!=h[i])
unfoldable pub starts_with : List ℕ → List ℕ → Bool
starts_with packet [] = true
starts_with [] (c ∷ cs) = false
starts_with (b ∷ packet) (c ∷ cs) = b == c && starts_with packet cs

unfoldable pub clamp_channels : ℕ → ℕ
unfolding signed32
clamp_channels n =
    if ltb_ℤ (pos 2) (signed32 n) then 2 else if ltb_ℤ (signed32 n) (pos 1) then 1 else n

-- SPEEX_NB_MODES is 3.
unfoldable pub accept_header : SpeexHeader → Option SpeexHeader
unfolding clamp_channels signed32
accept_header h =
    let mode = signed32 h.mode in
    if leb 3 (pos_part mode) || ltb_ℤ mode (pos 0)
    then none
    else some (record h { nb_channels = clamp_channels h.nb_channels })

-- `none` is NULL.
unfoldable pub speex_packet_to_header : Bool → List ℕ → Option SpeexHeader
unfolding starts_with struct_at switch accept_header
speex_packet_to_header big packet =
    if ltb (length packet) 80
    then none
    else if starts_with packet magic
    then accept_header (switch big (struct_at big packet))
    else none
