-- ===== src/Header/Fields.antt =====
-- The header that one machine finds in the packet of another one.
use speex.Common.{
  ℕ, zero, suc, ◌^◌, ◌<◌, ◌≡◌, refl, ap, ◌∙◌, arith, Bool, true, false, List, [], ◌∷◌, ◌++◌, length,
  take, drop,
}
use speex.Header.{
  SpeexHeader, byte, magic, le_int, switch, word_bytes, word_at, words_bytes, image, struct_at,
}
use speex.Header.Words.{carried, le_int-carried}

-- A header that can be stored: its marks, its sizes, and ints of 32 bits.
pub record IsHeader (h : SpeexHeader) : Type 0 where
  pub marked : h.speex_string ≡ magic
  pub version : length h.speex_version ≡ 20
  pub speex_version_id_lt : h.speex_version_id < 2 ^ 32
  pub header_size_lt : h.header_size < 2 ^ 32
  pub rate_lt : h.rate < 2 ^ 32
  pub mode_lt : h.mode < 2 ^ 32
  pub mode_bitstream_version_lt : h.mode_bitstream_version < 2 ^ 32
  pub nb_channels_lt : h.nb_channels < 2 ^ 32
  pub bitrate_lt : h.bitrate < 2 ^ 32
  pub frame_size_lt : h.frame_size < 2 ^ 32
  pub vbr_lt : h.vbr < 2 ^ 32
  pub frames_per_packet_lt : h.frames_per_packet < 2 ^ 32
  pub extra_headers_lt : h.extra_headers < 2 ^ 32
  pub reserved1_zero : h.reserved1 ≡ 0
  pub reserved2_zero : h.reserved2 ≡ 0

take-++ {ℓ} : {A : Type ℓ} (n : ℕ) (xs ys : List A) → length xs ≡ n → take n (xs ++ ys) ≡ xs
take-++ zero [] ys e = refl
take-++ zero (x ∷ xs) ys e = absurd (omega arith)
take-++ (suc n) [] ys e = absurd (omega arith)
take-++ (suc n) (x ∷ xs) ys e = ap (λ zs. x ∷ zs) (take-++ n xs ys (omega arith))

drop-++ {ℓ} : {A : Type ℓ} (n : ℕ) (xs ys : List A) → length xs ≡ n → drop n (xs ++ ys) ≡ ys
drop-++ zero [] ys e = refl
drop-++ zero (x ∷ xs) ys e = absurd (omega arith)
drop-++ (suc n) [] ys e = absurd (omega arith)
drop-++ (suc n) (x ∷ xs) ys e = drop-++ n xs ys (omega arith)

-- The struct behind the marks and the version.
abbrev pub words_of : SpeexHeader → List ℕ
words_of h =
    h.speex_version_id ∷ h.header_size ∷ h.rate ∷ h.mode ∷ h.mode_bitstream_version ∷ h.nb_channels
    ∷ h.bitrate ∷ h.frame_size ∷ h.vbr ∷ h.frames_per_packet ∷ h.extra_headers ∷ h.reserved1
    ∷ h.reserved2 ∷ []

abbrev pub struct_words : Bool → List ℕ → List ℕ → List ℕ → SpeexHeader
struct_words big string version words = record {
  speex_string = string;
  speex_version = version;
  speex_version_id = word_at big words 0;
  header_size = word_at big words 4;
  rate = word_at big words 8;
  mode = word_at big words 12;
  mode_bitstream_version = word_at big words 16;
  nb_channels = word_at big words 20;
  bitrate = word_at big words 24;
  frame_size = word_at big words 28;
  vbr = word_at big words 32;
  frames_per_packet = word_at big words 36;
  extra_headers = word_at big words 40;
  reserved1 = word_at big words 44;
  reserved2 = word_at big words 48;
}

-- The words of `h`, carried from `a` to `b`.
abbrev pub all_carried : Bool → Bool → SpeexHeader → SpeexHeader
all_carried a b h = record {
  speex_string = h.speex_string;
  speex_version = h.speex_version;
  speex_version_id = carried a b h.speex_version_id;
  header_size = carried a b h.header_size;
  rate = carried a b h.rate;
  mode = carried a b h.mode;
  mode_bitstream_version = carried a b h.mode_bitstream_version;
  nb_channels = carried a b h.nb_channels;
  bitrate = carried a b h.bitrate;
  frame_size = carried a b h.frame_size;
  vbr = carried a b h.vbr;
  frames_per_packet = carried a b h.frames_per_packet;
  extra_headers = carried a b h.extra_headers;
  reserved1 = carried a b h.reserved1;
  reserved2 = carried a b h.reserved2;
}

struct_words-carried :
    (a b : Bool) (h : SpeexHeader) (rest : List ℕ)
    → struct_words b h.speex_string h.speex_version (words_bytes a (words_of h) ++ rest)
      ≡ all_carried a b h
unfolding words_bytes word_bytes word_at
struct_words-carried false false h rest = refl
struct_words-carried false true h rest = refl
struct_words-carried true false h rest = refl
struct_words-carried true true h rest = refl

struct_at-eq :
    (big : Bool) (string version words : List ℕ)
    → length string ≡ 8
    → length version ≡ 20
    → struct_at big (string ++ (version ++ words)) ≡ struct_words big string version words
unfolding struct_at
struct_at-eq big string version words e e' =
    rw
      (
        take-++ 8 string (version ++ words) e,
        drop-++ 8 string (version ++ words) e,
        take-++ 20 version words e',
        drop-++ 20 version words e',
      )
      refl

append_assoc {ℓ} : {A : Type ℓ} (xs ys zs : List A) → (xs ++ ys) ++ zs ≡ xs ++ (ys ++ zs)
append_assoc [] ys zs = refl
append_assoc (x ∷ xs) ys zs = ap (λ us. x ∷ us) (append_assoc xs ys zs)

pub struct_at-image :
    (a b : Bool) (h : SpeexHeader) (rest : List ℕ)
    → length h.speex_string ≡ 8
    → length h.speex_version ≡ 20
    → struct_at b (image a h ++ rest) ≡ all_carried a b h
unfolding image
struct_at-image a b h rest e e' =
    let words = words_bytes a (words_of h) in
    ap (struct_at b) (
      append_assoc h.speex_string (h.speex_version ++ words) rest
      ∙ ap (λ us. h.speex_string ++ us) (append_assoc h.speex_version words rest))
    ∙ struct_at-eq b h.speex_string h.speex_version (words ++ rest) e e'
    ∙ struct_words-carried a b h rest

carried-zero : (a b : Bool) (w : ℕ) → w ≡ 0 → carried a b w ≡ w
unfolding word_at word_bytes byte
carried-zero false false w e = rw (e) refl
carried-zero false true w e = rw (e) refl
carried-zero true false w e = rw (e) refl
carried-zero true true w e = rw (e) refl

-- What is switched, stored, read and switched again is what it was.
pub switch-struct_at :
    (a b : Bool) (h : SpeexHeader) (rest : List ℕ)
    → IsHeader h
    → switch b (struct_at b (image a (switch a h) ++ rest)) ≡ h
unfolding switch le_int
switch-struct_at a b h rest i =
    ap (switch b) (struct_at-image a b (switch a h) rest (rw (i.marked) refl) i.version) ∙ (λ t.
      record {
        speex_string = h.speex_string;
        speex_version = h.speex_version;
        speex_version_id = le_int-carried a b h.speex_version_id i.speex_version_id_lt t;
        header_size = le_int-carried a b h.header_size i.header_size_lt t;
        rate = le_int-carried a b h.rate i.rate_lt t;
        mode = le_int-carried a b h.mode i.mode_lt t;
        mode_bitstream_version =
            le_int-carried a b h.mode_bitstream_version i.mode_bitstream_version_lt t;
        nb_channels = le_int-carried a b h.nb_channels i.nb_channels_lt t;
        bitrate = le_int-carried a b h.bitrate i.bitrate_lt t;
        frame_size = le_int-carried a b h.frame_size i.frame_size_lt t;
        vbr = le_int-carried a b h.vbr i.vbr_lt t;
        frames_per_packet = le_int-carried a b h.frames_per_packet i.frames_per_packet_lt t;
        extra_headers = le_int-carried a b h.extra_headers i.extra_headers_lt t;
        reserved1 = carried-zero a b h.reserved1 i.reserved1_zero t;
        reserved2 = carried-zero a b h.reserved2 i.reserved2_zero t;
      })
