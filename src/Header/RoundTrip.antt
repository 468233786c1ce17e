-- ===== src/Header/RoundTrip.antt =====
-- Headers that come back from their packets, and those that speex_init_header makes.
use speex.Common.{
  ℕ, ◌+◌, ◌<◌, ◌≡◌, refl, ap, sym, ◌∙◌, arith, Bool, true, false, List, [], ◌∷◌, ◌++◌, length, take,
  Option, some,
}
use mathlib.Core.Path.{subst}
use speex.Header.{
  SpeexHeader, magic, switch, image, words_bytes, word_bytes, speex_header_to_packet,
  clamp_channels, speex_packet_to_header,
}
use speex.Header.Fields.{IsHeader, words_of, switch-struct_at}
use speex.Header.Acceptance.{IsAllowed, clamp_channels-IsAllowed, speex_packet_to_header-accepts}

abbrev with_channels : SpeexHeader → Option SpeexHeader
with_channels h = some (record h { nb_channels = clamp_channels h.nb_channels })

length-++ : (xs ys : List ℕ) → length (xs ++ ys) ≡ length xs + length ys
length-++ [] ys = omega arith
length-++ (x ∷ xs) ys = omega (arith, length-++ xs ys)

length-words : (a : Bool) (h : SpeexHeader) → length (words_bytes a (words_of h)) ≡ 52
unfolding words_bytes word_bytes
length-words false h = refl
length-words true h = refl

length-image :
    (a : Bool) (h : SpeexHeader)
    → length h.speex_string ≡ 8
    → length h.speex_version ≡ 20
    → length (image a h) ≡ 80
unfolding image
length-image a h e e' = omega (
  arith,
  length-words a h,
  e,
  e',
  length-++ h.speex_string (h.speex_version ++ words_bytes a (words_of h)),
  length-++ h.speex_version (words_bytes a (words_of h)),
)

take-marked : (string ys zs : List ℕ) → string ≡ magic → take 8 ((string ++ ys) ++ zs) ≡ magic
take-marked string ys zs e = rw (e) refl

image-marked :
    (a : Bool) (h : SpeexHeader) (rest : List ℕ)
    → h.speex_string ≡ magic
    → take 8 (image a h ++ rest) ≡ magic
unfolding image
image-marked a h rest e =
    take-marked h.speex_string (h.speex_version ++ words_bytes a (words_of h)) rest e

-- For a header with the mark, a version of 20 characters, fields of 32 bits, reserved fields of
-- 0 and a mode below 3: the packet that a machine makes of it has 80 bytes, and another machine,
-- whatever the byte orders of the two and whatever bytes follow the packet, reads the same
-- header from it, but for the number of channels: 1 and 2 are kept, more are read as 2, and 0
-- and negative numbers as 1.
pub speex_packet_to_header-speex_header_to_packet :
    (a b : Bool) (h : SpeexHeader) (rest : List ℕ)
    → IsHeader h
    → h.mode < 3
    → (length (speex_header_to_packet a h) ≡ 80)
      × (channels : ℕ) × (speex_packet_to_header b (speex_header_to_packet a h ++ rest)
          ≡ some (record h { nb_channels = channels }))
      × IsAllowed h.nb_channels channels
unfolding speex_header_to_packet switch
speex_packet_to_header-speex_header_to_packet a b h rest i below =
    let packet = image a (switch a h) in
    let back = switch-struct_at a b h rest i in
    let size = length-image a (switch a h) (eight h i.marked) i.version in
    (
      size,
      clamp_channels h.nb_channels,
      speex_packet_to_header-accepts b (packet ++ rest) (omega (arith, size, length-++ packet rest))
            (image-marked a (switch a h) rest i.marked) (subst (λ x. x.mode < 3) (sym back) below)
          ∙ ap with_channels back,
      clamp_channels-IsAllowed h.nb_channels i.nb_channels_lt,
    )
  where
    eight : (h : SpeexHeader) → h.speex_string ≡ magic → length h.speex_string ≡ 8
    eight h e = rw (e) refl
