-- ===== src/Lsp/Decode.antt =====
-- What the three decoders share: the index of a stage, a stage on every stream, the codebooks.
use speex.Common.{ℕ, ◌+◌, ◌*◌, ◌^◌, ◌≤◌, ◌<◌, ◌≡◌, refl, ◌∙◌}
use speex.Common.{arith, true, List, length, ℤ, ok}
use speex.Common.{if◌then◌else◌}
use speex.Fixed.{scale, Within, are_chars, are_within, get_or-Within}
use speex.Bits.{SpeexBits, unpack_unsigned}
use speex.Bits.View.{position}
use speex.Bits.Unpack.{IsReadable, overruns, overflowed, moved, bits_at-lt}
use speex.Bits.Read.{peeked, unpack_unsigned-eq}
use speex.Codebook.LspNb.{cdbk_nb}
use speex.Codebook.LspNbLow.{cdbk_nb_low1, cdbk_nb_low2}
use speex.Codebook.LspNbHigh.{cdbk_nb_high1, cdbk_nb_high2}
use speex.Codebook.LspHigh.{high_lsp_cdbk, high_lsp_cdbk2}
use speex.Lsp.{lsp_linear, lsp_linear_high, start_from, stage}
use speex.Lsp.Stage.{entry, IsAdded, add_codeword-IsAdded, IsAdded-Within}

-- The index that the stream gives and the stream behind it.
abbrev pub index : SpeexBits → ℕ
index s = if overruns s 6 then 0 else peeked s 6

abbrev pub after_index : SpeexBits → SpeexBits
after_index s = if overruns s 6 then overflowed s else moved s 6

pub index-lt : (s : SpeexBits) → index s < 64
index-lt s = ground (arith, bits_at-lt s.chars (position s) 6)

pub after_index-IsReadable : (s : SpeexBits) → IsReadable s → IsReadable (after_index s)
after_index-IsReadable s r = ground arith

unpack_index : (s : SpeexBits) → IsReadable s → unpack_unsigned s 6 ≡ ok (index s, after_index s)
unpack_index s r = rw (unpack_unsigned-eq s 6 r (omega arith)) (ground arith)

-- A codebook of 64 codewords of `dim` entries.
pub record IsCodebook (cdbk : List ℤ) (dim : ℕ) : Type 0 where
  pub chars : are_chars cdbk ≡ true
  pub size : length cdbk ≡ 64 * dim

-- What is known between two stages.
pub record IsStage (order bound : ℕ) (lsp : List ℤ) (bits : SpeexBits) : Type 0 where
  pub size : length lsp ≡ order
  pub fits : (j : ℕ) → Within bound (entry lsp j)
  pub readable : IsReadable bits

index_inside : (i dim n : ℕ) → i < 64 → n ≡ 64 * dim → i * dim + dim ≤ n
index_inside i dim n h e = grind arith

pub stage-IsStage :
    (cdbk : List ℤ) (order dim k off bound : ℕ) (lsp : List ℤ) (bits : SpeexBits)
    → IsCodebook cdbk dim
    → dim + off ≤ order
    → bound + 128 * 2 ^ k ≤ 32767
    → IsStage order bound lsp bits
    → (lsp' : List ℤ) × (stage cdbk dim k off (lsp, bits) ≡ ok (lsp', after_index bits))
      × IsAdded cdbk (index bits * dim) k off 0 dim lsp lsp'
      × IsStage order (bound + 128 * 2 ^ k) lsp' (after_index bits)
unfolding stage
stage-IsStage cdbk order dim k off bound lsp bits c room small s =
    let base = index bits * dim in
    let (lsp', adds, a) =
      add_codeword-IsAdded cdbk base k off dim bound c.chars
        (index_inside (index bits) dim (length cdbk) (index-lt bits) c.size) small dim 0 lsp
        (omega arith) (omega (arith, s.size)) (λ j p. s.fits (j + off)) in
    (
      lsp',
      rw (unpack_index bits s.readable, adds) refl,
      a,
      record {
        size = a.same_length ∙ s.size;
        fits = IsAdded-Within cdbk base k off dim bound lsp lsp' c.chars a s.fits;
        readable = after_index-IsReadable bits s.readable;
      },
    )

pub cdbk_nb-IsCodebook : IsCodebook cdbk_nb 10
unfolding cdbk_nb are_within
cdbk_nb-IsCodebook = record { chars = refl; size = refl }

pub cdbk_nb_low1-IsCodebook : IsCodebook cdbk_nb_low1 5
unfolding cdbk_nb_low1 are_within
cdbk_nb_low1-IsCodebook = record { chars = refl; size = refl }

pub cdbk_nb_low2-IsCodebook : IsCodebook cdbk_nb_low2 5
unfolding cdbk_nb_low2 are_within
cdbk_nb_low2-IsCodebook = record { chars = refl; size = refl }

pub cdbk_nb_high1-IsCodebook : IsCodebook cdbk_nb_high1 5
unfolding cdbk_nb_high1 are_within
cdbk_nb_high1-IsCodebook = record { chars = refl; size = refl }

pub cdbk_nb_high2-IsCodebook : IsCodebook cdbk_nb_high2 5
unfolding cdbk_nb_high2 are_within
cdbk_nb_high2-IsCodebook = record { chars = refl; size = refl }

pub high_lsp_cdbk-IsCodebook : IsCodebook high_lsp_cdbk 8
unfolding high_lsp_cdbk are_within
high_lsp_cdbk-IsCodebook = record { chars = refl; size = refl }

pub high_lsp_cdbk2-IsCodebook : IsCodebook high_lsp_cdbk2 8
unfolding high_lsp_cdbk2 are_within
high_lsp_cdbk2-IsCodebook = record { chars = refl; size = refl }

pub start_nb-IsStage :
    (s : SpeexBits) → IsReadable s → IsStage 10 20480 (start_from lsp_linear 0 10) s
unfolding start_from lsp_linear are_within
start_nb-IsStage s r = record {
  size = refl;
  fits = λ j. get_or-Within 20480 (start_from lsp_linear 0 10) refl j;
  readable = r;
}

pub start_high-IsStage :
    (s : SpeexBits) → IsReadable s → IsStage 8 24064 (start_from lsp_linear_high 0 8) s
unfolding start_from lsp_linear_high are_within
start_high-IsStage s r = record {
  size = refl;
  fits = λ j. get_or-Within 24064 (start_from lsp_linear_high 0 8) refl j;
  readable = r;
}

-- The part that a codebook adds to entry j.
abbrev pub part : List ℤ → ℕ → ℕ → ℕ → ℕ → ℤ
part cdbk id dim j k = scale (entry cdbk (id * dim + j)) k
