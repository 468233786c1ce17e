-- ===== src/NbSearch/Examples.antt =====
-- The frame search at small packets.
use speex.Common.{ℕ, zero, suc, ◌+◌, ◌*◌, ◌≡◌, refl, arith, false, List, [], ◌∷◌, get_or}
use speex.Common.{Option, none, some, replicate, pos, negsuc, ok, inl, ◌≢◌}
use speex.Bits.{SpeexBits}
use speex.Bits.View.{position, bits_at}
use speex.Bits.Unpack.{IsReadable}
use speex.Callbacks.{Handler, default_user_handler}
use speex.Bits.Field.{skip, field}
use speex.Callbacks.Skip.{default_user_handler_lem}
use speex.NbSearch.{Round, returns, search}
use speex.NbSearch.Layers.{skip-IsBeyond, IsBeyond-trans, IsBeyond-weaken}
use speex.NbSearch.Progress.{IsForward, AllForward, IsEnd, search_lem}
use speex.NbSearch.NullLayer.{HasNoLength, search-refuses}

abbrev pub unhandled : List (Option (Handler ℕ))
unhandled = replicate 16 none

pub unhandled-AllForward : AllForward unhandled
unhandled-AllForward i h e = absurd (nothing 16 i h e)
  where
    nothing :
        (k i : ℕ) (h : Handler ℕ)
        → get_or {A = Option (Handler ℕ)} (replicate k none) i none ≢ some h
    nothing zero i h e = cc
    nothing (suc k) zero h e = cc
    nothing (suc k) (suc i) h e = nothing k i h e

pub default_user_handler-IsForward : IsForward {State = ℕ} default_user_handler
default_user_handler-IsForward s state r =
    let b1 = skip-IsBeyond s 4 r in
    let b2 = skip-IsBeyond (skip s 4) (5 + 8 * field s 4) b1.readable in
    (
      pos 0,
      skip (skip s 4) (5 + 8 * field s 4),
      state,
      default_user_handler_lem s state r,
      IsBeyond-weaken (position s) (position (skip s 4)) b1.far
          (IsBeyond-trans (position s) (position (skip s 4)) b1 b2),
    )

abbrev packet : List ℕ → SpeexBits
packet chars = record {
  chars = chars;
  nb_bits = 32;
  char_ptr = 0;
  bit_ptr = 0;
  owner = false;
  overflow = false;
  buf_size = 4;
}

-- A mode request that no one handles, and a frame of sub-mode 3.
abbrev request_first : SpeexBits
request_first = packet (113 ∷ 40 ∷ 192 ∷ 0 ∷ [])

-- An empty wideband layer, and a frame of sub-mode 3.
abbrev null_layer_first : SpeexBits
null_layer_first = packet (129 ∷ 128 ∷ 0 ∷ 0 ∷ [])

request_first-IsReadable : IsReadable request_first
request_first-IsReadable = record { stored = omega arith; aligned = omega arith }

null_layer_first-IsReadable : IsReadable null_layer_first
null_layer_first-IsReadable = record { stored = omega arith; aligned = omega arith }

field_of_null_layer_first : field null_layer_first 1 ≡ 1
unfolding bits_at
field_of_null_layer_first = refl

null_layer : HasNoLength (field (skip null_layer_first 1) 3)
unfolding bits_at
null_layer = inl refl

search_lem_example :
    (round : Round) × (s' : SpeexBits) × (state' : ℕ) × (search unhandled default_user_handler 8
        request_first 0
      ≡ ok (round, s', state'))
    × IsReadable s'
    × IsEnd round
search_lem_example =
    search_lem unhandled default_user_handler refl unhandled-AllForward
      default_user_handler-IsForward 7 request_first 0 request_first-IsReadable (omega arith)

search-refuses_example :
    search unhandled default_user_handler 1 null_layer_first 0
    ≡ ok (returns (negsuc 1), skip null_layer_first 1, 0)
search-refuses_example =
    search-refuses null_layer_first null_layer_first-IsReadable refl field_of_null_layer_first
      null_layer unhandled default_user_handler 0 0
