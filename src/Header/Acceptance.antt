-- ===== src/Header/Acceptance.antt =====
-- Which packets are headers.
use speex.Common.{
  ℕ, ◌≤◌, ◌<◌, ◌≡◌, ◌≢◌, ◌↔◌, inl, inr, refl, ap, sym, ◌∙◌, arith, Bool, true, false, Bool-cases,
  List, [], ◌∷◌, length, take, drop, get_or, get_or-drop, ◌+◌, ◌*◌, ◌^◌, ◌⊎◌, Option, none, some,
}
use speex.Common.{ltb, ◌==◌, ◌&&◌, if◌then◌else◌, signed32}
use native.Mathlib.Decide.{dec_lt}
use mathlib.Core.Bool.{true≢false}
use mathlib.Core.Path.{subst}
use speex.Header.{
  SpeexHeader, magic, switch, le_int, swapped, byte, word_at, struct_at, starts_with,
  clamp_channels, accept_header, speex_packet_to_header,
}

starts_with-take :
    (packet cs : List ℕ) → starts_with packet cs ≡ true → take (length cs) packet ≡ cs
unfolding starts_with
starts_with-take packet [] e = refl
starts_with-take [] (c ∷ cs) e = absurd (true≢false (sym e))
starts_with-take (b ∷ packet) (c ∷ cs) e =
    let (same, rest) = both (b == c) (starts_with packet cs) e in
    cong_cons b c (ground arith) (starts_with-take packet cs rest)
  where
    both : (x y : Bool) → (x && y) ≡ true → (x ≡ true) × (y ≡ true)
    both x y e = ground arith

    cong_cons : (b c : ℕ) {xs ys : List ℕ} → b ≡ c → xs ≡ ys → b ∷ xs ≡ c ∷ ys
    cong_cons b c e e' = cc

take-starts_with :
    (packet cs : List ℕ) → take (length cs) packet ≡ cs → starts_with packet cs ≡ true
unfolding starts_with
take-starts_with packet [] e = refl
take-starts_with [] (c ∷ cs) e = cc
take-starts_with (b ∷ packet) (c ∷ cs) e =
    let (same, rest) = parts b c (take (length cs) packet) cs e in
    rw (take-starts_with packet cs rest) (equal b c same)
  where
    parts : (b c : ℕ) (xs ys : List ℕ) → b ∷ xs ≡ c ∷ ys → (b ≡ c) × (xs ≡ ys)
    parts b c xs ys e = (cc, cc)

    equal : (b c : ℕ) → b ≡ c → ((b == c) && true) ≡ true
    equal b c e = ground arith

-- The number of channels `n'` that a reader makes of the int32 `n`: 1 and 2 stay, a greater one
-- becomes 2, and 0 and the negative ones become 1.
pub record IsAllowed (n n' : ℕ) : Type 0 where
  pub stays : 1 ≤ n → n ≤ 2 → n' ≡ n
  pub most : 2 < n → n < 2 ^ 31 → n' ≡ 2
  pub least : (n ≡ 0) ⊎ (2 ^ 31 ≤ n) → n' ≡ 1

pub clamp_channels-IsAllowed : (n : ℕ) → n < 2 ^ 32 → IsAllowed n (clamp_channels n)
unfolding clamp_channels signed32
clamp_channels-IsAllowed n h = record {
  stays = λ a b. ground arith;
  most = λ a b. ground arith;
  least = λ a. ground arith;
}

-- The modes are 0, 1 and 2.
pub accept_header-some :
    (h : SpeexHeader)
    → h.mode < 3
    → accept_header h ≡ some (record h { nb_channels = clamp_channels h.nb_channels })
unfolding accept_header signed32
accept_header-some h e = ground arith

pub accept_header-none : (h : SpeexHeader) → 3 ≤ h.mode → accept_header h ≡ none
unfolding accept_header signed32
accept_header-none h e = ground arith

-- The mode of a packet: its bytes 40 to 43, the lowest one first.
abbrev pub packet_mode : List ℕ → ℕ
packet_mode packet =
    get_or packet 40 0
    + get_or packet 41 0 * 2 ^ 8
    + get_or packet 42 0 * 2 ^ 16
    + get_or packet 43 0 * 2 ^ 24

-- Every machine finds that mode.
reversed :
    (a b c d : ℕ)
    → a < 256
    → b < 256
    → c < 256
    → d < 256
    → swapped (d + c * 2 ^ 8 + b * 2 ^ 16 + a * 2 ^ 24) ≡ a + b * 2 ^ 8 + c * 2 ^ 16 + d * 2 ^ 24
unfolding swapped byte
reversed a b c d ha hb hc hd = omega arith

switch-mode :
    (big : Bool) (packet : List ℕ)
    → ((i : ℕ) → get_or packet i 0 < 256)
    → (switch big (struct_at big packet)).mode ≡ packet_mode packet
unfolding switch le_int struct_at word_at
switch-mode false packet bytes = rw (byte_of 12, byte_of 13, byte_of 14, byte_of 15) refl
  where
    byte_of : (i : ℕ) → get_or (drop 20 (drop 8 packet)) i 0 ≡ get_or packet (8 + (20 + i)) 0
    byte_of i = get_or-drop 20 i (drop 8 packet) 0 ∙ get_or-drop 8 (20 + i) packet 0
switch-mode true packet bytes =
    rw (byte_of 12, byte_of 13, byte_of 14, byte_of 15)
      (reversed (get_or packet 40 0) (get_or packet 41 0) (get_or packet 42 0) (get_or packet 43 0)
        (bytes 40) (bytes 41) (bytes 42) (bytes 43))
  where
    byte_of : (i : ℕ) → get_or (drop 20 (drop 8 packet)) i 0 ≡ get_or packet (8 + (20 + i)) 0
    byte_of i = get_or-drop 20 i (drop 8 packet) 0 ∙ get_or-drop 8 (20 + i) packet 0

-- Why a packet is not a header.
pub data IsRefused (packet : List ℕ) : Type 0 where
  too_small : length packet < 80 → IsRefused packet
  unmarked : take 8 packet ≢ magic → IsRefused packet
  invalid_mode : 3 ≤ packet_mode packet → IsRefused packet

abbrev flow : ℕ → Bool → Option SpeexHeader → Option SpeexHeader
flow size marked o = if ltb size 80 then none else if marked then o else none

flow-small :
    (size : ℕ) (marked : Bool) (o : Option SpeexHeader) → size < 80 → flow size marked o ≡ none
flow-small size marked o h = ground arith

flow-none :
    (size : ℕ) (marked : Bool) (o : Option SpeexHeader)
    → (marked ≡ true → o ≡ none)
    → flow size marked o ≡ none
flow-none size true o h = ground (arith, h refl)
flow-none size false o h = ground arith

flow-accepts :
    (size : ℕ) (marked : Bool) (o : Option SpeexHeader)
    → 80 ≤ size
    → marked ≡ true
    → flow size marked o ≡ o
flow-accepts size marked o h e = ground arith

is_some : Option SpeexHeader → Bool
is_some none = false
is_some (some h) = true

some-not-none : (o : Option SpeexHeader) (h : SpeexHeader) → o ≡ some h → o ≢ none
unfolding is_some
some-not-none o h e e' = true≢false (ap is_some (sym e ∙ e'))

pub speex_packet_to_header-accepts :
    (big : Bool) (packet : List ℕ)
    → 80 ≤ length packet
    → take 8 packet ≡ magic
    → let h = switch big (struct_at big packet) in
      h.mode < 3
      → speex_packet_to_header big packet
        ≡ some (record h { nb_channels = clamp_channels h.nb_channels })
unfolding speex_packet_to_header
speex_packet_to_header-accepts big packet large same below =
    flow-accepts (length packet) (starts_with packet magic) _ large
      (take-starts_with packet magic same)
    ∙ accept_header-some (switch big (struct_at big packet)) below

-- speex_packet_to_header, on a machine of either byte order, returns NULL exactly if the packet
-- is shorter than 80 bytes, or does not start with the eight characters of the mark, or has a
-- mode other than 0, 1 and 2 in its bytes 40 to 43, the lowest byte first. Each byte of the
-- packet is below 256.
pub speex_packet_to_header-IsRefused :
    (big : Bool) (packet : List ℕ)
    → ((i : ℕ) → get_or packet i 0 < 256)
    → (speex_packet_to_header big packet ≡ none) ↔ IsRefused packet
unfolding speex_packet_to_header
speex_packet_to_header-IsRefused big packet bytes = (
  λ null. elim (dec_lt (length packet) 80) [
    | yes small ↦ too_small small
    | no large ↦ elim (Bool-cases (starts_with packet magic)) [
      | inr e ↦ unmarked (λ same. true≢false (sym (take-starts_with packet magic same) ∙ e))
      | inl e ↦ elim (dec_lt (packet_mode packet) 3) [
        | no above ↦ invalid_mode (omega arith)
        | yes below ↦ absurd (
            some-not-none (speex_packet_to_header big packet) _
              (speex_packet_to_header-accepts big packet (omega arith)
                (starts_with-take packet magic e)
                (subst (λ m. m < 3) (sym (switch-mode big packet bytes)) below))
              null)
      ]
    ]
  ],
  λ refused. elim refused [
    | too_small small ↦ flow-small (length packet) (starts_with packet magic) _ small
    | unmarked other ↦
        flow-none (length packet) (starts_with packet magic) _
          (λ e. absurd (other (starts_with-take packet magic e)))
    | invalid_mode above ↦ flow-none (length packet) (starts_with packet magic) _ (λ e.
        accept_header-none (switch big (struct_at big packet))
          (subst (λ m. 3 ≤ m) (sym (switch-mode big packet bytes)) above))
  ],
)
