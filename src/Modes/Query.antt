-- ===== src/Modes/Query.antt =====
-- libspeex/speex.c and libspeex/modes_wb.c: what a mode answers to a query. The sub-mode is an
-- int that indexes an array of pointers; an index outside it is a `fault`.
use speex.Common.{
  ℕ, zero, suc, ◌*◌, ◌≤◌, ◌<◌, ◌≡◌, ◌≢◌, ◌↔◌, ap, refl, arith, List, Option, none, some, ℤ, pos,
  negsuc, Result, ok, fault, diverges, ◌>>=◌, load,
}
use speex.Modes.{SpeexSubmode, SpeexNbMode, SpeexSbMode}
use speex.Modes.Wide.{sb_wb_mode, wb_submode1, wb_submode2, wb_submode3, wb_submode4}
use speex.NbSearch.{wb_skip_table}

pub data ModeRequest : Type 0 where
  mode_frame_size : ModeRequest
  submode_bits_per_frame : ModeRequest
  unknown_request : ModeRequest

-- What the call returns, and the int behind its pointer.
pub record Answer : Type 0 where
  pub ret : ℤ
  pub value : ℤ

-- `own` bits for sub-mode 0, -1 for a null pointer.
unfoldable pub submode_bits : List (Option SpeexSubmode) → ℕ → ℤ → Result ℤ
submode_bits submodes own (negsuc n) = fault
submode_bits submodes own (pos zero) = ok (pos own)
submode_bits submodes own (pos (suc n)) = load submodes (suc n) >>= λ m. ok (bits m)
  where
    bits : Option SpeexSubmode → ℤ
    bits none = negsuc 0
    bits (some m) = pos m.bits_per_frame

unfoldable pub answer : List (Option SpeexSubmode) → ℕ → ℕ → ModeRequest → ℤ → Result Answer
unfolding submode_bits
answer submodes own frame mode_frame_size value = ok (record { ret = pos 0; value = pos frame })
answer submodes own frame submode_bits_per_frame value =
    submode_bits submodes own value >>= λ z. ok (record { ret = pos 0; value = z })
answer submodes own frame unknown_request value = ok (record { ret = negsuc 0; value = value })

-- NB_SUBMODE_BITS is 4.
unfoldable pub nb_mode_query : SpeexNbMode → ModeRequest → ℤ → Result Answer
unfolding answer
nb_mode_query m request value = answer m.submodes 5 m.frame_size request value

-- SB_SUBMODE_BITS is 3; the frame is that of both bands.
unfoldable pub wb_mode_query : SpeexSbMode → ModeRequest → ℤ → Result Answer
unfolding answer
wb_mode_query m request value = answer m.submodes 4 (2 * m.frame_size) request value

-- The distance that the table of nb_decode gives.
abbrev pub skips : ℕ → Result Answer
skips i = load wb_skip_table i >>= λ z. ok (record { ret = pos 0; value = z })

value_of : Result Answer → ℤ
value_of (ok a) = a.value
value_of fault = pos 1
value_of diverges = pos 1

differ : (x y : Result Answer) → value_of x ≢ value_of y → x ≢ y
differ x y ne e = ne (ap value_of e)

-- For a sub-mode below 8, the entry of wb_skip_table in nb_celp.c is the value that
-- wb_mode_query gives for the wideband mode exactly if the sub-mode is one of 1 to 4.
pub wb_skip_table-wb_mode_query :
    (i : ℕ)
    → i < 8
    → (wb_mode_query sb_wb_mode submode_bits_per_frame (pos i) ≡ skips i) ↔ ((1 ≤ i) × (i ≤ 4))
unfolding wb_mode_query sb_wb_mode wb_skip_table wb_submode1 wb_submode2 wb_submode3 wb_submode4
wb_skip_table-wb_mode_query zero h =
    (λ e. absurd (differ _ _ (ground arith) e), λ b. absurd (omega arith))
wb_skip_table-wb_mode_query (suc zero) h = (λ e. (omega arith, omega arith), λ b. refl)
wb_skip_table-wb_mode_query (suc (suc zero)) h = (λ e. (omega arith, omega arith), λ b. refl)
wb_skip_table-wb_mode_query (suc (suc (suc zero))) h = (λ e. (omega arith, omega arith), λ b. refl)
wb_skip_table-wb_mode_query (suc (suc (suc (suc zero)))) h =
    (λ e. (omega arith, omega arith), λ b. refl)
wb_skip_table-wb_mode_query (suc (suc (suc (suc (suc zero))))) h =
    (λ e. absurd (differ _ _ (ground arith) e), λ b. absurd (omega arith))
wb_skip_table-wb_mode_query (suc (suc (suc (suc (suc (suc zero)))))) h =
    (λ e. absurd (differ _ _ (ground arith) e), λ b. absurd (omega arith))
wb_skip_table-wb_mode_query (suc (suc (suc (suc (suc (suc (suc zero))))))) h =
    (λ e. absurd (differ _ _ (ground arith) e), λ b. absurd (omega arith))
wb_skip_table-wb_mode_query (suc (suc (suc (suc (suc (suc (suc (suc i)))))))) h =
    absurd (omega arith)
