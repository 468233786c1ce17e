-- ===== src/Modes/Examples.antt =====
-- A wideband sub-mode in the table of nb_decode.
use speex.Common.{◌≤◌, ◌≡◌, ◌↔◌, arith, pos}
use speex.Modes.Wide.{sb_wb_mode}
use speex.Modes.Query.{submode_bits_per_frame, wb_mode_query, skips, wb_skip_table-wb_mode_query}

wb_skip_table-wb_mode_query_example :
    (wb_mode_query sb_wb_mode submode_bits_per_frame (pos 3) ≡ skips 3) ↔ ((1 ≤ 3) × (3 ≤ 4))
wb_skip_table-wb_mode_query_example = wb_skip_table-wb_mode_query 3 (omega arith)
