-- ===== src/MathApprox/Examples.antt =====
-- The logarithms of single numbers.
use speex.Common.{◌+◌, ◌*◌, ◌^◌, ◌≤◌, ◌<◌, ◌≡◌, refl, arith}
use speex.MathApprox.{spx_ilog2, spx_ilog4}
use speex.MathApprox.Log.{spx_ilog2_lem, spx_ilog4_lem}

logs : (spx_ilog2 1000 ≡ 9) × (spx_ilog4 1000 ≡ 4)
unfolding spx_ilog2 spx_ilog4
logs = (refl, refl)

spx_ilog2_lem_example : (2 ^ spx_ilog2 1000 ≤ 1000) × (1000 < 2 ^ (spx_ilog2 1000 + 1))
spx_ilog2_lem_example = spx_ilog2_lem 1000 (omega arith) (omega arith)

spx_ilog4_lem_example : (2 ^ (2 * spx_ilog4 1000) ≤ 1000) × (1000 < 2 ^ (2 * spx_ilog4 1000 + 2))
spx_ilog4_lem_example = spx_ilog4_lem 1000 (omega arith) (omega arith)
