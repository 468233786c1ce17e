-- ===== src/Codebook.antt =====
-- The codebooks of the quantizers, one module for each file of the source.
pub mod LspNb
pub mod LspNbLow
pub mod LspNbHigh
pub mod LspHigh
pub mod Exc5
pub mod Exc5Small
pub mod Exc8
pub mod Exc10Small
pub mod Exc10
pub mod Exc20
pub mod Hexc10
pub mod Hexc8
pub mod GainNb
pub mod GainLbr
