-- ===== src/NbDecode/Layout.antt =====
-- The eight narrowband sub-modes: the bits that their quantizers take, and the frame.
use speex.Common.{ℕ, ◌+◌, ◌-◌, ◌*◌, ◌≡◌, refl, arith, get_elem?, length, ◌^◌, ◌≤◌, ℤ, none, some}
use speex.Bits.{SpeexBits}
use speex.Bits.Unpack.{IsReadable}
use speex.Bits.Consume.{Consumes, Consumes-return, Consumes-count}
use speex.Codebook.GainNb.{gain_cdbk_nb}
use speex.Codebook.GainLbr.{gain_cdbk_lbr}
use speex.CbSearch.Inside.{of_nb_vlbr, of_nb_ulbr, of_nb_lbr, of_nb, of_nb_med, of_sb}
use speex.Modes.{LtpParams, SpeexSubmode, pitch_3tap, forced_pitch, lsp_nb, lsp_lbr}
use speex.CbSearch.{
  split_cb_nb_vlbr, split_cb_nb_ulbr, split_cb_nb_lbr, split_cb_nb, split_cb_nb_med, split_cb_sb,
}
use speex.Modes.Narrow.{
  ltp_params_nb, ltp_params_vlbr, ltp_params_lbr, ltp_params_med, nb_submode1, nb_submode2,
  nb_submode3, nb_submode4, nb_submode5, nb_submode6, nb_submode7, nb_submode8, nb_mode,
}
use speex.NbDecode.{ltp_unquant, lsp_unquant, forced_pitch_unquant, nb_decode_fields}
use speex.NbDecode.Parts.{
  lsp_unquant_nb-Consumes, lsp_unquant_lbr-Consumes, pitch_unquant_3tap-Consumes,
}
use speex.NbDecode.Reading.{
  Costs, frame_bits, subframe_bits, noise-Consumes, split_cb-Consumes,
  nb_decode_fields-Consumes-parts,
}

pub data NbSubmode : Type 0 where
  of_submode1 : NbSubmode
  of_submode2 : NbSubmode
  of_submode3 : NbSubmode
  of_submode4 : NbSubmode
  of_submode5 : NbSubmode
  of_submode6 : NbSubmode
  of_submode7 : NbSubmode
  of_submode8 : NbSubmode

abbrev pub submode_id : NbSubmode → ℕ
submode_id of_submode1 = 1
submode_id of_submode2 = 2
submode_id of_submode3 = 3
submode_id of_submode4 = 4
submode_id of_submode5 = 5
submode_id of_submode6 = 6
submode_id of_submode7 = 7
submode_id of_submode8 = 8

abbrev pub submode : NbSubmode → SpeexSubmode
submode of_submode1 = nb_submode1
submode of_submode2 = nb_submode2
submode of_submode3 = nb_submode3
submode of_submode4 = nb_submode4
submode of_submode5 = nb_submode5
submode of_submode6 = nb_submode6
submode of_submode7 = nb_submode7
submode of_submode8 = nb_submode8

forced-Consumes :
    (start : ℕ) (coef : ℤ) (s : SpeexBits)
    → IsReadable s
    → Consumes (ltp_unquant (some forced_pitch) none start coef s) s 0
unfolding ltp_unquant forced_pitch_unquant
forced-Consumes start coef s r = Consumes-return _ s r

-- A codebook with four entries for each index.
three_tap-Consumes :
    (par : LtpParams)
    → length par.gain_cdbk ≡ 4 * 2 ^ par.gain_bits
    → par.pitch_bits ≤ 32
    → par.gain_bits ≤ 32
    → (start : ℕ) (coef : ℤ) (s : SpeexBits) → IsReadable s
    → Consumes
        (ltp_unquant (some pitch_3tap) (some par) start coef s)
        s
        (par.pitch_bits + par.gain_bits)
unfolding ltp_unquant
three_tap-Consumes par size few few' start coef s r =
    pitch_unquant_3tap-Consumes par start s size few few' r

lbr-costs :
    (m : SpeexSubmode)
    → m.lsp ≡ lsp_lbr
    → (s : SpeexBits) → IsReadable s
    → Consumes (lsp_unquant m.lsp 10 s) s 18
unfolding lsp_unquant
lbr-costs m e s r = rw (e) (lsp_unquant_lbr-Consumes s r)

nb-costs :
    (m : SpeexSubmode)
    → m.lsp ≡ lsp_nb
    → (s : SpeexBits) → IsReadable s
    → Consumes (lsp_unquant m.lsp 10 s) s 30
unfolding lsp_unquant
nb-costs m e s r = rw (e) (lsp_unquant_nb-Consumes s r)

abbrev lsp_bits : NbSubmode → ℕ
lsp_bits of_submode1 = 18
lsp_bits of_submode2 = 18
lsp_bits of_submode3 = 18
lsp_bits of_submode4 = 18
lsp_bits of_submode5 = 30
lsp_bits of_submode6 = 30
lsp_bits of_submode7 = 30
lsp_bits of_submode8 = 18

abbrev ltp_bits : NbSubmode → ℕ
ltp_bits of_submode1 = 0
ltp_bits of_submode2 = 5
ltp_bits of_submode3 = 12
ltp_bits of_submode4 = 12
ltp_bits of_submode5 = 14
ltp_bits of_submode6 = 14
ltp_bits of_submode7 = 14
ltp_bits of_submode8 = 0

abbrev innovation_bits : NbSubmode → ℕ
innovation_bits of_submode1 = 0
innovation_bits of_submode2 = 16
innovation_bits of_submode3 = 20
innovation_bits of_submode4 = 35
innovation_bits of_submode5 = 48
innovation_bits of_submode6 = 64
innovation_bits of_submode7 = 48
innovation_bits of_submode8 = 10

submode-Costs : (k : NbSubmode) → Costs (submode k) (lsp_bits k) (ltp_bits k) (innovation_bits k)
unfolding ltp_params_vlbr ltp_params_lbr ltp_params_med ltp_params_nb gain_cdbk_lbr gain_cdbk_nb
    nb_submode1 nb_submode2 nb_submode3 nb_submode4 nb_submode5 nb_submode6 nb_submode7 nb_submode8
    split_cb_nb_vlbr split_cb_nb_ulbr split_cb_nb_lbr split_cb_nb split_cb_nb_med split_cb_sb
submode-Costs of_submode1 = record {
  reads_lsp = lbr-costs nb_submode1 refl;
  reads_ltp = forced-Consumes;
  reads_innov = noise-Consumes;
}
submode-Costs of_submode2 = record {
  reads_lsp = lbr-costs nb_submode2 refl;
  reads_ltp = three_tap-Consumes ltp_params_vlbr refl (omega arith) (omega arith);
  reads_innov = split_cb-Consumes of_nb_vlbr;
}
submode-Costs of_submode3 = record {
  reads_lsp = lbr-costs nb_submode3 refl;
  reads_ltp = three_tap-Consumes ltp_params_lbr refl (omega arith) (omega arith);
  reads_innov = split_cb-Consumes of_nb_lbr;
}
submode-Costs of_submode4 = record {
  reads_lsp = lbr-costs nb_submode4 refl;
  reads_ltp = three_tap-Consumes ltp_params_med refl (omega arith) (omega arith);
  reads_innov = split_cb-Consumes of_nb_med;
}
submode-Costs of_submode5 = record {
  reads_lsp = nb-costs nb_submode5 refl;
  reads_ltp = three_tap-Consumes ltp_params_nb refl (omega arith) (omega arith);
  reads_innov = split_cb-Consumes of_nb;
}
submode-Costs of_submode6 = record {
  reads_lsp = nb-costs nb_submode6 refl;
  reads_ltp = three_tap-Consumes ltp_params_nb refl (omega arith) (omega arith);
  reads_innov = split_cb-Consumes of_sb;
}
submode-Costs of_submode7 = record {
  reads_lsp = nb-costs nb_submode7 refl;
  reads_ltp = three_tap-Consumes ltp_params_nb refl (omega arith) (omega arith);
  reads_innov = split_cb-Consumes of_nb;
}
submode-Costs of_submode8 = record {
  reads_lsp = lbr-costs nb_submode8 refl;
  reads_ltp = forced-Consumes;
  reads_innov = split_cb-Consumes of_nb_ulbr;
}

listed : (k : NbSubmode) → get_elem? nb_mode.submodes (submode_id k) ≡ some (some (submode k))
unfolding nb_mode
listed of_submode1 = refl
listed of_submode2 = refl
listed of_submode3 = refl
listed of_submode4 = refl
listed of_submode5 = refl
listed of_submode6 = refl
listed of_submode7 = refl
listed of_submode8 = refl

abbrev all_bits : NbSubmode → ℕ
all_bits k =
    frame_bits (submode k) (lsp_bits k) (ltp_bits k) (innovation_bits k) (submode-Costs k)
      (submode_id k)
    + 4 * subframe_bits (submode k) (lsp_bits k) (ltp_bits k) (innovation_bits k) (submode-Costs k)

sums : (k : NbSubmode) → all_bits k ≡ (submode k).bits_per_frame - 5
unfolding nb_submode1 nb_submode2 nb_submode3 nb_submode4 nb_submode5 nb_submode6 nb_submode7
    nb_submode8
sums of_submode1 = refl
sums of_submode2 = refl
sums of_submode3 = refl
sums of_submode4 = refl
sums of_submode5 = refl
sums of_submode6 = refl
sums of_submode7 = refl
sums of_submode8 = refl

-- For each of the sub-modes 1 to 8, which nb_mode lists at that index, what nb_decode reads
-- behind the sub-mode, on every stream whose announced bits are in memory: it returns and never
-- faults, the stream can be read on, and where the bits are there it has read exactly
-- bits_per_frame less the 5 bits in front.
pub nb_decode_fields-Consumes :
    (k : NbSubmode) (seed : ℕ) (s : SpeexBits)
    → IsReadable s
    → (get_elem? nb_mode.submodes (submode_id k) ≡ some (some (submode k)))
      × Consumes
          (nb_decode_fields (submode k) (submode_id k) seed s)
          s
          ((submode k).bits_per_frame - 5)
nb_decode_fields-Consumes k seed s r = (
  listed k,
  Consumes-count _ s _ _ (sums k) (
      nb_decode_fields-Consumes-parts (submode k) (lsp_bits k) (ltp_bits k) (innovation_bits k)
        (submode-Costs k) (submode_id k) seed s r),
)
