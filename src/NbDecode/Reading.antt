-- ===== src/NbDecode/Reading.antt =====
-- How many bits a narrowband frame takes behind the sub-mode.
use speex.Common.{
  ℕ, zero, suc, ◌+◌, ◌*◌, ◌≤◌, ◌≡◌, arith, List, [], ◌∷◌, length, ℤ, pos, Bool-cases, inl, inr,
  none, some,
}
use speex.Common.{◌==◌, if◌then◌else◌, ok, replicate}
use speex.Bits.{SpeexBits}
use speex.Bits.Unpack.{IsReadable}
use speex.Bits.Consume.{Consumes, Consumes-return, Consumes-bind, Consumes-map, Consumes-count}
use speex.CbSearch.{split_cb_shape_sign_unquant}
use speex.CbSearch.Inside.{SplitCb, params}
use speex.CbSearch.Reading.{sign_bits, split_cb_shape_sign_unquant-Consumes}
use speex.CbSearch.Noise.{noise_codebook_unquant-ok}
use speex.Modes.{SpeexSubmode, noise_codebook, split_cb}
use speex.NbDecode.{
  subframe_gain, read_ol_pitch, read_pitch_coef, read_ol_gain, read_dtx, Frame, innovation_unquant,
  second_innovation, ltp_unquant, pit_min, lsp_unquant, read_frame, read_subframe, read_subframes,
  nb_decode_fields,
}
use speex.NbDecode.Parts.{
  gain_bits, subframe_gain-Consumes, ol_pitch_bits, read_ol_pitch-Consumes, coef_bits,
  read_pitch_coef-Consumes, dtx_bits, read_dtx-Consumes, read_ol_gain-Consumes,
}

-- What the quantizers of a sub-mode take.
pub record Costs (m : SpeexSubmode) (lsp ltp innov : ℕ) : Type 0 where
  pub reads_lsp : (s : SpeexBits) → IsReadable s → Consumes (lsp_unquant m.lsp 10 s) s lsp
  pub reads_ltp :
      (start : ℕ) (coef : ℤ) (s : SpeexBits)
      → IsReadable s
      → Consumes (ltp_unquant m.ltp m.ltp_params start coef s) s ltp
  pub reads_innov :
      (exc : List ℤ) (seed : ℕ) (s : SpeexBits)
      → 40 ≤ length exc
      → IsReadable s
      → Consumes (innovation_unquant m.innovation m.innovation_params exc seed s) s innov

pub noise-Consumes :
    (exc : List ℤ) (seed : ℕ) (s : SpeexBits)
    → 40 ≤ length exc
    → IsReadable s
    → Consumes (innovation_unquant (some noise_codebook) none exc seed s) s 0
unfolding innovation_unquant
noise-Consumes exc seed s room r =
    let (exc', seed', runs, same) = noise_codebook_unquant-ok exc 0 seed 40 room in
    rw (runs) (Consumes-return (record { innov = exc'; seed = seed' }) s r)

abbrev pub innov_bits : SplitCb → ℕ
innov_bits k = (sign_bits (params k) + (params k).shape_bits) * (params k).nb_subvect

pub split_cb-Consumes :
    (k : SplitCb) (exc : List ℤ) (seed : ℕ) (s : SpeexBits)
    → 40 ≤ length exc
    → IsReadable s
    → Consumes (innovation_unquant (some split_cb) (some (params k)) exc seed s) s (innov_bits k)
unfolding innovation_unquant
split_cb-Consumes k exc seed s room r =
    Consumes-map (split_cb_shape_sign_unquant exc (params k) s) _ s (innov_bits k)
      (split_cb_shape_sign_unquant-Consumes k exc s room r)

abbrev second_bits : SpeexSubmode → ℕ → ℕ
second_bits m innov = if m.double_codebook == 0 then 0 else innov

module _ (m : SpeexSubmode) (lsp ltp innov : ℕ) (c : Costs m lsp ltp innov) where
  second_innovation-Consumes :
      (seed : ℕ) (s : SpeexBits)
      → IsReadable s
      → Consumes (second_innovation m seed s) s (second_bits m innov)
  unfolding second_innovation
  second_innovation-Consumes seed s r = elim (Bool-cases (m.double_codebook == 0)) [
    | inl e ↦ rw (e) (Consumes-return (record { innov = []; seed = seed }) s r)
    | inr e ↦ rw (e) (c.reads_innov (replicate 40 (pos 0)) seed s (omega arith) r)
  ]

  abbrev pub subframe_bits : ℕ
  subframe_bits = ltp + (gain_bits m.have_subframe_gain + (innov + second_bits m innov))

  read_subframe-Consumes :
      (f : Frame) (seed : ℕ) (s : SpeexBits)
      → IsReadable s
      → Consumes (read_subframe m f seed s) s subframe_bits
  unfolding read_subframe
  read_subframe-Consumes f seed s r =
      Consumes-bind
        (ltp_unquant m.ltp m.ltp_params (pit_min m.lbr_pitch f.ol_pitch) f.ol_pitch_coef s) _ s ltp
        _ (c.reads_ltp (pit_min m.lbr_pitch f.ol_pitch) f.ol_pitch_coef s r)
        (λ p s1 e1 r1.
          Consumes-bind (subframe_gain m.have_subframe_gain f.ol_gain s1) _ s1
            (gain_bits m.have_subframe_gain) _
            (subframe_gain-Consumes m.have_subframe_gain f.ol_gain s1 r1)
            (λ g s2 e2 r2.
              Consumes-bind
                (innovation_unquant m.innovation m.innovation_params (replicate 40 (pos 0)) seed s2)
                _ s2 innov _ (c.reads_innov (replicate 40 (pos 0)) seed s2 (omega arith) r2)
                (λ a s3 e3 r3.
                  Consumes-map (second_innovation m a.seed s3) _ s3 _
                    (second_innovation-Consumes a.seed s3 r3))))

  read_subframes-Consumes :
      (f : Frame) (left seed : ℕ) (s : SpeexBits)
      → IsReadable s
      → Consumes (read_subframes m f seed s left) s (left * subframe_bits)
  unfolding read_subframes
  read_subframes-Consumes f zero seed s r =
      Consumes-count (ok ([], s)) s 0 (0 * subframe_bits) (nothing subframe_bits)
        (Consumes-return [] s r)
    where
      nothing : (n : ℕ) → 0 ≡ 0 * n
      nothing n = omega arith
  read_subframes-Consumes f (suc left) seed s r =
      Consumes-count _ s (subframe_bits + left * subframe_bits) _ (one_more subframe_bits left) (
        Consumes-bind (read_subframe m f seed s) _ s subframe_bits (left * subframe_bits)
          (read_subframe-Consumes f seed s r)
          (λ x s1 e r1.
            Consumes-map (read_subframes m f x.second.seed s1 left) (λ rest. x ∷ rest) s1 _
              (read_subframes-Consumes f left x.second.seed s1 r1)))
    where
      one_more : (n left : ℕ) → n + left * n ≡ suc left * n
      one_more n left = grind arith

  abbrev pub frame_bits : ℕ → ℕ
  frame_bits id =
      lsp + (ol_pitch_bits m.lbr_pitch + (coef_bits m.forced_pitch_gain + (5 + dtx_bits id)))

  read_frame-Consumes :
      (id : ℕ) (s : SpeexBits) → IsReadable s → Consumes (read_frame m id s) s (frame_bits id)
  unfolding read_frame
  read_frame-Consumes id s r =
      Consumes-bind (lsp_unquant m.lsp 10 s) _ s lsp _ (c.reads_lsp s r) (λ q s1 e1 r1.
        Consumes-bind (read_ol_pitch m.lbr_pitch s1) _ s1 (ol_pitch_bits m.lbr_pitch) _
          (read_ol_pitch-Consumes m.lbr_pitch s1 r1)
          (λ p s2 e2 r2.
            Consumes-bind (read_pitch_coef m.forced_pitch_gain s2) _ s2
              (coef_bits m.forced_pitch_gain) _ (read_pitch_coef-Consumes m.forced_pitch_gain s2 r2)
              (λ k s3 e3 r3.
                Consumes-bind (read_ol_gain s3) _ s3 5 _ (read_ol_gain-Consumes s3 r3)
                  (λ g s4 e4 r4.
                    Consumes-map (read_dtx id s4) _ s4 _ (read_dtx-Consumes id s4 r4)))))

  pub nb_decode_fields-Consumes-parts :
      (id seed : ℕ) (s : SpeexBits)
      → IsReadable s
      → Consumes (nb_decode_fields m id seed s) s (frame_bits id + 4 * subframe_bits)
  unfolding nb_decode_fields
  nb_decode_fields-Consumes-parts id seed s r =
      Consumes-bind (read_frame m id s) _ s (frame_bits id) _ (read_frame-Consumes id s r)
        (λ f s1 e r1.
          Consumes-map (read_subframes m f seed s1 4) _ s1 _
            (read_subframes-Consumes f 4 seed s1 r1))
