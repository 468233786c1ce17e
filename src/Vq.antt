-- ===== src/Vq.antt =====
-- libspeex/vq.c: scalar quantization and the search of the best entries of a codebook. A 16 or 32 bit word is the integer that it stands for.
pub mod Scalar
pub mod Insert
pub mod Ranked
pub mod Ranking
pub mod Distance
pub mod Nbest
mod Examples
use speex.Common.{ℕ, zero, suc, ◌+◌, ◌-◌, ◌*◌, Bool, true, false, ◌||◌, List, ℤ, pos, ltb, ltb_ℤ}
use speex.Common.{if◌then◌else◌, Result, ok, fault, ◌>>=◌, load, store}
use speex.Fixed.{mult16_16, shr, add32, sub32, neg32}

-- while (i<entries-1 && in>boundary[0]) { boundary++; i++; }, with `entries - 1 - i` rounds left
unfoldable pub quant_loop : ℤ → List ℤ → ℕ → ℕ → Result ℕ
quant_loop input boundary i zero = ok i
quant_loop input boundary i (suc left) = do
  b ← load boundary i
  let rest = quant_loop input boundary (i + 1) left in if ltb_ℤ b input then rest else ok i

unfoldable pub scal_quant : ℤ → List ℤ → ℕ → Result ℕ
unfolding quant_loop
scal_quant input boundary entries = quant_loop input boundary 0 (entries - 1)

unfoldable pub scal_quant32 : ℤ → List ℤ → ℕ → Result ℕ
unfolding quant_loop
scal_quant32 input boundary entries = quant_loop input boundary 0 (entries - 1)

-- dist = MAC16_16(dist,in[j],*codebook++), with `left` rounds left; 32-bit sums wrap
unfoldable pub correlate : List ℤ → List ℤ → ℕ → ℕ → ℤ → ℕ → Result ℤ
unfolding add32 mult16_16
correlate input codebook base j dist zero = ok dist
correlate input codebook base j dist (suc left) = do
  a ← load input j
  b ← load codebook (base + j)
  correlate input codebook base (j + 1) (add32 dist (mult16_16 a b)) left

-- The distance of entry `i` and what is added to `i` in `nbest`.
unfoldable pub distance : List ℤ → List ℤ → ℕ → List ℤ → ℕ → Result (ℤ × ℕ)
unfolding correlate sub32 shr
distance input codebook len energy i = do
  dist ← correlate input codebook (len * i) 0 (pos 0) len
  e ← load energy i
  ok (sub32 (shr e 1) dist, 0)

unfoldable pub distance_sign : List ℤ → List ℤ → ℕ → ℕ → List ℤ → ℕ → Result (ℤ × ℕ)
unfolding correlate add32 shr
distance_sign input codebook len entries energy i = do
  dist ← correlate input codebook (len * i) 0 (pos 0) len
  e ← load energy i
  if ltb_ℤ (pos 0) dist
      then ok (add32 (neg32 dist) (shr e 1), 0)
      else ok (add32 dist (shr e 1), entries)

-- for (k=N-1;(k >= 1) && (k > used || dist < best_dist[k-1]);k--), and the `k` where it stops
unfoldable pub make_room : ℤ → ℕ → List ℕ → List ℤ → ℕ → Result (ℕ × List ℕ × List ℤ)
make_room dist used nbest best_dist zero = ok (0, nbest, best_dist)
make_room dist used nbest best_dist (suc k) = do
  d ← load best_dist k
  let move = (do
    best_dist' ← store best_dist (suc k) d
    n ← load nbest k
    nbest' ← store nbest (suc k) n
    make_room dist used nbest' best_dist' k)
  if ltb used (suc k) || ltb_ℤ dist d then move else ok (suc k, nbest, best_dist)

-- if (i<N || dist<best_dist[N-1])
unfoldable pub qualifies : ℕ → ℕ → ℤ → List ℤ → Result Bool
qualifies i size dist best_dist =
    if ltb i size
    then ok true
    else elim size [ zero ↦ fault | suc last ↦ (do d ← load best_dist last; ok (ltb_ℤ dist d)) ]

-- The candidate `i`, where `state` is `used`, `nbest` and `best_dist`.
unfoldable pub consider : ℕ → ℕ → ℤ → ℕ → ℕ × List ℕ × List ℤ → Result (ℕ × List ℕ × List ℤ)
unfolding make_room qualifies
consider size i dist more (used, nbest, best_dist) = do
  good ← qualifies i size dist best_dist
  if good
      then (do
        (k, nbest1, best_dist1) ← make_room dist used nbest best_dist (size - 1)
        best_dist2 ← store best_dist1 k dist
        nbest2 ← store nbest1 k (i + more)
        ok (used + 1, nbest2, best_dist2))
      else ok (used, nbest, best_dist)

-- for (i=0;i<entries;i++), with `left` candidates left
unfoldable pub search_loop :
    (ℕ → Result (ℤ × ℕ)) → ℕ → ℕ → ℕ × List ℕ × List ℤ → ℕ → Result (ℕ × List ℕ × List ℤ)
unfolding consider
search_loop dist_of size i state zero = ok state
search_loop dist_of size i state (suc left) = do
  (dist, more) ← dist_of i
  state' ← consider size i dist more state
  search_loop dist_of size (i + 1) state' left

unfoldable pub vq_nbest :
    List ℤ → List ℤ → ℕ → ℕ → List ℤ → ℕ → List ℕ → List ℤ → Result (List ℕ × List ℤ)
unfolding search_loop distance
vq_nbest input codebook len entries energy size nbest best_dist = do
  (_, nbest', best_dist') ←
      search_loop (distance input codebook len energy) size 0 (0, nbest, best_dist) entries
  ok (nbest', best_dist')

unfoldable pub vq_nbest_sign :
    List ℤ → List ℤ → ℕ → ℕ → List ℤ → ℕ → List ℕ → List ℤ → Result (List ℕ × List ℤ)
unfolding search_loop distance_sign
vq_nbest_sign input codebook len entries energy size nbest best_dist = do
  (_, nbest', best_dist') ←
      search_loop (distance_sign input codebook len entries energy) size 0 (0, nbest, best_dist)
        entries
  ok (nbest', best_dist')
