-- ===== src/Words/Checksum/Octets.antt =====
-- The lanes of `ComputeSubChecksum` of hls/utils/axi_utils.hpp as pairs of bytes.
use tcp_offload_engine_shell.Prelude.{
  ℕ, zero, suc, ◌+◌, ◌*◌, ◌/◌, ◌%◌, ◌^◌, ◌==◌, ◌≡◌, ◌≢◌, ◌∙◌, refl, ap, List, [], ◌∷◌,
  if◌then◌else◌, arith,
}
use tcp_offload_engine_shell.Words.{NetAxisWord}
use tcp_offload_engine_shell.Words.Bytes.{octet, octets_sum, packet_sum, NoGaps, div_shifted}
use tcp_offload_engine_shell.Words.Checksum.{lane_value}
use tcp_offload_engine_shell.Words.Checksum.Sums.{lanes, total}

-- A lane and its two bits of `keep`, each moved to the start.
lane_of_two :
    (x k : ℕ)
    → k % 4 ≢ 2
    → (if k % 4 == 3
        then x % 2 ^ 16 % 2 ^ 8 * 2 ^ 8 + x % 2 ^ 16 / 2 ^ 8
        else if k % 4 % 2 == 1
        then x % 2 ^ 16 % 2 ^ 8 * 2 ^ 8
        else 0)
      ≡ 256 * (if k % 2 == 1 then x % 2 ^ 8 else 0)
        + (if k / 2 % 2 == 1 then x / 2 ^ 8 % 2 ^ 8 else 0)
lane_of_two x k h = ground arith

lane_value_lem :
    (i : ℕ) (w : NetAxisWord)
    → w.keep / 2 ^ (2 * i) % 4 ≢ 2
    → lane_value i w ≡ 256 * octet w (2 * i) + octet w (suc (2 * i))
unfolding lane_value
lane_value_lem i w h =
    let x : ℕ = w.word / 2 ^ (16 * i) in
    let low : w.word / 2 ^ (8 * (2 * i)) ≡ x = ap (λ (n : ℕ). w.word / 2 ^ n) (omega arith) in
    let high : w.word / 2 ^ (8 * suc (2 * i)) ≡ x / 2 ^ 8 =
      ap (λ (n : ℕ). w.word / 2 ^ n) (omega arith) ∙ div_shifted w.word (16 * i) 8 in
    let there : w.keep / 2 ^ suc (2 * i) ≡ w.keep / 2 ^ (2 * i) / 2 =
      ap (λ (n : ℕ). w.keep / 2 ^ n) (omega arith) ∙ div_shifted w.keep (2 * i) 1 in
    rw (low, high, there) (lane_of_two x (w.keep / 2 ^ (2 * i)) h)

lanes-octets_sum :
    (i n : ℕ) (w : NetAxisWord)
    → ((j : ℕ) → w.keep / 2 ^ (2 * j) % 4 ≢ 2)
    → lanes i n w ≡ octets_sum i n w
unfolding lanes octets_sum
lanes-octets_sum i zero w h = refl
lanes-octets_sum i (suc n) w h =
    omega (arith, lane_value_lem i w (h i), lanes-octets_sum (suc i) n w h)

pub total-packet_sum : (ws : List NetAxisWord) → NoGaps ws → total ws ≡ packet_sum ws
unfolding total packet_sum
total-packet_sum [] h = refl
total-packet_sum (w ∷ ws) h = omega (arith, lanes-octets_sum 0 32 w h.0, total-packet_sum ws h.1)
