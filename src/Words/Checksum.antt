-- ===== src/Words/Checksum.antt =====
-- `ComputeSubChecksum` and `CheckChecksum` of hls/utils/axi_utils.hpp and axi_utils.cpp: the sum of
-- the 16-bit numbers of a packet, in 32 lanes and then in a tree.
pub mod Sums
pub mod Octets
pub mod Packets
use tcp_offload_engine_shell.Prelude.{
  ℕ, zero, suc, ◌+◌, ◌-◌, ◌*◌, ◌/◌, ◌%◌, ◌^◌, ◌==◌, Bool, Option, none, some, List, [], ◌∷◌,
  if◌then◌else◌, read,
}
use tcp_offload_engine_shell.Words.{NetAxisWord}

-- `s += t; s = (s + (s >> 16)) & 0xFFFF`, where `s` has 17 bits.
unfoldable pub add_fold : ℕ → ℕ → ℕ
add_fold s t = let u = (s + t) % 2 ^ 17 in (u + u / 2 ^ 16) % 2 ^ 16

-- The 16-bit number in lane `i`, in network byte order; a byte alone is the higher one.
unfoldable pub lane_value : ℕ → NetAxisWord → ℕ
lane_value i w =
    let lane = w.word / 2 ^ (16 * i) % 2 ^ 16 in
    let there = w.keep / 2 ^ (2 * i) % 4 in
    if there == 3
    then lane % 2 ^ 8 * 2 ^ 8 + lane / 2 ^ 8
    else if there % 2 == 1
    then lane % 2 ^ 8 * 2 ^ 8
    else 0

-- A lane that has no byte is left alone.
pub add_lanes : ℕ → List ℕ → NetAxisWord → List ℕ
add_lanes i [] w = []
add_lanes i (s ∷ ss) w =
    (if w.keep / 2 ^ (2 * i) % 2 == 1 then add_fold s (lane_value i w) else s)
    ∷ add_lanes (suc i) ss w

abbrev pub zeros : ℕ → List ℕ
zeros zero = []
zeros (suc n) = 0 ∷ zeros n

-- One call of `ComputeSubChecksum`, with the 32 sums of `tcp_checksums`: the sums of a whole packet
-- are written.
unfoldable pub compute_sub_checksum :
    List ℕ → List NetAxisWord → List ℕ × Option (List ℕ) × List NetAxisWord
unfolding add_lanes
compute_sub_checksum sums i = elim (read i) [
  | some (w, rest) ↦
      let sums' = add_lanes 0 sums w in
      if w.last then (zeros 32, some sums', rest) else (sums', none, rest)
  | none ↦ (sums, none, i)
]

-- `sum[i] = fold (sum[i] + sum[i + n])` for `i < n`. The sums from `n` on are not used again.
add_pairs : List ℕ → List ℕ → List ℕ
add_pairs (x ∷ xs) (y ∷ ys) = add_fold x y ∷ add_pairs xs ys
add_pairs _ _ = []

take : ℕ → List ℕ → List ℕ
take zero xs = []
take (suc n) [] = []
take (suc n) (x ∷ xs) = x ∷ take n xs

drop : ℕ → List ℕ → List ℕ
drop zero xs = xs
drop (suc n) [] = []
drop (suc n) (x ∷ xs) = drop n xs

pub halve : ℕ → List ℕ → List ℕ
unfolding add_pairs take drop
halve n sums = add_pairs (take n sums) (drop n sums)

pub first : List ℕ → ℕ
first [] = 0
first (x ∷ xs) = x

-- One call of `CheckChecksum`.
unfoldable pub check_checksum : List (List ℕ) → Option ℕ × List (List ℕ)
unfolding halve first
check_checksum i = elim (read i) [
  | some (sums, rest) ↦
      let sum = first (halve 1 (halve 2 (halve 4 (halve 8 (halve 16 sums))))) in
      (some ((2 ^ 17 - 1 - sum) % 2 ^ 16), rest)
  | none ↦ (none, i)
]
