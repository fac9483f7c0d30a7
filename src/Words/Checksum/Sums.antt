-- ===== src/Words/Checksum/Sums.antt =====
-- The checksum of a packet against the sum of its 16-bit numbers.
use tcp_offload_engine_shell.Prelude.{
  ℕ, zero, suc, ◌+◌, ◌-◌, ◌*◌, ◌/◌, ◌%◌, ◌^◌, ◌==◌, ◌≡◌, ◌≢◌, ◌≤◌, refl, sym, ap, ◌∙◌, List, [],
  ◌∷◌, if◌then◌else◌, length, All, arith,
}
use tcp_offload_engine_shell.Words.{NetAxisWord}
use tcp_offload_engine_shell.Words.Checksum.{
  add_fold, lane_value, add_lanes, add_pairs, take, drop, halve,
}

-- A sum in one's complement of 16 bits: the number up to 65535 that is congruent to it, and 0 only
-- for 0.
unfoldable pub ones_complement : ℕ → ℕ
ones_complement n = if n == 0 then 0 else (n - 1) % 65535 + 1

pub ones_complement-le : (n : ℕ) → ones_complement n ≤ 65535
unfolding ones_complement
ones_complement-le n = ground arith

pub ones_complement_small : (n : ℕ) → n ≤ 65535 → ones_complement n ≡ n
unfolding ones_complement
ones_complement_small n h = ground arith

pub ones_complement_add :
    (a b : ℕ) → ones_complement (ones_complement a + b) ≡ ones_complement (a + b)
unfolding ones_complement
ones_complement_add a b = ground arith

add_fold_lem : (s t : ℕ) → s ≤ 65535 → t ≤ 65535 → add_fold s t ≡ ones_complement (s + t)
unfolding ones_complement add_fold
add_fold_lem s t h k = ground arith

lane_value-le : (i : ℕ) (w : NetAxisWord) → lane_value i w ≤ 65535
unfolding lane_value
lane_value-le i w = ground arith

abbrev pub sum : List ℕ → ℕ
sum [] = 0
sum (x ∷ xs) = x + sum xs

abbrev pub AllShort : List ℕ → Type 0
AllShort xs = All (λ (x : ℕ). x ≤ 65535) xs

-- Sums may be replaced by congruent ones behind another number.
pub same_behind :
    (x r r' : ℕ)
    → ones_complement r ≡ ones_complement r'
    → ones_complement (x + r) ≡ ones_complement (x + r')
same_behind x r r' e =
    ap ones_complement (omega arith)
    ∙ sym (ones_complement_add r x)
    ∙ ap (λ (t : ℕ). ones_complement (t + x)) e
    ∙ ones_complement_add r' x
    ∙ ap ones_complement (omega arith)

pub add_congruent :
    (a r r' : ℕ)
    → ones_complement r ≡ ones_complement r'
    → ones_complement (ones_complement a + r) ≡ ones_complement (a + r')
add_congruent a r r' e = ones_complement_add a r ∙ same_behind a r r' e

-- The 16-bit numbers of `n` lanes from lane `i` on, and of all 32 lanes of the words of a packet.
unfoldable pub lanes : ℕ → ℕ → NetAxisWord → ℕ
lanes i zero w = 0
lanes i (suc n) w = lane_value i w + lanes (suc i) n w

unfoldable pub total : List NetAxisWord → ℕ
total [] = 0
total (w ∷ ws) = lanes 0 32 w + total ws

lane_value_absent : (i : ℕ) (w : NetAxisWord) → w.keep / 2 ^ (2 * i) % 2 ≢ 1 → lane_value i w ≡ 0
unfolding lane_value
lane_value_absent i w h = ground arith

lane_step :
    (i s : ℕ) (w : NetAxisWord)
    → s ≤ 65535
    → (if w.keep / 2 ^ (2 * i) % 2 == 1 then add_fold s (lane_value i w) else s)
      ≡ ones_complement (s + lane_value i w)
lane_step i s w h = ground (
  arith,
  add_fold_lem s (lane_value i w) h (lane_value-le i w),
  lane_value_absent i w,
  ones_complement_small s h,
)

pub add_lanes_lem :
    (i : ℕ) (ss : List ℕ) (w : NetAxisWord)
    → AllShort ss
    → (ones_complement (sum (add_lanes i ss w)) ≡ ones_complement (sum ss + lanes i (length ss) w))
      × AllShort (add_lanes i ss w)
      × (length (add_lanes i ss w) ≡ length ss)
unfolding add_lanes lanes
add_lanes_lem i [] w h = (refl, tt, refl)
add_lanes_lem i (s ∷ ss) w h =
    let (same, short, size) = add_lanes_lem (suc i) ss w h.1 in
    let v : ℕ = lane_value i w in
    let step = lane_step i s w h.0 in
    let rest : ℕ = lanes (suc i) (length ss) w in
    (
      rw step (
          add_congruent (s + v) (sum (add_lanes (suc i) ss w)) (sum ss + rest) same
          ∙ ap ones_complement (omega arith)),
      (rw step (ones_complement-le (s + v)), short),
      ap suc size,
    )

add_pairs_lem :
    (xs ys : List ℕ)
    → length xs ≡ length ys
    → AllShort xs
    → AllShort ys
    → (ones_complement (sum (add_pairs xs ys)) ≡ ones_complement (sum xs + sum ys))
      × AllShort (add_pairs xs ys)
      × (length (add_pairs xs ys) ≡ length xs)
unfolding add_pairs
add_pairs_lem [] [] e h k = (refl, tt, refl)
add_pairs_lem [] (y ∷ ys) e h k = absurd (omega (arith, e))
add_pairs_lem (x ∷ xs) [] e h k = absurd (omega (arith, e))
add_pairs_lem (x ∷ xs) (y ∷ ys) e h k =
    let (same, short, size) = add_pairs_lem xs ys (omega (arith, e)) h.1 k.1 in
    let step = add_fold_lem x y h.0 k.0 in
    (
      rw step (
          add_congruent (x + y) (sum (add_pairs xs ys)) (sum xs + sum ys) same
          ∙ ap ones_complement (omega arith)),
      (rw step (ones_complement-le (x + y)), short),
      ap suc size,
    )

take-drop :
    (n : ℕ) (xs : List ℕ)
    → n ≤ length xs
    → AllShort xs
    → (length (take n xs) ≡ n)
      × (length (drop n xs) + n ≡ length xs)
      × (sum (take n xs) + sum (drop n xs) ≡ sum xs)
      × AllShort (take n xs)
      × AllShort (drop n xs)
unfolding take drop
take-drop zero xs e h = (refl, omega arith, omega arith, tt, h)
take-drop (suc n) [] e h = absurd (omega (arith, e))
take-drop (suc n) (x ∷ xs) e h =
    let (size, size', parts, short, short') = take-drop n xs (omega (arith, e)) h.1 in
    (ap suc size, omega (arith, size'), omega (arith, parts), (h.0, short), short')

pub halve_lem :
    (n : ℕ) (xs : List ℕ)
    → length xs ≡ n + n
    → AllShort xs
    → (ones_complement (sum (halve n xs)) ≡ ones_complement (sum xs))
      × AllShort (halve n xs)
      × (length (halve n xs) ≡ n)
unfolding halve
halve_lem n xs e h =
    let (size, size', parts, short, short') = take-drop n xs (omega (arith, e)) h in
    let (same, all, len) =
      add_pairs_lem (take n xs) (drop n xs) (omega (arith, size, size', e)) short short' in
    (same ∙ ap ones_complement parts, all, omega (arith, len, size))
