-- ===== src/Ethernet/Inserter/Checksum.antt =====
-- The checksum that `ComputeAndInsertIpv4Checksum` puts into an IP header.
use native.Mathlib.Nat.{add-zero, zero-add, mod-eq_of_lt}
use tcp_offload_engine_shell.Prelude.{
  ℕ, zero, suc, ◌+◌, ◌-◌, ◌*◌, ◌/◌, ◌%◌, ◌^◌, ◌≡◌, ◌≢◌, ◌<◌, ◌≤◌, List, [], ◌∷◌, arith, refl, sym,
  ◌∙◌, ap,
}
use tcp_offload_engine_shell.Words.Values.{AllBelow}
use tcp_offload_engine_shell.Words.Bytes.{number_at, div_shifted}
use tcp_offload_engine_shell.Words.Checksum.Sums.{sum, ones_complement}
use tcp_offload_engine_shell.Ethernet.Inserter.{ip_op, ip_ops, level, first_of, ip_chksum}

ip_op-below : (x i : ℕ) → ip_op x i < 2 ^ 16
ip_op-below x i = ground arith

ip_ops-AllBelow : (x i n : ℕ) → AllBelow (2 ^ 16) (ip_ops x i n)
unfolding ip_ops
ip_ops-AllBelow x i zero = tt
ip_ops-AllBelow x i (suc n) = (ip_op-below x i, ip_ops-AllBelow x (suc i) n)

-- A level has room for the sums of its numbers.
level_lem :
    (w b : ℕ) (xs : List ℕ)
    → 2 * b ≤ 2 ^ w
    → AllBelow b xs
    → (sum (level w xs) ≡ sum xs) × AllBelow (2 * b) (level w xs)
unfolding level
level_lem w b [] h a = (refl, tt)
level_lem w b (x ∷ []) h a = ground (arith, a.0)
level_lem w b (x ∷ y ∷ xs) h a =
    let (same, below) = level_lem w b xs h a.1.1 in
    let room : x + y < 2 * b = omega (arith, a.0, a.1.0) in
    let small : (x + y) % 2 ^ w ≡ x + y = mod-eq_of_lt (omega (arith, room, h)) in
    (omega (arith, small, same), (omega (arith, small, room), below))

folded_twice :
    (s : ℕ)
    → s < 2 ^ 21
    → let once = (s % 2 ^ 16 + s / 2 ^ 16) % 2 ^ 17 in
      2 ^ 16 - 1 - (once / 2 ^ 16 + once) % 2 ^ 17 % 2 ^ 16 ≡ 65535 - ones_complement s
unfolding ones_complement
folded_twice s h = ground arith

tree_sum :
    (x : ℕ)
    → let s = first_of (level 21 (level 20 (level 19 (level 18 (level 17 (ip_ops x 0 30)))))) in
      (s ≡ sum (ip_ops x 0 30)) × (s < 2 ^ 21)
unfolding first_of level ip_ops
tree_sum x =
    let ops : List ℕ = ip_ops x 0 30 in
    let (e1, b1) = level_lem 17 (2 ^ 16) ops (omega arith) (ip_ops-AllBelow x 0 30) in
    let (e2, b2) = level_lem 18 (2 ^ 17) (level 17 ops) (omega arith) b1 in
    let (e3, b3) = level_lem 19 (2 ^ 18) (level 18 (level 17 ops)) (omega arith) b2 in
    let (e4, b4) = level_lem 20 (2 ^ 19) (level 19 (level 18 (level 17 ops))) (omega arith) b3 in
    let (e5, b5) =
      level_lem 21 (2 ^ 20) (level 20 (level 19 (level 18 (level 17 ops)))) (omega arith) b4 in
    (
      sym (add-zero (first_of (level 21 (level 20 (level 19 (level 18 (level 17 ops)))))))
          ∙ e5
          ∙ e4
          ∙ e3
          ∙ e2
          ∙ e1,
      b5.0,
    )

-- The sum of `n` 16-bit numbers of a header from number `i` on, each with its higher byte first.
unfoldable pub numbers_sum : ℕ → ℕ → ℕ → ℕ
numbers_sum x i zero = 0
numbers_sum x i (suc n) = number_at x (2 * i) + numbers_sum x (suc i) n

ip_op_there : (x i : ℕ) → i < 2 * (x % 2 ^ 4) → i ≢ 5 → ip_op x i ≡ number_at x (2 * i)
ip_op_there x i h d =
    let lane : ℕ = x / 2 ^ (16 * i) in
    let low : x / 2 ^ (8 * (2 * i)) ≡ lane = ap (λ (n : ℕ). x / 2 ^ n) (omega arith) in
    let high : x / 2 ^ (8 * suc (2 * i)) ≡ lane / 2 ^ 8 =
      ap (λ (n : ℕ). x / 2 ^ n) (omega arith) ∙ div_shifted x (16 * i) 8 in
    rw (low, high) (ground (arith, h, d))

ip_op_absent : (x i : ℕ) → 2 * (x % 2 ^ 4) ≤ i → ip_op x i ≡ 0
ip_op_absent x i h = ground arith

ip_op_of_checksum : (x : ℕ) → ip_op x 5 ≡ 0
ip_op_of_checksum x = ground arith

ip_ops_behind : (x i n : ℕ) → 2 * (x % 2 ^ 4) ≤ i → sum (ip_ops x i n) ≡ 0
unfolding ip_ops
ip_ops_behind x i zero h = refl
ip_ops_behind x i (suc n) h =
    omega (arith, ip_op_absent x i h, ip_ops_behind x (suc i) n (omega (arith, h)))

-- Behind the checksum: `m` numbers that are there, and then `n` that are not.
ip_ops_lem :
    (x i m n : ℕ) → 6 ≤ i → i + m ≡ 2 * (x % 2 ^ 4) → sum (ip_ops x i (m + n)) ≡ numbers_sum x i m
unfolding ip_ops numbers_sum
ip_ops_lem x i zero n h e = rw (zero-add n) (ip_ops_behind x i n (omega (arith, e)))
ip_ops_lem x i (suc m) n h e =
    let all : suc m + n ≡ suc (m + n) = omega arith in
    rw all (
      omega (
        arith,
        ip_op_there x i (omega (arith, e)) (omega (arith, h)),
        ip_ops_lem x (suc i) m n (omega (arith, h)) (omega (arith, e)),
      ))

header_sum :
    (x : ℕ)
    → 5 ≤ x % 2 ^ 4
    → sum (ip_ops x 0 30) ≡ numbers_sum x 0 5 + numbers_sum x 6 (2 * (x % 2 ^ 4) - 6)
unfolding ip_ops numbers_sum
header_sum x h =
    let m : ℕ = 2 * (x % 2 ^ 4) - 6 in
    let split : m + (24 - m) ≡ 24 = omega arith in
    let behind : sum (ip_ops x 6 (m + (24 - m))) ≡ numbers_sum x 6 m =
      ip_ops_lem x 6 m (24 - m) (omega arith) (omega (arith, h)) in
    let rest : sum (ip_ops x 6 24) ≡ numbers_sum x 6 m =
      ap (λ (n : ℕ). sum (ip_ops x 6 n)) (sym split) ∙ behind in
    omega (
      arith,
      rest,
      ip_op_of_checksum x,
      ip_op_there x 0 (omega (arith, h)) (omega arith),
      ip_op_there x 1 (omega (arith, h)) (omega arith),
      ip_op_there x 2 (omega (arith, h)) (omega arith),
      ip_op_there x 3 (omega (arith, h)) (omega arith),
      ip_op_there x 4 (omega (arith, h)) (omega arith),
    )

-- For an IP header of at least 5 words of 4 bytes, the checksum is the complement of the one's
-- complement sum of the 16-bit numbers of the header, each with its higher byte first, without the
-- number 5, which is the place of the checksum itself.
pub ip_chksum_lem :
    (x : ℕ)
    → let words = x % 2 ^ 4 in
      5 ≤ words
      → ip_chksum x ≡ 65535 - ones_complement (numbers_sum x 0 5 + numbers_sum x 6 (2 * words - 6))
unfolding ip_chksum
ip_chksum_lem x h =
    let (same, below) = tree_sum x in
    folded_twice (first_of (level 21 (level 20 (level 19 (level 18 (level 17 (ip_ops x 0 30)))))))
      below
    ∙ ap (λ (t : ℕ). 65535 - ones_complement t) (same ∙ header_sum x h)
