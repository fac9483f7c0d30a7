-- ===== src/Words/Checksum/Packets.antt =====
-- The checksum of a whole packet.
use tcp_offload_engine_shell.Words.Cut.{IsPacket}
use native.Mathlib.Nat.{zero-add}
use tcp_offload_engine_shell.Prelude.{
  ℕ, ◌+◌, ◌-◌, ◌≡◌, ◌≤◌, ◌<◌, refl, sym, ap, ◌∙◌, Option, none, some, List, [], ◌∷◌, ◌++◌, length,
  arith, calls,
}
use tcp_offload_engine_shell.Words.{NetAxisWord}
use tcp_offload_engine_shell.Words.Checksum.{
  add_lanes, zeros, halve, first, compute_sub_checksum, check_checksum,
}
use tcp_offload_engine_shell.Words.Bytes.{packet_sum, NoGaps}
use tcp_offload_engine_shell.Words.Checksum.Octets.{total-packet_sum}
use tcp_offload_engine_shell.Words.Checksum.Sums.{
  ones_complement, ones_complement-le, ones_complement_small, sum, AllShort, lanes, total,
  add_lanes_lem, halve_lem, same_behind,
}

-- What is written for the words of a packet: the sums, with the last word.
abbrev pub written_once : List NetAxisWord → List ℕ → List (Option (List ℕ))
written_once [] s = []
written_once (w ∷ []) s = some s ∷ []
written_once (w ∷ v ∷ ws) s = none ∷ written_once (v ∷ ws) s

final_sums : List ℕ → List NetAxisWord → List ℕ
final_sums s [] = s
final_sums s (w ∷ ws) = final_sums (add_lanes 0 s w) ws

packet_sums :
    (ws rest : List NetAxisWord) (s : List ℕ)
    → IsPacket ws
    → calls compute_sub_checksum (length ws) s (ws ++ rest)
      ≡ (zeros 32, written_once ws (final_sums s ws), rest)
unfolding calls compute_sub_checksum final_sums
packet_sums [] rest s h = absurd h
packet_sums (w ∷ []) rest s h = ground arith
packet_sums (w ∷ v ∷ ws) rest s h = ground (arith, packet_sums (v ∷ ws) rest (add_lanes 0 s w) h.1)

final_sums_lem :
    (ws : List NetAxisWord) (s : List ℕ)
    → AllShort s
    → length s ≡ 32
    → (ones_complement (sum (final_sums s ws)) ≡ ones_complement (sum s + total ws))
      × AllShort (final_sums s ws)
      × (length (final_sums s ws) ≡ 32)
unfolding final_sums total
final_sums_lem [] s h e = (ap ones_complement (omega arith), h, e)
final_sums_lem (w ∷ ws) s h e =
    let (same, short, size) = add_lanes_lem 0 s w h in
    let (same', short', size') = final_sums_lem ws (add_lanes 0 s w) short (size ∙ e) in
    let here : ones_complement (sum (add_lanes 0 s w)) ≡ ones_complement (sum s + lanes 0 32 w) =
      same ∙ ap (λ (n : ℕ). ones_complement (sum s + lanes 0 n w)) e in
    (
      same'
          ∙ ap ones_complement (omega arith)
          ∙ same_behind (total ws) (sum (add_lanes 0 s w)) (sum s + lanes 0 32 w) here
          ∙ ap ones_complement (omega arith),
      short',
      size',
    )

first_lem : (xs : List ℕ) → length xs ≡ 1 → first xs ≡ sum xs
unfolding first
first_lem [] e = absurd (omega (arith, e))
first_lem (x ∷ []) e = omega arith
first_lem (x ∷ y ∷ xs) e = absurd (omega (arith, e))

sum_of_one : (xs : List ℕ) → length xs ≡ 1 → AllShort xs → sum xs ≤ 65535
sum_of_one [] e h = omega arith
sum_of_one (x ∷ []) e h = omega (arith, h.0)
sum_of_one (x ∷ y ∷ xs) e h = absurd (omega (arith, e))

check_lem :
    (s : List ℕ) (later : List (List ℕ))
    → AllShort s
    → length s ≡ 32
    → check_checksum (s ∷ later) ≡ (some (65535 - ones_complement (sum s)), later)
unfolding check_checksum
check_lem s later h e =
    let (a, ah, al) = halve_lem 16 s (omega (arith, e)) h in
    let (b, bh, bl) = halve_lem 8 (halve 16 s) (omega (arith, al)) ah in
    let (c, ch, cl) = halve_lem 4 (halve 8 (halve 16 s)) (omega (arith, bl)) bh in
    let (d, dh, dl) = halve_lem 2 (halve 4 (halve 8 (halve 16 s))) (omega (arith, cl)) ch in
    let top : List ℕ = halve 1 (halve 2 (halve 4 (halve 8 (halve 16 s)))) in
    let (f, fh, fl) =
      halve_lem 1 (halve 2 (halve 4 (halve 8 (halve 16 s)))) (omega (arith, dl)) dh in
    let small : sum top ≤ 65535 = sum_of_one top fl fh in
    let root : first top ≡ ones_complement (sum s) =
      first_lem top fl ∙ sym (ones_complement_small (sum top) small) ∙ f ∙ d ∙ c ∙ b ∙ a in
    rw root (ground (arith, ones_complement-le (sum s)))

zeros_sums : (sum (zeros 32) ≡ 0) × AllShort (zeros 32) × (length (zeros 32) ≡ 32)
zeros_sums = omega arith

sums_and_checksum :
    (ws rest : List NetAxisWord) (later : List (List ℕ))
    → IsPacket ws
    → (sums : List ℕ) × (calls compute_sub_checksum (length ws) (zeros 32) (ws ++ rest)
        ≡ (zeros 32, written_once ws sums, rest))
      × (check_checksum (sums ∷ later) ≡ (some (65535 - ones_complement (total ws)), later))
sums_and_checksum ws rest later h =
    let (clear, short, size) = zeros_sums in
    let (same, short', size') = final_sums_lem ws (zeros 32) short size in
    let whole : ones_complement (sum (final_sums (zeros 32) ws)) ≡ ones_complement (total ws) =
      same
      ∙ ap (λ (t : ℕ). ones_complement (t + total ws)) clear
      ∙ ap ones_complement (zero-add (total ws)) in
    (
      final_sums (zeros 32) ws,
      packet_sums ws rest (zeros 32) h,
      rw (← whole) (check_lem (final_sums (zeros 32) ws) later short' size'),
    )

-- From cleared sums, the words of a packet make the first process write its sums once, with the
-- last word, and clear them, and for these sums the second process writes the complement of the
-- one's complement sum of the 16-bit numbers of the packet, each made of two bytes, the higher one
-- first, where a byte that is missing counts as 0. The condition is that no word has the second
-- byte of a pair without the first.
pub packet_checksum :
    (ws rest : List NetAxisWord) (later : List (List ℕ))
    → IsPacket ws
    → NoGaps ws
    → (sums : List ℕ) × (calls compute_sub_checksum (length ws) (zeros 32) (ws ++ rest)
        ≡ (zeros 32, written_once ws sums, rest))
      × (check_checksum (sums ∷ later) ≡ (some (65535 - ones_complement (packet_sum ws)), later))
packet_checksum ws rest later h g =
    let (sums, run, check) = sums_and_checksum ws rest later h in
    (sums, run, rw (← total-packet_sum ws g) check)

complement_verifies : (n : ℕ) → 0 < n → ones_complement (n + (65535 - ones_complement n)) ≡ 65535
unfolding ones_complement
complement_verifies n h = ground arith

-- The sums that are written, in order.
written : List (Option (List ℕ)) → List (List ℕ)
written [] = []
written (none ∷ os) = written os
written (some s ∷ os) = s ∷ written os

written-once :
    (ws : List NetAxisWord) (s : List ℕ) → IsPacket ws → written (written_once ws s) ≡ s ∷ []
unfolding written
written-once [] s h = absurd h
written-once (w ∷ []) s h = refl
written-once (w ∷ v ∷ ws) s h = written-once (v ∷ ws) s h.1

-- The answer of the two processes, one behind the other, to the words of one packet.
unfoldable pub checksum_of : List NetAxisWord → Option ℕ
unfolding written
checksum_of ws =
    let (sums, outs, rest) = calls compute_sub_checksum (length ws) (zeros 32) (ws ++ []) in
    let (checksum, later) = check_checksum (written outs) in checksum

checksum_of_lem :
    (ws : List NetAxisWord)
    → IsPacket ws
    → checksum_of ws ≡ some (65535 - ones_complement (total ws))
unfolding checksum_of
checksum_of_lem ws h =
    let (sums, run, check) = sums_and_checksum ws [] [] h in
    ap
      (λ (x : List ℕ × List (Option (List ℕ)) × List NetAxisWord). (check_checksum (written x.1)).0)
      run
    ∙ ap (λ (s : List (List ℕ)). (check_checksum s).0) (written-once ws sums h)
    ∙ ap (λ (y : Option ℕ × List (List ℕ)). y.0) check

-- Let the processes answer a packet, of which some 16-bit number is not 0, with a checksum. They
-- answer any packet whose 16-bit numbers sum up to those of the first and that checksum with 0.
pub checksum_verifies :
    (ws ws' : List NetAxisWord) (checksum : ℕ)
    → IsPacket ws
    → IsPacket ws'
    → 0 < total ws
    → checksum_of ws ≡ some checksum
    → total ws' ≡ total ws + checksum
    → checksum_of ws' ≡ some 0
checksum_verifies ws ws' checksum h h' pos answer e =
    ground (arith, checksum_of_lem ws h, checksum_of_lem ws' h', complement_verifies (total ws) pos)
