-- ===== src/RxEngine/PseudoHeader/Inserted.antt =====
-- The packet that `RxEngTcpPseudoHeaderInsert` hands on.
use native.Mathlib.Nat.{one-le-pow, zero-add}
use tcp_offload_engine_shell.Prelude.{
  ℕ, ◌+◌, ◌-◌, ◌*◌, ◌/◌, ◌%◌, ◌^◌, ◌≡◌, ◌≢◌, ◌<◌, ◌≤◌, ap, ◌∙◌, true, Option, some, List, [], ◌∷◌,
  ◌++◌, length, map, arith, calls,
}
use tcp_offload_engine_shell.Conn.Tables.{swap_byte16}
use tcp_offload_engine_shell.Words.{NetAxisWord}
use tcp_offload_engine_shell.Words.Bytes.{number_at}
use tcp_offload_engine_shell.Words.Bits.{get, build}
use tcp_offload_engine_shell.Words.Cut.{IsPacket, words, keeps, left_words, Fits, take_more}
use tcp_offload_engine_shell.Words.Left.{left_value, left_keeps}
use tcp_offload_engine_shell.Words.Values.{value, pow_add}
use tcp_offload_engine_shell.RxEngine.PseudoHeader.Removed.{removed, removed_lem}
use tcp_offload_engine_shell.RxEngine.PseudoHeader.{
  Regs, FsmState, skipped, remove_ip_header, segment_length, insert_pseudo_header, read_header,
  tcp_pseudo_header_insert,
}
use tcp_offload_engine_shell.RxEngine.PseudoHeader.Calls.{
  on_first, with_pseudo_header, single_call, inserted_calls,
}

-- The 12 bytes of the pseudo header as a number.
abbrev pub pseudo_header : Regs → ℕ
pseudo_header r =
    (r.dest_ip_addr * 2 ^ 32 + r.src_ip_addr) % 2 ^ 64
    + 2 ^ 64 * 0x0600
    + 2 ^ 80 * (swap_byte16 (segment_length r) % 2 ^ 16)

-- The pseudo header that belongs to a packet with the first word `x`, as a number: the source
-- address in bytes 12 to 15 of the IP header, the destination address in bytes 16 to 19, 0, the
-- protocol 6, and the length of the segment, its higher byte first. The length is that in bytes 2
-- and 3 of the IP header less the header's own, of which byte 0 gives the words.
abbrev pub pseudo_header_for : ℕ → ℕ
pseudo_header_for x =
    let segment = (number_at x 2 + 2 ^ 16 - 4 * (x % 2 ^ 4)) % 2 ^ 16 in
    x / 2 ^ (8 * 12) % 2 ^ 32
    + 2 ^ 32 * (x / 2 ^ (8 * 16) % 2 ^ 32)
    + 2 ^ (8 * 9) * 6
    + 2 ^ (8 * 10) * (segment / 256)
    + 2 ^ (8 * 11) * (segment % 256)

pseudo_header_of_packet :
    (r : Regs) (p : NetAxisWord) → pseudo_header (read_header r p) ≡ pseudo_header_for p.word
pseudo_header_of_packet r p = omega arith

inserted_word :
    (r : Regs) (w : NetAxisWord)
    → (insert_pseudo_header r w).word ≡ pseudo_header r + 2 ^ 96 * (w.word / 2 ^ 96)
unfolding insert_pseudo_header build
inserted_word r w = omega arith

-- In the words that are sent, all but the first 12 bytes are those of the words without the start
-- of the IP header.
value-on_first :
    (r : Regs) (ws : List NetAxisWord)
    → IsPacket ws
    → value (2 ^ 512) (words (on_first (insert_pseudo_header r) ws))
      ≡ pseudo_header r + 2 ^ 96 * (value (2 ^ 512) (words ws) / 2 ^ 96)
value-on_first r [] h = absurd h
value-on_first r (w ∷ ws) h =
    let v : ℕ = value (2 ^ 512) (words ws) in
    let high : (w.word + 2 ^ 512 * v) / 2 ^ 96 ≡ w.word / 2 ^ 96 + 2 ^ 416 * v = omega arith in
    omega (arith, inserted_word r w, high)

value_keeps :
    (r : Regs) (ws : List NetAxisWord)
    → IsPacket ws
    → value (2 ^ 64) (keeps (on_first (insert_pseudo_header r) ws))
      ≡ 0xFFF + 2 ^ 12 * (value (2 ^ 64) (keeps ws) / 2 ^ 12)
unfolding insert_pseudo_header
value_keeps r [] h = absurd h
value_keeps r (w ∷ ws) h = omega arith

on_first-IsPacket :
    (r : Regs) (ws : List NetAxisWord)
    → IsPacket ws
    → IsPacket (on_first (insert_pseudo_header r) ws)
unfolding insert_pseudo_header
on_first-IsPacket r [] h = absurd h
on_first-IsPacket r (w ∷ []) h = h
on_first-IsPacket r (w ∷ v ∷ ws) h = h

-- For an IP packet with a header of 5 to 15 words of 4 bytes, the words sent are one packet: the
-- bytes from the last 12 of the IP header on, with these 12 replaced by a pseudo header of the
-- source address, the destination address, the protocol 6 and the length of the segment, as bytes
-- 12 to 19 and bytes 0, 2 and 3 of the IP header give them; and the process then stands at the next
-- packet. But for a header of 9 words, the bits of `keep` that are sent are those of the same
-- bytes, with those of the 12 bytes set.
pub pseudo_header_inserted :
    (p : NetAxisWord) (ws rest : List NetAxisWord) (r : Regs)
    → let n = get 3 0 p.word in
      let left = left_words (skipped n) p ws in
      r.fsm_state ≡ FsmState.ip_header
      → 5 ≤ n
      → n ≤ 15
      → IsPacket (p ∷ ws)
      → Fits (p ∷ ws)
      → let sent = with_pseudo_header r p ws in
        let os = take_more ws ++ map some sent in
        let (r', os', rest') = calls tcp_pseudo_header_insert (length os) r (p ∷ (ws ++ rest)) in
        (r'.fsm_state ≡ FsmState.ip_header)
        × (os' ≡ os)
        × (rest' ≡ rest)
        × IsPacket sent
        × (value (2 ^ 512) (words sent)
            ≡ pseudo_header_for p.word
              + 2 ^ 96
                * (value (2 ^ 512) (words (p ∷ ws))
                    / 2 ^ (8 * skipped n)
                    % (2 ^ 512) ^ length left
                    / 2 ^ 96))
        × (n ≢ 9
            → value (2 ^ 64) (keeps sent)
              ≡ 2 ^ 12
                - 1
                + 2 ^ 12
                  * (value (2 ^ 64) (keeps (p ∷ ws))
                      / 2 ^ skipped n
                      % (2 ^ 64) ^ length left
                      / 2 ^ 12))
pseudo_header_inserted p ws rest r s lo hi h a =
    let n : ℕ = get 3 0 p.word in
    let started : Regs = read_header r p in
    let (state, out, empty) = inserted_calls p ws rest r s lo hi h in
    let (same, keep, packet) = removed_lem n p ws lo hi in
    (
      state,
      out,
      empty,
      on_first-IsPacket started (removed n p ws) (packet h),
      value-on_first started (removed n p ws) (packet h)
          ∙ ap (λ (t : ℕ). t + 2 ^ 96 * (value (2 ^ 512) (words (removed n p ws)) / 2 ^ 96))
              (pseudo_header_of_packet r p)
          ∙ ap (λ (t : ℕ). pseudo_header_for p.word + 2 ^ 96 * (t / 2 ^ 96))
              (ap (value (2 ^ 512)) same
                ∙ left_value (skipped n) p ws (omega (arith, lo)) (omega (arith, hi)) h a.0),
      λ d.
          value_keeps started (removed n p ws) (packet h)
          ∙ ap (λ (t : ℕ). 0xFFF + 2 ^ 12 * (t / 2 ^ 12))
              (ap (value (2 ^ 64)) (keep d)
                ∙ left_keeps (skipped n) p ws (omega (arith, lo)) (omega (arith, hi)) h a.1),
    )

short_keep : (l : ℕ) → 48 ≤ l → (2 ^ l - 1) / 2 ^ 36 / 2 ^ 12 * 2 ^ 12 + 0xFFF ≡ 2 ^ (l - 36) - 1
short_keep l h =
    let c : ℕ = 2 ^ (l - 48) in
    let pos : 0 < c = one-le-pow (l - 48) 2 (omega arith) in
    let whole : 2 ^ l ≡ 2 ^ 48 * c =
      ap (λ (t : ℕ). 2 ^ t) (omega (arith, h)) ∙ pow_add 2 48 (l - 48) in
    let short : 2 ^ (l - 36) ≡ 2 ^ 12 * c =
      ap (λ (t : ℕ). 2 ^ t) (omega (arith, h)) ∙ pow_add 2 12 (l - 48) in
    omega (arith, pos, whole, short)

-- For an IP header of 9 words the bits of `keep` are taken 12 bytes too far on: of a packet in one
-- word of l bytes, 48 at least, the word that is sent has l - 36 bytes by its `keep`, not the l -
-- 24 that it holds.
pub keep_of_9_words_short :
    (p : NetAxisWord) (rest : List NetAxisWord) (r : Regs) (l : ℕ)
    → r.fsm_state ≡ FsmState.ip_header
    → p.last ≡ true
    → get 3 0 p.word ≡ 9
    → p.keep ≡ 2 ^ l - 1
    → 48 ≤ l
    → ((calls tcp_pseudo_header_insert 1 r (p ∷ rest)).1 ≡ map some (with_pseudo_header r p []))
      × (keeps (with_pseudo_header r p []) ≡ (2 ^ (l - 36) - 1) ∷ [])
unfolding remove_ip_header insert_pseudo_header
keep_of_9_words_short p rest r l s e n k h = (
  ap (λ (x : Regs × List (Option NetAxisWord) × List NetAxisWord). x.1) (single_call p rest r s e),
  rw (n, k, zero-add ((2 ^ l - 1) / 2 ^ 36)) (ap (λ (t : ℕ). t ∷ []) (short_keep l h)),
)
