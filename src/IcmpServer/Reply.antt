-- ===== src/IcmpServer/Reply.antt =====
-- The answer of the ICMP server to a whole packet.
use tcp_offload_engine_shell.Prelude.{
  ℕ, suc, ◌+◌, ◌*◌, ◌%◌, ◌^◌, ◌≡◌, ap, refl, ◌∙◌, Bool, true, false, Option, none, some, List, [],
  ◌∷◌, ◌++◌, length, map, arith, calls, calls-suc, if◌then◌else◌,
}
use tcp_offload_engine_shell.Words.{NetAxisWord}
use tcp_offload_engine_shell.Words.Bits.{get}
use tcp_offload_engine_shell.Words.Checksum.Sums.{ones_complement}
use tcp_offload_engine_shell.Words.Cut.{IsPacket}
use tcp_offload_engine_shell.IcmpServer.{
  Regs, IcmpState, take_packet, is_request, reply_word, icmp_checksum_tmp, icmp_server,
}

forwarded :
    (ip : ℕ) (stray : Bool) (ws rest : List NetAxisWord) (r : Regs)
    → r.fsm_state ≡ IcmpState.forward
    → IsPacket ws
    → calls (icmp_server ip stray) (length ws) r (ws ++ rest)
      ≡ (record r { fsm_state = IcmpState.read_packet }, map some ws, rest)
unfolding calls icmp_server
forwarded ip stray [] rest r s h = absurd h
forwarded ip stray (w ∷ []) rest r s h = ground arith
forwarded ip stray (w ∷ v ∷ ws) rest r s h =
    ground (arith, forwarded ip stray (v ∷ ws) rest r s h.1)

taken :
    (ip : ℕ) (stray : Bool) (w : NetAxisWord) (rest : List NetAxisWord) (r : Regs)
    → r.fsm_state ≡ IcmpState.read_packet
    → icmp_server ip stray r (w ∷ rest) ≡ (take_packet w, none, rest)
unfolding icmp_server
taken ip stray w rest r s = rw s refl

accepted :
    (ip : ℕ) (stray : Bool) (w : NetAxisWord) (rest : List NetAxisWord)
    → is_request ip (take_packet w) ≡ true
    → icmp_server ip stray (take_packet w) rest
      ≡ (record (take_packet w) { fsm_state = IcmpState.send_first_word }, none, rest)
unfolding icmp_server take_packet
accepted ip stray w rest q = rw q refl

answered :
    (ip : ℕ) (stray l : Bool) (w : NetAxisWord) (rest : List NetAxisWord)
    → w.last ≡ l
    → icmp_server ip stray (record (take_packet w) { fsm_state = IcmpState.send_first_word }) rest
      ≡ (
        record (take_packet w) {
          fsm_state = if l then IcmpState.read_packet else IcmpState.forward;
        },
        some (reply_word (take_packet w)),
        rest,
      )
unfolding icmp_server take_packet reply_word
answered ip stray l w rest e = rw e refl

then_out :
    Option NetAxisWord
    → Regs × List (Option NetAxisWord) × List NetAxisWord
    → Regs × List (Option NetAxisWord) × List NetAxisWord
then_out o x = (x.0, o ∷ x.1, x.2)

answered_whole :
    (ip : ℕ) (stray : Bool) (w v : NetAxisWord) (ws rest : List NetAxisWord) (r : Regs)
    → r.fsm_state ≡ IcmpState.read_packet
    → is_request ip (take_packet w) ≡ true
    → IsPacket (w ∷ v ∷ ws)
    → let (r', os, rest') =
        calls (icmp_server ip stray) (suc (suc (suc (length (v ∷ ws))))) r (w ∷ (v ∷ ws ++ rest)) in
      (r'.fsm_state ≡ IcmpState.read_packet)
      × (os ≡ none ∷ none ∷ some (reply_word (take_packet w)) ∷ map some (v ∷ ws))
      × (rest' ≡ rest)
unfolding then_out
answered_whole ip stray w v ws rest r s q h =
    let i : List NetAxisWord = v ∷ ws ++ rest in
    let n : ℕ = length (v ∷ ws) in
    let go : Regs = record (take_packet w) { fsm_state = IcmpState.forward } in
    let third =
      calls-suc (icmp_server ip stray) n
        (record (take_packet w) { fsm_state = IcmpState.send_first_word }) go i i
        (some (reply_word (take_packet w))) (answered ip stray false w i h.0)
      ∙ ap (then_out (some (reply_word (take_packet w))))
          (forwarded ip stray (v ∷ ws) rest go refl h.1) in
    let second =
      calls-suc (icmp_server ip stray) (suc n) (take_packet w)
        (record (take_packet w) { fsm_state = IcmpState.send_first_word }) i i none
        (accepted ip stray w i q)
      ∙ ap (then_out none) third in
    let first =
      calls-suc (icmp_server ip stray) (suc (suc n)) r (take_packet w) (w ∷ i) i none
        (taken ip stray w i r s)
      ∙ ap (then_out none) second in
    rw first (refl, refl, refl)

-- An echo request for the server's address, whose IP header has a right checksum, is answered with
-- its own words but for the first, by two calls more than it has words.
pub request_answered :
    (ip : ℕ) (stray : Bool) (w : NetAxisWord) (ws rest : List NetAxisWord) (r : Regs)
    → r.fsm_state ≡ IcmpState.read_packet
    → is_request ip (take_packet w) ≡ true
    → IsPacket (w ∷ ws)
    → let (r', os, rest') =
        calls (icmp_server ip stray) (suc (suc (suc (length ws)))) r (w ∷ (ws ++ rest)) in
      (r'.fsm_state ≡ IcmpState.read_packet)
      × (os ≡ none ∷ none ∷ some (reply_word (take_packet w)) ∷ map some ws)
      × (rest' ≡ rest)
unfolding calls
request_answered ip stray w [] rest r s q h =
    rw (taken ip stray w rest r s, accepted ip stray w rest q, answered ip stray true w rest h)
      (refl, refl, refl)
request_answered ip stray w (v ∷ ws) rest r s q h = answered_whole ip stray w v ws rest r s q h

-- Where the checksum of a request is right, for the sum of the other 16-bit numbers behind its
-- type, that of the answer, whose type is 0, is right as well.
pub reply_verifies :
    (w : NetAxisWord) (others : ℕ)
    → ones_complement (0x0800 + others + (get 183 176 w.word * 2 ^ 8 + get 191 184 w.word)) ≡ 65535
    → ones_complement (others + icmp_checksum_tmp (take_packet w) % 2 ^ 16) ≡ 65535
unfolding take_packet ones_complement
reply_verifies w others h = ground (arith, h)
