-- ===== src/TxEngine/Ipv4/Tail.antt =====
-- The words that `TxEngConstructIpv4Packet` sends behind the first.
use tcp_offload_engine_shell.Words.Cut.{IsPacket, extra_word, final_word, second_words}
use tcp_offload_engine_shell.Prelude.{
  ℕ, suc, ◌+◌, ◌-◌, ◌*◌, ◌/◌, ◌%◌, ◌^◌, ◌<◌, ◌≡◌, ap, refl, true, false, not, some, List, [], ◌∷◌,
  ◌++◌, length, map, arith, calls, All,
}
use tcp_offload_engine_shell.Words.Bits.{build}
use tcp_offload_engine_shell.Words.{NetAxisWord, no_word, bit, concat_two_words}
use tcp_offload_engine_shell.TxEngine.Ipv4.{Regs, Ins, FsmState, first_word, construct_ipv4_packet}

-- What is sent for the words behind `p`.
abbrev pub tail_words : NetAxisWord → List NetAxisWord → List NetAxisWord
tail_words p [] = []
tail_words p (w ∷ []) = record (concat_two_words w p 44 no_word) { last = not (bit w.keep 44) } ∷ []
tail_words p (w ∷ v ∷ ws) =
    record (concat_two_words w p 44 no_word) { last = false } ∷ tail_words w (v ∷ ws)

later_words :
    (p : NetAxisWord) (ws rest : List NetAxisWord) (i : Ins)
    → IsPacket ws
    → calls construct_ipv4_packet
        (length ws)
        (record { fsm_state = FsmState.read_payload; prev_word = p })
        (record i { tcp_packet = ws ++ rest })
      ≡ (
        record { fsm_state = FsmState.read_first; prev_word = final_word p ws },
        map some (tail_words p ws),
        record i { tcp_packet = rest },
      )
unfolding calls construct_ipv4_packet
later_words p [] rest i h = absurd h
later_words p (w ∷ []) rest i h = ground arith
later_words p (w ∷ v ∷ ws) rest i h = ground (arith, later_words w (v ∷ ws) rest i h.1)

tail-extra_word :
    (p : NetAxisWord) (ws : List NetAxisWord)
    → IsPacket ws
    → tail_words p ws ++ extra_word 44 (final_word p ws) ≡ second_words 44 p ws
unfolding second_words
tail-extra_word p [] h = absurd h
tail-extra_word p (w ∷ []) h = ground arith
tail-extra_word p (w ∷ v ∷ ws) h = ground (arith, tail-extra_word w (v ∷ ws) h.1)

tail_not_last :
    (p : NetAxisWord) (ws : List NetAxisWord)
    → bit (final_word p ws).keep 44 ≡ true
    → All (λ (w : NetAxisWord). w.last ≡ false) (tail_words p ws)
tail_not_last p [] h = tt
tail_not_last p (w ∷ []) h = ground arith
tail_not_last p (w ∷ v ∷ ws) h = (refl, tail_not_last w (v ∷ ws) h)

-- The first word of the packet, as bytes: 20 of the IP header, and then the first 44 of the TCP
-- packet, but with the checksum, the higher byte first, in bytes 36 and 37 of the word, and with
-- bit 0 of the byte behind it cleared.
abbrev pub headed_word : NetAxisWord → NetAxisWord → ℕ → NetAxisWord
headed_word h w c = record no_word {
  word =
      h.word % 2 ^ (8 * 20)
      + 2 ^ (8 * 20) * (w.word % 2 ^ (8 * 16))
      + 2 ^ (8 * 36) * (c / 2 ^ 8 + 2 ^ 8 * (c % 2 ^ 8))
      + 2 ^ (8 * 38 + 1) * (w.word / 2 ^ (8 * 18 + 1) % 2 ^ (8 * 26 - 1));
  keep = 2 ^ 20 - 1 + 2 ^ 20 * (w.keep % 2 ^ 44);
  last = false;
}

first_word-headed_word :
    (h w : NetAxisWord) (c : ℕ)
    → c < 2 ^ 16
    → record (first_word h w c) { last = false } ≡ headed_word h w c
unfolding first_word build
first_word-headed_word h w c small =
    let word : (first_word h w c).word ≡ (headed_word h w c).word = omega (arith, small) in
    let keep : (first_word h w c).keep ≡ (headed_word h w c).keep = omega arith in
    rw (word, keep) refl

sent_but_extra :
    (h w : NetAxisWord) (c : ℕ) (ws rest : List NetAxisWord) (r : Regs) (i : Ins)
    → r.fsm_state ≡ FsmState.read_first
    → w.last ≡ false
    → IsPacket ws
    → calls construct_ipv4_packet (suc (length ws)) r (record {
      ipv4_headers = h ∷ i.ipv4_headers;
      tcp_packet = w ∷ (ws ++ rest);
      tcp_checksum = c ∷ i.tcp_checksum;
    })
      ≡ (
        record { fsm_state = FsmState.read_first; prev_word = final_word w ws },
        map some (record (first_word h w c) { last = false } ∷ tail_words w ws),
        record i { tcp_packet = rest },
      )
unfolding calls construct_ipv4_packet
sent_but_extra h w c ws rest r i s l p = ground (arith, later_words w ws rest i p)

-- A TCP packet of more than one word, with its header and its checksum of 16 bits: after as many
-- calls as it has words the process waits for the next packet, with the words sent that are the
-- packet with the IP header in front and the checksum put in (and bit 0 of the byte behind the
-- checksum cleared) but for the extra word. So where the last word of the packet has more than 44
-- bytes the extra word is missing, and no word that was sent has `last`.
pub extra_word_missing :
    (h w : NetAxisWord) (c : ℕ) (ws rest : List NetAxisWord) (r : Regs) (i : Ins)
    → r.fsm_state ≡ FsmState.read_first
    → w.last ≡ false
    → c < 2 ^ 16
    → IsPacket ws
    → let sent = headed_word h w c ∷ tail_words w ws in
      (calls construct_ipv4_packet (suc (length ws)) r (record {
        ipv4_headers = h ∷ i.ipv4_headers;
        tcp_packet = w ∷ (ws ++ rest);
        tcp_checksum = c ∷ i.tcp_checksum;
      })
        ≡ (
          record { fsm_state = FsmState.read_first; prev_word = final_word w ws },
          map some sent,
          record i { tcp_packet = rest },
        ))
      × (sent ++ extra_word 44 (final_word w ws) ≡ headed_word h w c ∷ second_words 44 w ws)
      × (bit (final_word w ws).keep 44 ≡ true → All (λ (v : NetAxisWord). v.last ≡ false) sent)
extra_word_missing h w c ws rest r i s l small p = rw (← first_word-headed_word h w c small) (
  sent_but_extra h w c ws rest r i s l p,
  ap (λ (vs : List NetAxisWord). record (first_word h w c) { last = false } ∷ vs)
      (tail-extra_word w ws p),
  λ b. (refl, tail_not_last w ws b),
)
