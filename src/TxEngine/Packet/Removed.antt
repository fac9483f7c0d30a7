-- ===== src/TxEngine/Packet/Removed.antt =====
-- What `TxEngRemovePseudoHeader` leaves of a packet.
use tcp_offload_engine_shell.Words.Cut.{
  left_words, take_more, IsPacket, final_word, second_words, words,
}
use tcp_offload_engine_shell.Words.Left.{left_words-IsPacket, left_value}
use tcp_offload_engine_shell.Prelude.{
  ◌+◌, ◌/◌, ◌%◌, ◌^◌, ◌≡◌, some, List, [], ◌∷◌, ◌++◌, length, map, arith, calls,
}
use tcp_offload_engine_shell.Words.{NetAxisWord}
use tcp_offload_engine_shell.Words.Values.{value, AllBelow}
use tcp_offload_engine_shell.TxEngine.Packet.{RemoverRegs, RemoverFsmState, remove_pseudo_header}

more_words :
    (p : NetAxisWord) (ws rest : List NetAxisWord)
    → IsPacket ws
    → calls remove_pseudo_header
        (length (second_words 12 p ws))
        (record { fsm_state = RemoverFsmState.read_more_payload; prev_word = p })
        (ws ++ rest)
      ≡ (
        record { fsm_state = RemoverFsmState.read_first; prev_word = final_word p ws },
        map some (second_words 12 p ws),
        rest,
      )
unfolding calls remove_pseudo_header second_words
more_words p [] rest h = absurd h
more_words p (w ∷ []) rest h = ground arith
more_words p (w ∷ v ∷ ws) rest h = ground (arith, more_words w (v ∷ ws) rest h.1)

removed_calls :
    (p : NetAxisWord) (ws rest : List NetAxisWord) (r : RemoverRegs)
    → r.fsm_state ≡ RemoverFsmState.read_first
    → IsPacket (p ∷ ws)
    → let (r', os, rest') =
        calls remove_pseudo_header
          (length (left_words 12 p ws) + length (take_more ws))
          r
          (p ∷ (ws ++ rest)) in
      (r'.fsm_state ≡ RemoverFsmState.read_first)
      × (os ≡ take_more ws ++ map some (left_words 12 p ws))
      × (rest' ≡ rest)
unfolding calls remove_pseudo_header
removed_calls p [] rest r s h = ground arith
removed_calls p (w ∷ ws) rest r s h = ground (arith, more_words p (w ∷ ws) rest h.1)

-- A packet of the words `p ∷ ws` leaves without its first 12 bytes, as one packet, after one call
-- for each word sent and, if it has more than one word, one before.
pub pseudo_header_removed :
    (p : NetAxisWord) (ws rest : List NetAxisWord) (r : RemoverRegs)
    → r.fsm_state ≡ RemoverFsmState.read_first
    → IsPacket (p ∷ ws)
    → AllBelow (2 ^ 512) (words (p ∷ ws))
    → let (r', os, rest') =
        calls remove_pseudo_header
          (length (left_words 12 p ws) + length (take_more ws))
          r
          (p ∷ (ws ++ rest)) in
      (r'.fsm_state ≡ RemoverFsmState.read_first)
      × (os ≡ take_more ws ++ map some (left_words 12 p ws))
      × (rest' ≡ rest)
      × IsPacket (left_words 12 p ws)
      × (value (2 ^ 512) (words (left_words 12 p ws))
          ≡ value (2 ^ 512) (words (p ∷ ws)) / 2 ^ 96 % (2 ^ 512) ^ length (left_words 12 p ws))
pseudo_header_removed p ws rest r s h a =
    let (state, out, empty) = removed_calls p ws rest r s h in
    (
      state,
      out,
      empty,
      left_words-IsPacket 12 p ws h,
      left_value 12 p ws (omega arith) (omega arith) h a,
    )
