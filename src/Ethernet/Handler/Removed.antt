-- ===== src/Ethernet/Handler/Removed.antt =====
-- What `EthernetRemover` leaves of a labelled frame.
use tcp_offload_engine_shell.Prelude.{
  ℕ, zero, suc, length-map, ◌/◌, ◌%◌, ◌^◌, ◌≡◌, Option, some, List, [], ◌∷◌, ◌++◌, length, arith,
  map, calls, All,
}
use tcp_offload_engine_shell.Words.{NetAxisWord, concat_two_words}
use tcp_offload_engine_shell.Words.Values.{value, AllBelow}
use tcp_offload_engine_shell.Words.Cut.{
  IsPacket, words, second_words, final_word, left_words, take_more,
}
use tcp_offload_engine_shell.Words.Left.{left_words-IsPacket, left_value}
use tcp_offload_engine_shell.Ethernet.Handler.{
  RemoverRegs, RemoverFsmState, with_dest, ethernet_remover,
}

later_words :
    (d : ℕ) (p : NetAxisWord) (ws rest : List NetAxisWord)
    → p.dest ≡ d
    → All (λ w. w.dest ≡ d) ws
    → IsPacket ws
    → calls ethernet_remover
        (length (second_words 14 p ws))
        (record { er_fsm_state = RemoverFsmState.removing; prev_word = p })
        (ws ++ rest)
      ≡ (
        record { er_fsm_state = RemoverFsmState.first_word; prev_word = final_word p ws },
        map (λ w. some (with_dest d w)) (second_words 14 p ws),
        rest,
      )
unfolding calls ethernet_remover second_words concat_two_words
later_words d p [] rest e a h = absurd h
later_words d p (w ∷ []) rest e a h = ground arith
later_words d p (w ∷ v ∷ ws) rest e a h = ground (arith, later_words d w (v ∷ ws) rest a.0 a.1 h.1)

kept_words :
    (p : NetAxisWord) (ws rest : List NetAxisWord)
    → IsPacket ws
    → calls ethernet_remover
        (length ws)
        (record { er_fsm_state = RemoverFsmState.fwd; prev_word = p })
        (ws ++ rest)
      ≡ (record { er_fsm_state = RemoverFsmState.first_word; prev_word = p }, map some ws, rest)
unfolding calls ethernet_remover
kept_words p [] rest h = absurd h
kept_words p (w ∷ []) rest h = ground arith
kept_words p (w ∷ v ∷ ws) rest h = ground (arith, kept_words p (v ∷ ws) rest h.1)

-- What is sent for the frame `p ∷ ws` with the label `d`.
abbrev pub handed_on : ℕ → NetAxisWord → List NetAxisWord → List (Option NetAxisWord)
handed_on zero p ws = map some (p ∷ ws)
handed_on (suc d) p ws = take_more ws ++ map (λ w. some (with_dest (suc d) w)) (left_words 14 p ws)

removed_calls :
    (d : ℕ) (p : NetAxisWord) (ws rest : List NetAxisWord) (r : RemoverRegs)
    → r.er_fsm_state ≡ RemoverFsmState.first_word
    → All (λ w. w.dest ≡ d) (p ∷ ws)
    → IsPacket (p ∷ ws)
    → let (r', os, rest') =
        calls ethernet_remover (length (handed_on d p ws)) r (p ∷ (ws ++ rest)) in
      (r'.er_fsm_state ≡ RemoverFsmState.first_word) × (os ≡ handed_on d p ws) × (rest' ≡ rest)
unfolding calls ethernet_remover concat_two_words
removed_calls zero p [] rest r s a h = ground arith
removed_calls zero p (w ∷ ws) rest r s a h =
    ground (arith, kept_words p (w ∷ ws) rest h.1, length-map some (w ∷ ws))
removed_calls (suc d) p [] rest r s a h = ground arith
removed_calls (suc d) p (w ∷ ws) rest r s a h = ground (
  arith,
  later_words (suc d) p (w ∷ ws) rest a.0 a.1 h.1,
  length-map (λ v. some (with_dest (suc d) v)) (second_words 14 p (w ∷ ws)),
)

-- A labelled frame, whose words all have its label: an ARP frame is sent as it is; of any other the
-- words sent have its label and are one packet, with the bytes of the frame but for the first 14;
-- the process then stands at the next frame.
pub ethernet_header_removed :
    (d : ℕ) (p : NetAxisWord) (ws rest : List NetAxisWord) (r : RemoverRegs)
    → r.er_fsm_state ≡ RemoverFsmState.first_word
    → All (λ w. w.dest ≡ d) (p ∷ ws)
    → IsPacket (p ∷ ws)
    → AllBelow (2 ^ 512) (words (p ∷ ws))
    → let (r', os, rest') =
        calls ethernet_remover (length (handed_on d p ws)) r (p ∷ (ws ++ rest)) in
      (r'.er_fsm_state ≡ RemoverFsmState.first_word)
      × (os ≡ handed_on d p ws)
      × (rest' ≡ rest)
      × IsPacket (left_words 14 p ws)
      × (value (2 ^ 512) (words (left_words 14 p ws))
          ≡ value (2 ^ 512) (words (p ∷ ws)) / 2 ^ 112 % (2 ^ 512) ^ length (left_words 14 p ws))
ethernet_header_removed d p ws rest r s e h a =
    let (state, out, empty) = removed_calls d p ws rest r s e h in
    (
      state,
      out,
      empty,
      left_words-IsPacket 14 p ws h,
      left_value 14 p ws (omega arith) (omega arith) h a,
    )
