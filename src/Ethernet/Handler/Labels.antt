-- ===== src/Ethernet/Handler/Labels.antt =====
-- What `PacketIdentify` does with a whole frame.
use tcp_offload_engine_shell.Prelude.{
  ℕ, ◌≡◌, Option, none, some, List, [], ◌∷◌, ◌++◌, length, arith, map, calls, refl,
}
use tcp_offload_engine_shell.Words.{NetAxisWord}
use tcp_offload_engine_shell.Words.Cut.{IsPacket}
use tcp_offload_engine_shell.Ethernet.Handler.{
  IdentifyRegs, IdentifyFsmState, label, with_dest, packet_identify,
}

abbrev pub sent_as : Option ℕ → List NetAxisWord → List (Option NetAxisWord)
sent_as (some d) ws = map (λ w. some (with_dest d w)) ws
sent_as none ws = map (λ w. none) ws

later_words :
    (stray d : ℕ) (ws rest : List NetAxisWord)
    → IsPacket ws
    → (calls
          (packet_identify stray)
          (length ws)
          (record { pi_fsm_state = IdentifyFsmState.fwd; tdest_r = d })
          (ws ++ rest)
        ≡ (
          record { pi_fsm_state = IdentifyFsmState.first_word; tdest_r = d },
          sent_as (some d) ws,
          rest,
        ))
      × (calls
            (packet_identify stray)
            (length ws)
            (record { pi_fsm_state = IdentifyFsmState.drop; tdest_r = d })
            (ws ++ rest)
          ≡ (
            record { pi_fsm_state = IdentifyFsmState.first_word; tdest_r = d },
            sent_as none ws,
            rest,
          ))
unfolding calls packet_identify
later_words stray d [] rest h = absurd h
later_words stray d (w ∷ []) rest h = ground arith
later_words stray d (w ∷ v ∷ ws) rest h = ground (arith, later_words stray d (v ∷ ws) rest h.1)

labelled_calls :
    (stray : ℕ) (w : NetAxisWord) (ws rest : List NetAxisWord) (r : IdentifyRegs) (l : Option ℕ)
    → label stray w.word ≡ l
    → r.pi_fsm_state ≡ IdentifyFsmState.first_word
    → IsPacket (w ∷ ws)
    → let (r', os, rest') = calls (packet_identify stray) (length (w ∷ ws)) r (w ∷ (ws ++ rest)) in
      (r'.pi_fsm_state ≡ IdentifyFsmState.first_word) × (os ≡ sent_as l (w ∷ ws)) × (rest' ≡ rest)
unfolding calls packet_identify
labelled_calls stray w [] rest r (some d) e s h = ground (arith, e)
labelled_calls stray w [] rest r none e s h = ground (arith, e)
labelled_calls stray w (v ∷ ws) rest r (some d) e s h =
    ground (arith, e, later_words stray d (v ∷ ws) rest h.1)
labelled_calls stray w (v ∷ ws) rest r none e s h =
    ground (arith, e, later_words stray stray (v ∷ ws) rest h.1)

-- Every word of a frame is taken, with one call each, and all of them are sent with the label that
-- the first word gives, or none is; the process then stands at the next frame.
pub frame_labelled :
    (stray : ℕ) (w : NetAxisWord) (ws rest : List NetAxisWord) (r : IdentifyRegs)
    → r.pi_fsm_state ≡ IdentifyFsmState.first_word
    → IsPacket (w ∷ ws)
    → let (r', os, rest') = calls (packet_identify stray) (length (w ∷ ws)) r (w ∷ (ws ++ rest)) in
      (r'.pi_fsm_state ≡ IdentifyFsmState.first_word)
      × (os ≡ sent_as (label stray w.word) (w ∷ ws))
      × (rest' ≡ rest)
frame_labelled stray w ws rest r s h =
    labelled_calls stray w ws rest r (label stray w.word) refl s h
