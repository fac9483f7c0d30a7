-- ===== src/TxEngine/Packet/Payload.antt =====
-- What `TxEngConstructPseudoPacket` makes of the payload.
use tcp_offload_engine_shell.Words.Cut.{
  IsPacket, second_words, second_words-IsPacket, second_words-shifted, words,
}
use native.Mathlib.Nat.{add-zero}
use tcp_offload_engine_shell.Prelude.{
  ℕ, zero, suc, ◌+◌, ◌*◌, ◌%◌, ◌^◌, ◌≡◌, ◌<◌, ap, refl, ◌∙◌, Bool, true, false, none, some, List,
  [], ◌∷◌, length, map, length-map, arith, calls,
}
use tcp_offload_engine_shell.Words.{NetAxisWord, no_word, merge_two_words_head}
use tcp_offload_engine_shell.Words.Values.{value}
use tcp_offload_engine_shell.MemoryAccess.Read.Blocks.{raised, joined, merge_as_concat}
use tcp_offload_engine_shell.MemoryAccess.Read.Joined.{numbers_joined}
use tcp_offload_engine_shell.TxEngine.Packet.{
  PseudoRegs, PseudoIns, PseudoFsmState, construct_pseudo_packet,
}

-- The word before matters only by its lower half.
same_head :
    (w p q : NetAxisWord)
    → p.word % 2 ^ 256 ≡ q.word % 2 ^ 256
    → p.keep % 2 ^ 32 ≡ q.keep % 2 ^ 32
    → merge_two_words_head w p 32 no_word ≡ merge_two_words_head w q 32 no_word
unfolding merge_two_words_head
same_head w p q e k = rw (e, k) refl

abbrev in_payload : NetAxisWord → PseudoRegs
in_payload p = record { fsm_state = PseudoFsmState.read_payload; prev_word = p }

-- A header with a payload that starts with `w`.
abbrev pub arriving : NetAxisWord → NetAxisWord → PseudoIns → PseudoIns
arriving h w i = record {
  full_header = h ∷ i.full_header;
  contains_payload = true ∷ i.contains_payload;
  payload = w ∷ i.payload;
}

later_same :
    (n : ℕ) (p q : NetAxisWord) (hs ps : List NetAxisWord) (fs : List Bool)
    → p.word % 2 ^ 256 ≡ q.word % 2 ^ 256
    → p.keep % 2 ^ 32 ≡ q.keep % 2 ^ 32
    → let i : PseudoIns = record { full_header = hs; contains_payload = fs; payload = ps } in
      (calls construct_pseudo_packet n (in_payload p) i).1
      ≡ (calls construct_pseudo_packet n (in_payload q) i).1
unfolding calls construct_pseudo_packet
later_same zero p q hs ps fs e k = refl
later_same (suc n) p q hs [] fs e k = ap (λ os. none ∷ os) (later_same n p q hs [] fs e k)
later_same (suc n) p q hs (w ∷ ps) fs e k = ground (arith, same_head w p q e k)

-- The upper half of the first word of a payload of several words is sent nowhere: from two payloads
-- that differ in that half alone any number of calls sends the same words.
pub upper_half_lost :
    (n : ℕ) (h w v : NetAxisWord) (r : PseudoRegs) (i : PseudoIns)
    → r.fsm_state ≡ PseudoFsmState.read_pseudo
    → w.last ≡ false
    → v.last ≡ false
    → w.word % 2 ^ 256 ≡ v.word % 2 ^ 256
    → w.keep % 2 ^ 32 ≡ v.keep % 2 ^ 32
    → (calls construct_pseudo_packet n r (arriving h w i)).1
      ≡ (calls construct_pseudo_packet n r (arriving h v i)).1
unfolding calls construct_pseudo_packet merge_two_words_head
upper_half_lost zero h w v r i s l m e k = refl
upper_half_lost (suc zero) h w v r i s l m e k = ground arith
upper_half_lost (suc (suc n)) h w v r i s l m e k =
    ground (arith, later_same n w v i.full_header i.payload i.contains_payload e k)

one_word_calls :
    (h w : NetAxisWord) (r : PseudoRegs) (i : PseudoIns)
    → r.fsm_state ≡ PseudoFsmState.read_pseudo
    → w.last ≡ true
    → calls construct_pseudo_packet (suc (length (joined 32 h (w ∷ [])))) r (arriving h w i) ≡ (
      record { fsm_state = PseudoFsmState.read_pseudo; prev_word = w },
      none ∷ map some (joined 32 h (w ∷ [])),
      i,
    )
unfolding calls construct_pseudo_packet second_words
one_word_calls h w r i s l = ground (arith, merge_as_concat w h 32 (omega arith) (omega arith))

-- A payload of one word follows the 32 bytes of the header: the words sent are one packet, with
-- the bytes of the header and then those of the payload, in a second word if they need one.
pub one_word_payload :
    (h w : NetAxisWord) (r : PseudoRegs) (i : PseudoIns)
    → r.fsm_state ≡ PseudoFsmState.read_pseudo
    → w.last ≡ true
    → w.word < 2 ^ 512
    → let (r', os, i') =
        calls construct_pseudo_packet (suc (length (joined 32 h (w ∷ [])))) r (arriving h w i) in
      (r'.fsm_state ≡ PseudoFsmState.read_pseudo)
      × (i' ≡ i)
      × (os ≡ none ∷ map some (joined 32 h (w ∷ [])))
      × IsPacket (joined 32 h (w ∷ []))
      × (value (2 ^ 512) (words (joined 32 h (w ∷ [])))
          ≡ (h.word % 2 ^ 256 + 2 ^ 256 * w.word) % (2 ^ 512) ^ length (joined 32 h (w ∷ [])))
one_word_payload h w r i s l f =
    let shift = second_words-shifted 32 (raised 32 h) (w ∷ []) (omega arith) l in
    rw (one_word_calls h w r i s l) (
      refl,
      refl,
      refl,
      second_words-IsPacket 32 (raised 32 h) (w ∷ []) l,
      rw (← length-map (λ (v : NetAxisWord). v.word) (joined 32 h (w ∷ []))) (
          numbers_joined 8 32 h.word (words (w ∷ [])) w (words (joined 32 h (w ∷ []))) (omega arith)
            (omega arith) shift.0 (f, tt)
          ∙ ap
              (λ (t : ℕ).
                (h.word % 2 ^ 256 + 2 ^ 256 * t)
                % (2 ^ 512) ^ length (words (joined 32 h (w ∷ []))))
              (add-zero w.word)),
    )
