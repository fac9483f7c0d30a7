-- ===== src/RxEngine/Parse/Payload.antt =====
-- The payload that `RxEngParseTcpHeader` takes out of a packet.
use tcp_offload_engine_shell.Prelude.{
  ℕ, suc, ◌+◌, ◌*◌, ◌/◌, ◌%◌, ◌^◌, ◌==◌, ◌≡◌, ◌≢◌, ◌≤◌, ap, refl, ◌∙◌, true, false, none, some,
  List, [], ◌∷◌, ◌++◌, length, length-map, map, arith, calls, calls-suc,
}
use tcp_offload_engine_shell.RxEngine.Segment.{TcpPseudoHeaderMeta}
use tcp_offload_engine_shell.Words.{NetAxisWord, no_word, concat_two_words}
use tcp_offload_engine_shell.Words.Bits.{get}
use tcp_offload_engine_shell.Words.Cut.{
  keeps, Fits, IsPacket, words, second_words, final_word, left_words,
}
use tcp_offload_engine_shell.Words.Left.{left_words-IsPacket, left_value, left_keeps}
use tcp_offload_engine_shell.Words.Values.{value}
use tcp_offload_engine_shell.RxEngine.Parse.{
  Regs, Outs, FsmState, header_of, payload_word, payload_length, offset_bytes, parse_tcp_header,
}
use tcp_offload_engine_shell.RxEngine.Parse.Fields.{fields_of, header_of-fields_of}

as_concat :
    (w p : NetAxisWord) (off : ℕ)
    → off ≢ 0
    → payload_word w p off ≡ concat_two_words w p off no_word
unfolding concat_two_words
as_concat w p off h = ground arith

abbrev pub payload_out : NetAxisWord → Outs
payload_out w = record { tcp_meta_data = none; tcp_payload = some w }

-- What the first word of several gives, and what the only one gives.
abbrev pub outs : ℕ → NetAxisWord → List NetAxisWord → List Outs
outs off p [] =
    record {
      tcp_meta_data = some (header_of p.word);
      tcp_payload = some (record (concat_two_words no_word p off no_word) { last = true });
    }
    ∷ []
outs off p (w ∷ ws) =
    record { tcp_meta_data = some (header_of p.word); tcp_payload = none }
    ∷ map payload_out (second_words off p (w ∷ ws))

later_words :
    (off : ℕ) (p : NetAxisWord) (ws rest : List NetAxisWord)
    → off ≢ 0
    → IsPacket ws
    → calls parse_tcp_header
        (length (second_words off p ws))
        (record {
          parse_fsm_state = FsmState.remaining_words;
          prev_word = p;
          tcp_payload_offset_bytes = off;
        })
        (ws ++ rest)
      ≡ (
        record {
          parse_fsm_state = FsmState.first_word;
          prev_word = final_word p ws;
          tcp_payload_offset_bytes = off;
        },
        map payload_out (second_words off p ws),
        rest,
      )
unfolding calls parse_tcp_header second_words
later_words off p [] rest o h = absurd h
later_words off p (w ∷ []) rest o h = ground (arith, as_concat w p off o, as_concat no_word w off o)
later_words off p (w ∷ v ∷ ws) rest o h =
    ground (arith, as_concat w p off o, later_words off w (v ∷ ws) rest o h.1)

abbrev started : NetAxisWord → Regs
started p = record {
  parse_fsm_state = FsmState.remaining_words;
  prev_word = p;
  tcp_payload_offset_bytes = offset_bytes p.word;
}

first_call :
    (p : NetAxisWord) (rest : List NetAxisWord) (r : Regs)
    → r.parse_fsm_state ≡ FsmState.first_word
    → (payload_length p.word == 0) ≡ false
    → p.last ≡ false
    → parse_tcp_header r (p ∷ rest)
      ≡ (started p, record { tcp_meta_data = some (header_of p.word); tcp_payload = none }, rest)
unfolding parse_tcp_header
first_call p rest r s n l = rw (s, n, l) refl

only_call :
    (p : NetAxisWord) (rest : List NetAxisWord) (r : Regs)
    → r.parse_fsm_state ≡ FsmState.first_word
    → (payload_length p.word == 0) ≡ false
    → p.last ≡ true
    → parse_tcp_header r (p ∷ rest) ≡ (
      record (started p) { parse_fsm_state = FsmState.first_word },
      record {
        tcp_meta_data = some (header_of p.word);
        tcp_payload = some (record (payload_word no_word p (offset_bytes p.word)) { last = true });
      },
      rest,
    )
unfolding parse_tcp_header
only_call p rest r s n l = rw (s, n, l) refl

several_calls :
    (p w : NetAxisWord) (ws rest : List NetAxisWord) (r : Regs)
    → let off = offset_bytes p.word in
      let header : Outs = record { tcp_meta_data = some (header_of p.word); tcp_payload = none } in
      r.parse_fsm_state ≡ FsmState.first_word
      → off ≢ 0
      → (payload_length p.word == 0) ≡ false
      → IsPacket (p ∷ w ∷ ws)
      → calls parse_tcp_header (suc (length (second_words off p (w ∷ ws)))) r (p ∷ (w ∷ ws ++ rest))
        ≡ (
          record {
            parse_fsm_state = FsmState.first_word;
            prev_word = final_word p (w ∷ ws);
            tcp_payload_offset_bytes = off;
          },
          header ∷ map payload_out (second_words off p (w ∷ ws)),
          rest,
        )
several_calls p w ws rest r s o l h =
    let off : ℕ = offset_bytes p.word in
    let header : Outs = record { tcp_meta_data = some (header_of p.word); tcp_payload = none } in
    calls-suc parse_tcp_header (length (second_words off p (w ∷ ws))) r (started p)
      (p ∷ (w ∷ ws ++ rest)) (w ∷ ws ++ rest) header (first_call p (w ∷ ws ++ rest) r s l h.0)
    ∙ ap (λ (x : Regs × List Outs × List NetAxisWord). (x.0, header ∷ x.1, x.2))
        (later_words off p (w ∷ ws) rest o h.1)

single_calls :
    (p : NetAxisWord) (rest : List NetAxisWord) (r : Regs)
    → let off = offset_bytes p.word in
      r.parse_fsm_state ≡ FsmState.first_word
      → off ≢ 0
      → (payload_length p.word == 0) ≡ false
      → p.last ≡ true
      → let (r', os, rest') = calls parse_tcp_header 1 r (p ∷ rest) in
        (r'.parse_fsm_state ≡ FsmState.first_word) × (os ≡ outs off p []) × (rest' ≡ rest)
unfolding calls
single_calls p rest r s o l h =
    let sent : NetAxisWord → List Outs = λ w.
      record {
        tcp_meta_data = some (header_of p.word);
        tcp_payload = some (record w { last = true });
      }
      ∷ [] in
    rw (only_call p rest r s l h)
      (refl, ap sent (as_concat no_word p (offset_bytes p.word) o), refl)

parsed_calls :
    (p : NetAxisWord) (ws rest : List NetAxisWord) (r : Regs)
    → let off = offset_bytes p.word in
      r.parse_fsm_state ≡ FsmState.first_word
      → off ≢ 0
      → (payload_length p.word == 0) ≡ false
      → IsPacket (p ∷ ws)
      → let (r', os, rest') =
          calls parse_tcp_header (length (outs off p ws)) r (p ∷ (ws ++ rest)) in
        (r'.parse_fsm_state ≡ FsmState.first_word) × (os ≡ outs off p ws) × (rest' ≡ rest)
parsed_calls p [] rest r s o l h = single_calls p rest r s o l h
parsed_calls p (w ∷ ws) rest r s o l h =
    rw
      (
        length-map payload_out (second_words (offset_bytes p.word) p (w ∷ ws)),
        several_calls p w ws rest r s o l h,
      )
      (refl, refl, refl)

-- What is sent for the payload: the only word of a packet with the call that gives the header, and
-- the words of a longer one each with a call behind it.
abbrev pub fields_and_payload :
    TcpPseudoHeaderMeta → List NetAxisWord → List NetAxisWord → List Outs
fields_and_payload m left [] =
    map (λ w. record { tcp_meta_data = some m; tcp_payload = some w }) left
fields_and_payload m left (w ∷ ws) =
    record { tcp_meta_data = some m; tcp_payload = none } ∷ map payload_out left

outs-fields_and_payload :
    (off : ℕ) (p : NetAxisWord) (ws : List NetAxisWord)
    → outs off p ws ≡ fields_and_payload (fields_of p.word) (left_words off p ws) ws
outs-fields_and_payload off p [] = rw (header_of-fields_of p.word) refl
outs-fields_and_payload off p (w ∷ ws) = rw (header_of-fields_of p.word) refl

-- For a packet with a pseudo header, a TCP header of 5 to 12 words and a payload, the first call
-- gives the fields of the header as the bytes of the word have them: the two addresses, the ports,
-- the two numbers, the window, the flags ACK, RST, SYN and FIN, the length of the payload and the
-- 32 bytes at the place of the options, with a scale of 0; the words of payload that are sent are
-- one packet, with the bytes behind the two headers and their bits of `keep`; and the parser then
-- stands at the next packet.
pub payload_parsed :
    (p : NetAxisWord) (ws rest : List NetAxisWord) (r : Regs)
    → let off = 4 * get 199 196 p.word + 12 in
      r.parse_fsm_state ≡ FsmState.first_word
      → 5 ≤ get 199 196 p.word
      → get 199 196 p.word ≤ 12
      → payload_length p.word ≢ 0
      → IsPacket (p ∷ ws)
      → Fits (p ∷ ws)
      → let expected = fields_and_payload (fields_of p.word) (left_words off p ws) ws in
        let (r', os, rest') = calls parse_tcp_header (length expected) r (p ∷ (ws ++ rest)) in
        (r'.parse_fsm_state ≡ FsmState.first_word)
        × (os ≡ expected)
        × (rest' ≡ rest)
        × IsPacket (left_words off p ws)
        × (value (2 ^ 512) (words (left_words off p ws))
            ≡ value (2 ^ 512) (words (p ∷ ws))
              / 2 ^ (8 * off)
              % (2 ^ 512) ^ length (left_words off p ws))
        × (value (2 ^ 64) (keeps (left_words off p ws))
            ≡ value (2 ^ 64) (keeps (p ∷ ws)) / 2 ^ off % (2 ^ 64) ^ length (left_words off p ws))
payload_parsed p ws rest r s lo hi l h a =
    let off : ℕ = 4 * get 199 196 p.word + 12 in
    let e : offset_bytes p.word ≡ off = omega (arith, hi) in
    let (state, out, empty) =
      parsed_calls p ws rest r s (omega (arith, e, lo)) (ground (arith, l)) h in
    rw (← outs-fields_and_payload off p ws, ← e)
      (
        state,
        out,
        empty,
        left_words-IsPacket (offset_bytes p.word) p ws h,
        left_value (offset_bytes p.word) p ws (omega (arith, e, lo)) (omega (arith, e, hi)) h a.0,
        left_keeps (offset_bytes p.word) p ws (omega (arith, e, lo)) (omega (arith, e, hi)) h a.1,
      )
