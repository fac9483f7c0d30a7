-- ===== src/Ethernet/Inserter/Frames.antt =====
-- The frames that `EthernetHandleOutput` writes.
use mathlib.Core.Path.{subst}
use native.Mathlib.Nat.{mod-eq_of_lt}
use tcp_offload_engine_shell.Prelude.{
  ℕ, suc, length-map, ◌+◌, ◌-◌, ◌*◌, ◌%◌, ◌^◌, ◌≡◌, ◌<◌, true, Option, none, some, List, [], ◌∷◌,
  ◌++◌, length, arith, map, calls, calls-suc, refl, sym, ◌∙◌, ap,
}
use tcp_offload_engine_shell.Words.{NetAxisWord, no_word, concat_two_words, merge_two_words_head}
use tcp_offload_engine_shell.Words.Bits.{build}
use tcp_offload_engine_shell.Words.Values.{value}
use tcp_offload_engine_shell.Words.Cut.{
  IsPacket, Fits, words, keeps, second_words, final_word, second_words-shifted,
  second_words-IsPacket,
}
use tcp_offload_engine_shell.MemoryAccess.Read.Blocks.{raised, joined, merge_as_concat}
use tcp_offload_engine_shell.MemoryAccess.Read.Joined.{numbers_joined, keeps_joined}
use tcp_offload_engine_shell.Ethernet.Inserter.{
  Regs, Ins, MwState, MacHeader, mac_header, left_over, behind, ethernet_handle_output,
}

-- The header as a word.
abbrev pub header_word : MacHeader → NetAxisWord
header_word h = record no_word { word = h.word; keep = h.keep }

later_words :
    (mac : ℕ) (p : NetAxisWord) (ws rest : List NetAxisWord) (i : Ins)
    → IsPacket ws
    → calls
        (ethernet_handle_output mac)
        (length (second_words 50 p ws))
        (record { mw_state = MwState.write_remaining; previous_word = left_over p })
        (record i { no_ip_header_out = ws ++ rest })
      ≡ (
        record { mw_state = MwState.wait_lookup; previous_word = left_over (final_word p ws) },
        map some (second_words 50 p ws),
        record i { no_ip_header_out = rest },
      )
unfolding calls ethernet_handle_output second_words concat_two_words
later_words mac p [] rest i h = absurd h
later_words mac p (w ∷ []) rest i h = ground arith
later_words mac p (w ∷ v ∷ ws) rest i h = ground (arith, later_words mac w (v ∷ ws) rest i h.1)

mac_header_value :
    (my mac old : ℕ)
    → my < 2 ^ 48
    → mac < 2 ^ 48
    → old < 2 ^ 112
    → (mac_header my mac old).word ≡ mac + 2 ^ 48 * my + 2 ^ 96 * 0x0008
unfolding mac_header build
mac_header_value my mac old a b c = omega arith

first_word_lem :
    (h : MacHeader) (w : NetAxisWord)
    → h.word % 2 ^ 112 ≡ h.word
    → h.keep % 2 ^ 14 ≡ h.keep
    → concat_two_words w (raised 14 (header_word h)) 50 no_word ≡ behind h w
unfolding merge_two_words_head
first_word_lem h w a b =
    sym (merge_as_concat w (header_word h) 14 (omega arith) (omega arith)) ∙ rw (a, b) refl

frame_calls :
    (mac : ℕ) (h : MacHeader) (p : NetAxisWord) (ws rest : List NetAxisWord) (i : Ins)
    → h.word % 2 ^ 112 ≡ h.word
    → h.keep % 2 ^ 14 ≡ h.keep
    → IsPacket (p ∷ ws)
    → calls
        (ethernet_handle_output mac)
        (length (joined 14 (header_word h) (p ∷ ws)))
        (record { mw_state = MwState.write_first_transaction; previous_word = h })
        (record i {
          ip_header_with_checksum = p ∷ i.ip_header_with_checksum;
          no_ip_header_out = ws ++ rest;
        })
      ≡ (
        record { mw_state = MwState.wait_lookup; previous_word = left_over (final_word p ws) },
        map some (joined 14 (header_word h) (p ∷ ws)),
        record i { no_ip_header_out = rest },
      )
unfolding calls ethernet_handle_output second_words concat_two_words
frame_calls mac h p [] rest i a b k = ground (arith, first_word_lem h p a b)
frame_calls mac h p (w ∷ ws) rest i a b k =
    ground (arith, first_word_lem h p a b, later_words mac p (w ∷ ws) rest i k.1)

module _ (my mac : ℕ) (p : NetAxisWord) (ws rest : List NetAxisWord) (r : Regs) (i : Ins) where
  abbrev written : MacHeader
  written = mac_header my mac r.previous_word.word

  -- The 14 bytes of the Ethernet header: the next hop's address, the own one, and 8 and 0 for IPv4.
  abbrev pub header : NetAxisWord
  header = record no_word { word = mac + 2 ^ 48 * my + 2 ^ (8 * 12) * 8; keep = 2 ^ 14 - 1 }

  -- The words of the frame: those of the packet, 14 bytes later, behind the header.
  abbrev pub frame : List NetAxisWord
  frame = joined 14 header (p ∷ ws)

  abbrev start : Ins
  start = record i {
    ip_header_with_checksum = p ∷ i.ip_header_with_checksum;
    no_ip_header_out = ws ++ rest;
  }

  abbrev done : Ins
  done = record i { no_ip_header_out = rest }

  first_call :
      r.mw_state ≡ MwState.wait_lookup
      → ethernet_handle_output my r
          (record start { arp_table_rsp = record { mac_addr = mac; hit = true } ∷ i.arp_table_rsp })
        ≡ (
          record { mw_state = MwState.write_first_transaction; previous_word = written },
          none,
          start,
        )
  unfolding ethernet_handle_output
  first_call s = ground arith

  written_lem :
      my < 2 ^ 48
      → mac < 2 ^ 48
      → r.previous_word.word < 2 ^ 112
      → (written.word ≡ header.word)
        × (written.word % 2 ^ 112 ≡ written.word)
        × (written.keep % 2 ^ 14 ≡ written.keep)
        × (header_word written ≡ header)
  unfolding mac_header
  written_lem a b c =
      let same = mac_header_value my mac r.previous_word.word a b c in
      (
        same,
        mod-eq_of_lt (omega (arith, a, b, same)),
        refl,
        ap (λ (n : ℕ). record no_word { word = n; keep = 2 ^ 14 - 1 }) same,
      )

  -- A packet for whose next hop the address `mac` is found leaves as one frame, after one call for
  -- the answer and one for each word of the frame: the bytes of `mac`, those of the own address,
  -- the type of IPv4 and then all bytes of the packet. The bits of `keep` are those of the packet
  -- behind 14 that are set.
  pub frame_written :
      r.mw_state ≡ MwState.wait_lookup
      → my < 2 ^ 48
      → mac < 2 ^ 48
      → r.previous_word.word < 2 ^ 112
      → IsPacket (p ∷ ws)
      → Fits (p ∷ ws)
      → let (r', os, i') = calls (ethernet_handle_output my) (suc (length frame)) r (record start {
        arp_table_rsp = record { mac_addr = mac; hit = true } ∷ i.arp_table_rsp;
      }) in
        (r'.mw_state ≡ MwState.wait_lookup)
        × (i' ≡ done)
        × (os ≡ none ∷ map some frame)
        × IsPacket frame
        × (value (2 ^ 512) (words frame)
            ≡ (mac + 2 ^ 48 * my + 2 ^ 96 * 0x0008 + 2 ^ 112 * value (2 ^ 512) (words (p ∷ ws)))
              % (2 ^ 512) ^ length frame)
        × (value (2 ^ 64) (keeps frame)
            ≡ (2 ^ 14 - 1 + 2 ^ 14 * value (2 ^ 64) (keeps (p ∷ ws))) % (2 ^ 64) ^ length frame)
  frame_written s a b c k fits =
      let (same, low, ones, first) = written_lem a b c in
      let short : header.word % 2 ^ 112 ≡ header.word = rw (← same) low in
      let whole =
        calls-suc (ethernet_handle_output my) (length frame) r
          (record { mw_state = MwState.write_first_transaction; previous_word = written })
          (record start { arp_table_rsp = record { mac_addr = mac; hit = true } ∷ i.arp_table_rsp })
          start none (first_call s)
        ∙ ap (λ (x : Regs × List (Option NetAxisWord) × Ins). (x.0, none ∷ x.1, x.2))
            (subst
              (λ (h : NetAxisWord).
                calls (ethernet_handle_output my) (length (joined 14 h (p ∷ ws)))
                  (record { mw_state = MwState.write_first_transaction; previous_word = written })
                  start
                ≡ (
                  record {
                    mw_state = MwState.wait_lookup;
                    previous_word = left_over (final_word p ws);
                  },
                  map some (joined 14 h (p ∷ ws)),
                  done,
                ))
              first (frame_calls my written p ws rest i low ones k)) in
      let end : NetAxisWord = final_word (raised 14 header) (p ∷ ws) in
      let shift = second_words-shifted 50 (raised 14 header) (p ∷ ws) (omega arith) k in
      rw whole (
        refl,
        refl,
        refl,
        second_words-IsPacket 50 (raised 14 header) (p ∷ ws) k,
        rw (← length-map (λ (w : NetAxisWord). w.word) frame) (
            numbers_joined 8 14 header.word (words (p ∷ ws)) end (words frame) (omega arith)
              (omega arith) shift.0 fits.0
            ∙ ap
                (λ (t : ℕ).
                  (t + 2 ^ 112 * value (2 ^ 512) (words (p ∷ ws)))
                  % (2 ^ 512) ^ length (words frame))
                short),
        rw (← length-map (λ (w : NetAxisWord). w.keep) frame) (
            keeps_joined 14 header.keep (keeps (p ∷ ws)) end (keeps frame) (omega arith)
              (omega arith) shift.1 fits.1),
      )
