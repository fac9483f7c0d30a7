-- ===== src/Tests/Frames.antt =====
-- Concrete frames of hls/packet_handler and hls/ethernet_header_inserter.
use tcp_offload_engine_shell.Prelude.{
  ℕ, suc, ◌+◌, ◌-◌, ◌*◌, ◌/◌, ◌%◌, ◌^◌, ◌≡◌, refl, true, false, some, none, List, [], ◌∷◌, arith,
  length, map, calls,
}
use tcp_offload_engine_shell.Words.{NetAxisWord, no_word}
use tcp_offload_engine_shell.Words.Cut.{IsPacket, words, keeps, left_words}
use tcp_offload_engine_shell.Words.Values.{value}
use tcp_offload_engine_shell.Words.Checksum.Sums.{ones_complement}
use tcp_offload_engine_shell.Ethernet.Handler.{
  RemoverRegs, RemoverFsmState, with_dest, ethernet_remover,
}
use tcp_offload_engine_shell.Ethernet.Handler.Removed.{ethernet_header_removed}
use tcp_offload_engine_shell.Ethernet.Inserter
use tcp_offload_engine_shell.Ethernet.Inserter.{
  Ins, MwState, mac_header, ethernet_handle_output, ip_chksum, ip_ops, level, first_of,
}
use tcp_offload_engine_shell.Ethernet.Inserter.Frames.{frame_written}
use tcp_offload_engine_shell.Ethernet.Inserter.Checksum.{numbers_sum, ip_chksum_lem}
use tcp_offload_engine_shell.MemoryAccess.Read.Blocks.{joined}

-- The label of a TCP packet.
abbrev a_word : NetAxisWord
a_word = record { word = 5 + 9 * 2 ^ 300; keep = 2 ^ 64 - 1; last = false; dest = 2 }

-- A last word with 60 bytes.
abbrev end_word : NetAxisWord
end_word = record { word = 77 + 2 ^ 470; keep = 2 ^ 60 - 1; last = true; dest = 2 }

ethernet_header_removed_example :
    let left = left_words 14 a_word (end_word ∷ []) in
    let start : RemoverRegs = record {
      er_fsm_state = RemoverFsmState.first_word;
      prev_word = no_word;
    } in
    let os = none ∷ map (λ w. some (with_dest 2 w)) left in
    let (r', os', rest') = calls ethernet_remover (length os) start (a_word ∷ end_word ∷ []) in
    (r'.er_fsm_state ≡ RemoverFsmState.first_word)
    × (os' ≡ os)
    × (rest' ≡ [])
    × IsPacket left
    × (value (2 ^ 512) (words left)
        ≡ value (2 ^ 512) (words (a_word ∷ end_word ∷ [])) / 2 ^ 112 % (2 ^ 512) ^ length left)
ethernet_header_removed_example =
    ethernet_header_removed 2 a_word (end_word ∷ []) []
      (record { er_fsm_state = RemoverFsmState.first_word; prev_word = no_word }) refl
      (refl, (refl, tt)) (refl, refl) (omega arith)

abbrev idle : Inserter.Regs
idle = record { mw_state = MwState.wait_lookup; previous_word = record { word = 0; keep = 0 } }

abbrev no_more : Ins
no_more = record { arp_table_rsp = []; ip_header_with_checksum = []; no_ip_header_out = [] }

abbrev my_mac : ℕ
my_mac = 0x0123456789AB

abbrev the_frame : List NetAxisWord
the_frame =
    joined 14 (record no_word { word = 0xCDEF + 2 ^ 48 * my_mac + 2 ^ 96 * 8; keep = 2 ^ 14 - 1 })
      (a_word ∷ end_word ∷ [])

frame_written_example :
    let (r', os, i') = calls (ethernet_handle_output my_mac) (suc (length the_frame)) idle (record {
      arp_table_rsp = record { mac_addr = 0xCDEF; hit = true } ∷ [];
      ip_header_with_checksum = a_word ∷ [];
      no_ip_header_out = end_word ∷ [];
    }) in
    (r'.mw_state ≡ MwState.wait_lookup)
    × (i' ≡ no_more)
    × (os ≡ none ∷ map some the_frame)
    × IsPacket the_frame
    × (value (2 ^ 512) (words the_frame)
        ≡ (0xCDEF
            + 2 ^ 48 * my_mac
            + 2 ^ 96 * 0x0008
            + 2 ^ 112 * value (2 ^ 512) (words (a_word ∷ end_word ∷ [])))
          % (2 ^ 512) ^ length the_frame)
    × (value (2 ^ 64) (keeps the_frame)
        ≡ (2 ^ 14 - 1 + 2 ^ 14 * value (2 ^ 64) (keeps (a_word ∷ end_word ∷ [])))
          % (2 ^ 64) ^ length the_frame)
frame_written_example =
    frame_written my_mac 0xCDEF a_word (end_word ∷ []) [] idle no_more refl (omega arith)
      (omega arith) (omega arith) (refl, refl) (omega arith)

-- A header of 5 words without its checksum.
abbrev ip_header : ℕ
ip_header = 0xC700A8C00100A8C0000011400040000073000045

checksum_of_header : ip_chksum ip_header ≡ 0xB861
unfolding ip_chksum ip_ops level first_of
checksum_of_header = refl

ip_chksum_lem_example :
    ip_chksum ip_header
    ≡ 65535 - ones_complement (numbers_sum ip_header 0 5 + numbers_sum ip_header 6 4)
ip_chksum_lem_example = ip_chksum_lem ip_header (omega arith)
