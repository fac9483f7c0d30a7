-- ===== src/Tests/Outgoing.antt =====
-- Concrete packets of hls/toe/tx_engine.
use tcp_offload_engine_shell.Prelude.{
  ◌+◌, ◌-◌, ◌*◌, ◌/◌, ◌%◌, ◌^◌, ◌≡◌, refl, true, false, some, none, [], ◌∷◌, ◌++◌, arith, length,
  map, calls, suc, ℕ, All,
}
use tcp_offload_engine_shell.Conn.Messages.{FourTuple}
use tcp_offload_engine_shell.Words.{NetAxisWord, no_word, bit}
use tcp_offload_engine_shell.Words.Cut.{IsPacket, words, second_words, left_words, extra_word}
use tcp_offload_engine_shell.Words.Values.{value}
use tcp_offload_engine_shell.RxEngine.Parse.{header_of}
use tcp_offload_engine_shell.TxEngine.State.{TxEngFsmMetaData}
use tcp_offload_engine_shell.TxEngine.Header.{full_header}
use tcp_offload_engine_shell.TxEngine.Header.Parsed.{expected, header_parsed}
use tcp_offload_engine_shell.TxEngine.Packet.{
  PseudoRegs, PseudoIns, read_pseudo, construct_pseudo_packet, RemoverRegs, read_first,
  remove_pseudo_header,
}
use tcp_offload_engine_shell.TxEngine.Packet.Payload.{arriving, upper_half_lost, one_word_payload}
use tcp_offload_engine_shell.TxEngine.Packet.Removed.{pseudo_header_removed}
use tcp_offload_engine_shell.TxEngine.Ipv4
use tcp_offload_engine_shell.TxEngine.Ipv4.{construct_ipv4_packet}
use tcp_offload_engine_shell.TxEngine.Ipv4.Tail.{headed_word, tail_words, extra_word_missing}
use tcp_offload_engine_shell.MemoryAccess.Read.Blocks.{joined}

abbrev a_word : ℕ → NetAxisWord
a_word n = record { word = n; keep = 2 ^ 64 - 1; last = false; dest = 0 }

-- A last word with 48 bytes.
abbrev end_word : NetAxisWord
end_word = record { word = 77; keep = 2 ^ 48 - 1; last = true; dest = 0 }

-- The start of a segment with 80 bytes of payload behind a header of 5 words.
abbrev segment_word : NetAxisWord
segment_word = a_word (
    0x0100A8C0
    + 0xC700A8C0 * 2 ^ 32
    + 0x64000600 * 2 ^ 64
    + 0x88135000 * 2 ^ 96
    + 0x04030201 * 2 ^ 128
    + 0x08070605 * 2 ^ 160
    + 0x34121150 * 2 ^ 192
    + 9 * 2 ^ 300)

-- A SYN with the window scale option, from 10.1.212.2 to 10.1.212.1.
abbrev connect : TxEngFsmMetaData
connect = record {
  seq_number = 0xABCDEF01;
  ack_number = 0;
  win_size = 0xFFFF;
  win_scale = 2;
  length = 8;
  ack = false;
  rst = false;
  syn = true;
  fin = false;
  role_id = 1;
}

abbrev tuple : FourTuple
tuple = record {
  src_ip_addr = 0x02D4010A;
  dst_ip_addr = 0x01D4010A;
  src_tcp_port = 0x0080;
  dst_tcp_port = 0x1388;
}

header_parsed_example :
    let h = header_of (full_header connect tuple).0.word in
    (h.src_ip ≡ 0x02D4010A) × (h.dest_ip ≡ 0x01D4010A) × (h.header ≡ expected connect tuple 7)
header_parsed_example = header_parsed connect tuple (record {
  src_ip_addr = omega arith;
  dst_ip_addr = omega arith;
  src_tcp_port = omega arith;
  dst_tcp_port = omega arith;
  seq_number = omega arith;
  ack_number = omega arith;
  win_size = omega arith;
  length = omega arith;
})

abbrev idle : PseudoRegs
idle = record { fsm_state = read_pseudo; prev_word = no_word }

abbrev no_streams : PseudoIns
no_streams = record { full_header = []; contains_payload = []; payload = end_word ∷ [] }

upper_half_lost_example :
    (calls construct_pseudo_packet 3 idle (arriving segment_word (a_word 5) no_streams)).1
    ≡ (calls construct_pseudo_packet 3 idle
        (arriving segment_word (a_word (5 + 2 ^ 256)) no_streams)).1
upper_half_lost_example =
    upper_half_lost 3 segment_word (a_word 5) (a_word (5 + 2 ^ 256)) idle no_streams refl refl refl
      refl refl

one_word_payload_example :
    let sent = joined 32 segment_word (end_word ∷ []) in
    let (r', os, i') =
      calls construct_pseudo_packet
        (suc (length sent))
        idle
        (arriving segment_word end_word no_streams) in
    (r'.fsm_state ≡ read_pseudo)
    × (i' ≡ no_streams)
    × (os ≡ none ∷ map some sent)
    × IsPacket sent
    × (value (2 ^ 512) (words sent)
        ≡ (segment_word.word % 2 ^ 256 + 2 ^ 256 * 77) % (2 ^ 512) ^ length sent)
one_word_payload_example =
    one_word_payload segment_word end_word idle no_streams refl refl (omega arith)

pseudo_header_removed_example :
    let left = left_words 12 segment_word (end_word ∷ []) in
    let start : RemoverRegs = record { fsm_state = read_first; prev_word = no_word } in
    let (r', os, rest') =
      calls remove_pseudo_header (length left + 1) start (segment_word ∷ end_word ∷ []) in
    (r'.fsm_state ≡ read_first)
    × (os ≡ none ∷ map some left)
    × (rest' ≡ [])
    × IsPacket left
    × (value (2 ^ 512) (words left)
        ≡ value (2 ^ 512) (words (segment_word ∷ end_word ∷ [])) / 2 ^ 96 % (2 ^ 512) ^ length left)
pseudo_header_removed_example =
    pseudo_header_removed segment_word (end_word ∷ []) []
      (record { fsm_state = read_first; prev_word = no_word }) refl (refl, refl) (omega arith)

abbrev streams : Ipv4.Ins
streams = record { ipv4_headers = []; tcp_packet = []; tcp_checksum = [] }

abbrev ip_start : Ipv4.Regs
ip_start = record { fsm_state = Ipv4.FsmState.read_first; prev_word = no_word }

extra_word_missing_example :
    let first = headed_word (a_word 0x45) segment_word 0xEECA in
    let sent = first ∷ tail_words segment_word (end_word ∷ []) in
    (calls construct_ipv4_packet 2 ip_start (record {
      ipv4_headers = a_word 0x45 ∷ [];
      tcp_packet = segment_word ∷ end_word ∷ [];
      tcp_checksum = 0xEECA ∷ [];
    })
      ≡ (
        record { fsm_state = Ipv4.FsmState.read_first; prev_word = end_word },
        map some sent,
        record streams { tcp_packet = [] },
      ))
    × (sent ++ extra_word 44 end_word ≡ first ∷ second_words 44 segment_word (end_word ∷ []))
    × (bit (2 ^ 48 - 1) 44 ≡ true → All (λ (v : NetAxisWord). v.last ≡ false) sent)
extra_word_missing_example =
    extra_word_missing (a_word 0x45) segment_word 0xEECA (end_word ∷ []) [] ip_start streams refl
      refl (omega arith) refl
