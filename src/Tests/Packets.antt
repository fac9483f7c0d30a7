-- ===== src/Tests/Packets.antt =====
-- Concrete packets of hls/toe/rx_engine and hls/utils.
use tcp_offload_engine_shell.Prelude.{
  ◌+◌, ◌-◌, ◌*◌, ◌/◌, ◌%◌, ◌^◌, ◌<◌, ◌≡◌, ◌≢◌, zero, refl, ap, ◌∙◌, true, false, some, none, List,
  [], ◌∷◌, arith, length, map, calls, suc, ℕ,
}
use tcp_offload_engine_shell.Words.{NetAxisWord, no_word}
use tcp_offload_engine_shell.Words.Cut.{IsPacket, words, keeps, left_words}
use tcp_offload_engine_shell.Words.Values.{value}
use native.Mathlib.Nat.{zero-div}
use tcp_offload_engine_shell.Words.Bits.{get}
use tcp_offload_engine_shell.Words.Bytes.{packet_sum, div_shifted}
use tcp_offload_engine_shell.Words.Checksum.{
  add_fold, lane_value, compute_sub_checksum, check_checksum, zeros,
}
use tcp_offload_engine_shell.Words.Checksum.Sums.{lanes, total, ones_complement}
use tcp_offload_engine_shell.Words.Checksum.Packets.{
  written_once, packet_checksum, checksum_of, checksum_verifies,
}
use tcp_offload_engine_shell.RxEngine.PseudoHeader
use tcp_offload_engine_shell.RxEngine.PseudoHeader.{
  read_header, ip_header, tcp_pseudo_header_insert,
}
use tcp_offload_engine_shell.RxEngine.PseudoHeader.Calls.{with_pseudo_header}
use tcp_offload_engine_shell.RxEngine.PseudoHeader.Inserted.{pseudo_header_inserted}
use tcp_offload_engine_shell.RxEngine.Parse
use tcp_offload_engine_shell.RxEngine.Parse.{header_of, first_word, parse_tcp_header}
use tcp_offload_engine_shell.RxEngine.Segment.{TcpPseudoHeaderMeta}
use tcp_offload_engine_shell.RxEngine.Parse.Payload.{payload_out, payload_parsed}

abbrev a_word : ℕ → NetAxisWord
a_word n = record { word = n; keep = 2 ^ 64 - 1; last = false; dest = 0 }

-- A last word with 48 bytes.
abbrev end_word : NetAxisWord
end_word = record { word = 77; keep = 2 ^ 48 - 1; last = true; dest = 0 }

-- The packet of the 16-bit numbers 0x1234 and 0xFF00.
abbrev two_numbers : NetAxisWord
two_numbers = record { word = 0x00FF3412; keep = 15; last = true; dest = 0 }

two_numbers_whole : (i : ℕ) → two_numbers.keep / 2 ^ (2 * i) % 4 ≢ 2
two_numbers_whole zero = omega arith
two_numbers_whole (suc zero) = omega arith
two_numbers_whole (suc (suc i)) =
    let none_left : 15 / 2 ^ (2 * suc (suc i)) ≡ 0 =
      ap (λ (n : ℕ). 15 / 2 ^ n) (omega arith)
      ∙ div_shifted 15 4 (2 * i)
      ∙ zero-div (2 ^ (2 * i)) in
    omega (arith, none_left)

packet_checksum_example :
    (sums : List ℕ) × (calls compute_sub_checksum 1 (zeros 32) (two_numbers ∷ [])
      ≡ (zeros 32, written_once (two_numbers ∷ []) sums, []))
    × (check_checksum (sums ∷ [])
        ≡ (some (65535 - ones_complement (packet_sum (two_numbers ∷ []))), []))
packet_checksum_example = packet_checksum (two_numbers ∷ []) [] [] refl (two_numbers_whole, tt)

-- The same with the checksum 0xEECA as a third number.
abbrev three_numbers : NetAxisWord
three_numbers = record { word = 0xCAEE00FF3412; keep = 63; last = true; dest = 0 }

two_numbers_sum : checksum_of (two_numbers ∷ []) ≡ some 0xEECA
unfolding checksum_of check_checksum compute_sub_checksum calls add_fold lane_value
two_numbers_sum = refl

numbers_and_sum : total (three_numbers ∷ []) ≡ total (two_numbers ∷ []) + 0xEECA
unfolding total lane_value lanes
numbers_and_sum = refl

some_number : 0 < total (two_numbers ∷ [])
unfolding total lane_value lanes
some_number = omega arith

checksum_verifies_example : checksum_of (three_numbers ∷ []) ≡ some 0
checksum_verifies_example =
    checksum_verifies (two_numbers ∷ []) (three_numbers ∷ []) 0xEECA refl refl some_number
      two_numbers_sum numbers_and_sum

abbrev waiting : PseudoHeader.Regs
waiting = record {
  fsm_state = ip_header;
  prev_word = no_word;
  ip_header_length = 0;
  ip_packet_length = 0;
  keep_extra = 0;
  dest_ip_addr = 0;
  src_ip_addr = 0;
  pseudo_header_not_inserted = false;
}

-- The start of an IP packet of 112 bytes with a header of 5 words, from 192.168.0.1 to
-- 192.168.0.199.
abbrev ip_word : NetAxisWord
ip_word = a_word (0x45 + 0x7000 * 2 ^ 16 + 0x0100A8C0 * 2 ^ 96 + 0xC700A8C0 * 2 ^ 128 + 9 * 2 ^ 300)

pseudo_header_inserted_example :
    let left = left_words 8 ip_word (end_word ∷ []) in
    let sent = with_pseudo_header waiting ip_word (end_word ∷ []) in
    let os = none ∷ map some sent in
    let (r', os', rest') =
      calls tcp_pseudo_header_insert (length os) waiting (ip_word ∷ end_word ∷ []) in
    (r'.fsm_state ≡ ip_header)
    × (os' ≡ os)
    × (rest' ≡ [])
    × IsPacket sent
    × (value (2 ^ 512) (words sent)
        ≡ 0x0100A8C0
          + 2 ^ 32 * 0xC700A8C0
          + 2 ^ 72 * 6
          + 2 ^ 88 * 92
          + 2 ^ 96
            * (value (2 ^ 512) (words (ip_word ∷ end_word ∷ []))
                / 2 ^ 64
                % (2 ^ 512) ^ length left
                / 2 ^ 96))
    × (get 3 0 ip_word.word ≢ 9
        → value (2 ^ 64) (keeps sent)
          ≡ 2 ^ 12
            - 1
            + 2 ^ 12
              * (value (2 ^ 64) (keeps (ip_word ∷ end_word ∷ []))
                  / 2 ^ 8
                  % (2 ^ 64) ^ length left
                  / 2 ^ 12))
pseudo_header_inserted_example =
    pseudo_header_inserted ip_word (end_word ∷ []) [] waiting refl (omega arith) (omega arith)
      (refl, refl) (omega arith)

-- The start of a segment with 80 bytes of payload behind a header of 5 words.
abbrev segment_word : NetAxisWord
segment_word = a_word (
    0x0100A8C0
    + 0xC700A8C0 * 2 ^ 32
    + 0x64000600 * 2 ^ 64
    + 0x88135000 * 2 ^ 96
    + 0x04030201 * 2 ^ 128
    + 0x08070605 * 2 ^ 160
    + 0x34121150 * 2 ^ 192
    + 9 * 2 ^ 300)

abbrev parsing : Parse.Regs
parsing = record { parse_fsm_state = first_word; prev_word = no_word; tcp_payload_offset_bytes = 0 }

abbrev segment_fields : TcpPseudoHeaderMeta
segment_fields = record {
  src_ip = 0x0100A8C0;
  dest_ip = 0xC700A8C0;
  header = record {
    src_port = 0x5000;
    dest_port = 0x8813;
    seq_number = 0x01020304;
    ack_number = 0x05060708;
    win_size = 0x1234;
    data_offset = 5;
    ack = true;
    rst = false;
    syn = false;
    fin = true;
    win_scale = 0;
    payload_length = 80;
  };
  tcp_options = 9 * 2 ^ 44;
}

payload_parsed_example :
    let left = left_words 32 segment_word (end_word ∷ []) in
    let os =
      record { tcp_meta_data = some segment_fields; tcp_payload = none } ∷ map payload_out left in
    let (r', os', rest') =
      calls parse_tcp_header (length os) parsing (segment_word ∷ end_word ∷ []) in
    (r'.parse_fsm_state ≡ first_word)
    × (os' ≡ os)
    × (rest' ≡ [])
    × IsPacket left
    × (value (2 ^ 512) (words left)
        ≡ value (2 ^ 512) (words (segment_word ∷ end_word ∷ []))
          / 2 ^ 256
          % (2 ^ 512) ^ length left)
    × (value (2 ^ 64) (keeps left)
        ≡ value (2 ^ 64) (keeps (segment_word ∷ end_word ∷ [])) / 2 ^ 32 % (2 ^ 64) ^ length left)
payload_parsed_example =
    payload_parsed segment_word (end_word ∷ []) [] parsing refl (omega arith) (omega arith)
      (omega arith) (refl, refl) (omega arith)
