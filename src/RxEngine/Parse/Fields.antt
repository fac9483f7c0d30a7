-- ===== src/RxEngine/Parse/Fields.antt =====
-- The fields that `RxEngParseTcpHeader` of hls/toe/rx_engine/rx_engine.cpp takes from the bytes of
-- a word.
use tcp_offload_engine_shell.Prelude.{ℕ, ◌+◌, ◌-◌, ◌*◌, ◌/◌, ◌%◌, ◌^◌, ◌≡◌, refl, arith}
use tcp_offload_engine_shell.Words.Bytes.{byte_of, number_at}
use tcp_offload_engine_shell.RxEngine.Segment.{TcpPseudoHeaderMeta}
use tcp_offload_engine_shell.Conn.Tables.{swap_byte16}
use tcp_offload_engine_shell.Words.{swap_byte32, bit}
use tcp_offload_engine_shell.Words.Bits.{get}
use tcp_offload_engine_shell.RxEngine.Parse.{header_of, payload_length}

-- The fields of a segment by the bytes of its first word: the pseudo header is in bytes 0 to 11,
-- and the TCP header begins at byte 12. Addresses and ports keep the order of their bytes; the
-- numbers have the highest byte first.
abbrev pub fields_of : ℕ → TcpPseudoHeaderMeta
fields_of x = record {
  src_ip = x % 2 ^ 32;
  dest_ip = x / 2 ^ (8 * 4) % 2 ^ 32;
  header = record {
    src_port = byte_of x 12 + 256 * byte_of x 13;
    dest_port = byte_of x 14 + 256 * byte_of x 15;
    seq_number = 2 ^ 16 * number_at x 16 + number_at x 18;
    ack_number = 2 ^ 16 * number_at x 20 + number_at x 22;
    win_size = number_at x 26;
    data_offset = byte_of x 24 / 16;
    ack = bit (byte_of x 25) 4;
    rst = bit (byte_of x 25) 2;
    syn = bit (byte_of x 25) 1;
    fin = bit (byte_of x 25) 0;
    win_scale = 0;
    payload_length = (number_at x 10 + 2 ^ 16 - 4 * (byte_of x 24 / 16)) % 2 ^ 16;
  };
  tcp_options = x / 2 ^ (8 * 32) % 2 ^ 256;
}

pub header_of-fields_of : (x : ℕ) → header_of x ≡ fields_of x
unfolding header_of
header_of-fields_of x =
    let source : get 31 0 x ≡ x % 2 ^ 32 = omega arith in
    let from : get 111 96 x ≡ byte_of x 12 + 256 * byte_of x 13 = omega arith in
    let to : get 127 112 x ≡ byte_of x 14 + 256 * byte_of x 15 = omega arith in
    let seq : swap_byte32 (get 159 128 x) ≡ 2 ^ 16 * number_at x 16 + number_at x 18 =
      omega arith in
    let acked : swap_byte32 (get 191 160 x) ≡ 2 ^ 16 * number_at x 20 + number_at x 22 =
      omega arith in
    let window : swap_byte16 (get 223 208 x) ≡ number_at x 26 = omega arith in
    let offset : get 199 196 x ≡ byte_of x 24 / 16 = omega arith in
    let ack : get 204 204 x ≡ byte_of x 25 / 2 ^ 4 % 2 = omega arith in
    let rst : get 202 202 x ≡ byte_of x 25 / 2 ^ 2 % 2 = omega arith in
    let syn : get 201 201 x ≡ byte_of x 25 / 2 ^ 1 % 2 = omega arith in
    let fin : get 200 200 x ≡ byte_of x 25 / 2 ^ 0 % 2 = omega arith in
    let size : payload_length x ≡ (number_at x 10 + 2 ^ 16 - 4 * (byte_of x 24 / 16)) % 2 ^ 16 =
      omega arith in
    rw (size, source, from, to, seq, acked, window, offset, ack, rst, syn, fin) refl
