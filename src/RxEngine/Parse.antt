-- ===== src/RxEngine/Parse.antt =====
-- `RxEngParseTcpHeader` of hls/toe/rx_engine/rx_engine.cpp: the fields of a segment's header, and
-- the payload moved to the start of its words.
pub mod Fields
pub mod Payload
use tcp_offload_engine_shell.Prelude.{
  ℕ, ◌+◌, ◌-◌, ◌*◌, ◌/◌, ◌%◌, ◌^◌, ◌==◌, Bool, true, false, not, Option, none, some, List,
  if◌then◌else◌, read,
}
use tcp_offload_engine_shell.Conn.Tables.{swap_byte16}
use tcp_offload_engine_shell.Words.{NetAxisWord, no_word, bit, swap_byte32}
use tcp_offload_engine_shell.Words.Bits.{get}
use tcp_offload_engine_shell.RxEngine.Segment.{TcpPseudoHeaderMeta}

pub data FsmState : Type 0 where
  first_word remaining_words extra_word : FsmState

pub record Regs : Type 0 where
  pub parse_fsm_state : FsmState
  pub prev_word : NetAxisWord
  pub tcp_payload_offset_bytes : ℕ

pub record Outs : Type 0 where
  pub tcp_meta_data : Option TcpPseudoHeaderMeta
  pub tcp_payload : Option NetAxisWord

-- The length in the pseudo header less the TCP header, in 16 bits.
abbrev pub payload_length : ℕ → ℕ
payload_length x = (swap_byte16 (get 95 80 x) + 2 ^ 16 - get 199 196 x * 4) % 2 ^ 16

-- The offset has 6 bits.
abbrev pub offset_bytes : ℕ → ℕ
offset_bytes x = (get 199 196 x * 4 + 12) % 2 ^ 6

-- The flags CWR, ECN, URG and PSH are left out: nothing reads them.
unfoldable pub header_of : ℕ → TcpPseudoHeaderMeta
header_of x = record {
  src_ip = get 31 0 x;
  dest_ip = get 63 32 x;
  header = record {
    src_port = get 111 96 x;
    dest_port = get 127 112 x;
    seq_number = swap_byte32 (get 159 128 x);
    ack_number = swap_byte32 (get 191 160 x);
    win_size = swap_byte16 (get 223 208 x);
    data_offset = get 199 196 x;
    ack = get 204 204 x == 1;
    rst = get 202 202 x == 1;
    syn = get 201 201 x == 1;
    fin = get 200 200 x == 1;
    win_scale = 0;
    payload_length = payload_length x;
  };
  tcp_options = get 511 256 x;
}

-- `cur_word` up to the offset above `prev_word` from the offset on. Both ranges of the code are
-- empty or whole at the offset 0.
abbrev pub payload_word : NetAxisWord → NetAxisWord → ℕ → NetAxisWord
payload_word cur prev off = record no_word {
  word = cur.word % 2 ^ (8 * off) * 2 ^ (8 * (64 - off)) + prev.word / 2 ^ (8 * off);
  keep = cur.keep % 2 ^ off * 2 ^ (64 - off) + prev.keep / 2 ^ off;
}

first_beat : Regs → NetAxisWord → Regs × Outs
unfolding header_of
first_beat r w =
    let off = offset_bytes w.word in
    let there = not (payload_length w.word == 0) in
    (
      record {
        parse_fsm_state =
            if w.last
            then FsmState.first_word
            else if there
            then FsmState.remaining_words
            else FsmState.first_word;
        prev_word = w;
        tcp_payload_offset_bytes = off;
      },
      record {
        tcp_meta_data = some (header_of w.word);
        tcp_payload =
            if w.last
            then if there then some (record (payload_word no_word w off) { last = true }) else none
            else none;
      },
    )

later_beat : Regs → NetAxisWord → Regs × Outs
later_beat r w =
    let off = r.tcp_payload_offset_bytes in
    let more = bit w.keep off in
    (
      record r {
        parse_fsm_state =
            if w.last
            then if more then FsmState.extra_word else FsmState.first_word
            else FsmState.remaining_words;
        prev_word = w;
      },
      record {
        tcp_meta_data = none;
        tcp_payload =
            some (record (payload_word w r.prev_word off) {
              last = if w.last then not more else false;
            });
      },
    )

step_by : FsmState → Regs → List NetAxisWord → Regs × Outs × List NetAxisWord
unfolding first_beat later_beat
step_by FsmState.first_word r i = elim (read i) [
  | some (w, rest) ↦ let (r', o) = first_beat r w in (r', o, rest)
  | none ↦ (r, record { tcp_meta_data = none; tcp_payload = none }, i)
]
step_by FsmState.remaining_words r i = elim (read i) [
  | some (w, rest) ↦ let (r', o) = later_beat r w in (r', o, rest)
  | none ↦ (r, record { tcp_meta_data = none; tcp_payload = none }, i)
]
step_by FsmState.extra_word r i = (
  record r { parse_fsm_state = FsmState.first_word },
  record {
    tcp_meta_data = none;
    tcp_payload =
        some (record (payload_word no_word r.prev_word r.tcp_payload_offset_bytes) { last = true });
  },
  i,
)

-- One call of `RxEngParseTcpHeader`.
unfoldable pub parse_tcp_header : Regs → List NetAxisWord → Regs × Outs × List NetAxisWord
unfolding step_by
parse_tcp_header r i = step_by r.parse_fsm_state r i
