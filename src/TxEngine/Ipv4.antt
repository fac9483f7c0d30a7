-- ===== src/TxEngine/Ipv4.antt =====
-- `TxEngConstructIpv4Header` and `TxEngConstructIpv4Packet` of hls/toe/tx_engine/tx_engine.cpp, as
-- they are synthesised: the IP header, and the packet with the TCP checksum.
pub mod Tail
use tcp_offload_engine_shell.Prelude.{
  ℕ, ◌+◌, ◌-◌, ◌*◌, ◌%◌, ◌^◌, Bool, true, false, not, Option, none, some, List, [], ◌∷◌,
  if◌then◌else◌, read,
}
use tcp_offload_engine_shell.Conn.Tables.{swap_byte16}
use tcp_offload_engine_shell.Words.{NetAxisWord, no_word, bit, concat_two_words}
use tcp_offload_engine_shell.Words.Bits.{build}
use tcp_offload_engine_shell.TxEngine.Header.{IpAddrPair}

-- The assignments to the word, in the order of the code.
abbrev pub ipv4_fields : ℕ → IpAddrPair → List (ℕ × ℕ × ℕ)
ipv4_fields length p =
    (7, 0, 0x45)
    ∷ (15, 8, 0)
    ∷ (31, 16, swap_byte16 ((length + 40) % 2 ^ 16))
    ∷ (47, 32, 0)
    ∷ (50, 48, 0)
    ∷ (63, 51, 0x0)
    ∷ (71, 64, 0x40)
    ∷ (79, 72, 0x06)
    ∷ (95, 80, 0)
    ∷ (127, 96, p.src_ip_addr)
    ∷ (159, 128, p.dst_ip_addr)
    ∷ []

unfoldable pub ipv4_header : ℕ → IpAddrPair → NetAxisWord
ipv4_header length p = record {
  word = build (ipv4_fields length p) 0;
  keep = 0xFFFFF;
  last = true;
  dest = 0;
}

-- One call of `TxEngConstructIpv4Header`: a header needs both streams.
unfoldable pub construct_ipv4_header :
    List ℕ → List IpAddrPair → Option NetAxisWord × List ℕ × List IpAddrPair
unfolding ipv4_header
construct_ipv4_header ls ps = elim (read ls) [
  | some (l, ls') ↦ elim (read ps) [
    | some (p, ps') ↦ (some (ipv4_header l p), ls', ps')
    | none ↦ (none, ls, ps)
  ]
  | none ↦ (none, ls, ps)
]

pub data FsmState : Type 0 where
  read_first read_payload extra_word : FsmState

pub record Regs : Type 0 where
  pub fsm_state : FsmState
  pub prev_word : NetAxisWord

pub record Ins : Type 0 where
  pub ipv4_headers : List NetAxisWord
  pub tcp_packet : List NetAxisWord
  pub tcp_checksum : List ℕ

-- The range of the checksum has 17 bits.
abbrev pub packet_fields : NetAxisWord → NetAxisWord → ℕ → List (ℕ × ℕ × ℕ)
packet_fields h w checksum =
    (159, 0, h.word) ∷ (511, 160, w.word % 2 ^ 352) ∷ (304, 288, swap_byte16 checksum) ∷ []

unfoldable pub first_word : NetAxisWord → NetAxisWord → ℕ → NetAxisWord
first_word h w checksum = record no_word {
  word = build (packet_fields h w checksum) 0;
  keep = 0xFFFFF + w.keep % 2 ^ 44 * 2 ^ 20;
}

first_beat : Regs → NetAxisWord → NetAxisWord → ℕ → Regs × Option NetAxisWord
unfolding first_word
first_beat r h w checksum =
    let more = bit w.keep 44 in
    (
      record {
        fsm_state =
            if w.last
            then if more then FsmState.extra_word else FsmState.read_first
            else FsmState.read_payload;
        prev_word = w;
      },
      some (record (first_word h w checksum) { last = if w.last then not more else false }),
    )

-- `case READ_PAYLOAD`. The `else` of the inner test has no braces, so that the state after the last
-- word is READ_FIRST in either case.
payload_beat : Regs → NetAxisWord → Regs × Option NetAxisWord
payload_beat r w = (
  record {
    fsm_state = if w.last then FsmState.read_first else FsmState.read_payload;
    prev_word = w;
  },
  some (record (concat_two_words w r.prev_word 44 no_word) {
    last = if w.last then not (bit w.keep 44) else false;
  }),
)

step_by : FsmState → Regs → Ins → Regs × Option NetAxisWord × Ins
unfolding first_beat payload_beat
step_by FsmState.read_first r i = elim (read i.ipv4_headers) [
  | some (h, headers) ↦ elim (read i.tcp_packet) [
    | some (w, rest) ↦ elim (read i.tcp_checksum) [
      | some (c, checksums) ↦
          let (r', o) = first_beat r h w c in
          (r', o, record { ipv4_headers = headers; tcp_packet = rest; tcp_checksum = checksums })
      | none ↦ (r, none, i)
    ]
    | none ↦ (r, none, i)
  ]
  | none ↦ (r, none, i)
]
step_by FsmState.read_payload r i = elim (read i.tcp_packet) [
  | some (w, rest) ↦ let (r', o) = payload_beat r w in (r', o, record i { tcp_packet = rest })
  | none ↦ (r, none, i)
]
step_by FsmState.extra_word r i = (
  record r { fsm_state = FsmState.read_first },
  some (record (concat_two_words no_word r.prev_word 44 no_word) { last = true }),
  i,
)

-- One call of `TxEngConstructIpv4Packet`.
unfoldable pub construct_ipv4_packet : Regs → Ins → Regs × Option NetAxisWord × Ins
unfolding step_by
construct_ipv4_packet r i = step_by r.fsm_state r i
