-- ===== src/TxEngine/Header.antt =====
-- `TxEngFourTupleHandler` and `TxEngPseudoFullHeaderConstruct` of hls/toe/tx_engine/tx_engine.cpp:
-- the addresses of a segment and the word with its pseudo header and TCP header.
pub mod Parsed
use tcp_offload_engine_shell.Prelude.{
  ℕ, ◌+◌, ◌-◌, ◌*◌, ◌/◌, ◌%◌, ◌^◌, ◌==◌, Bool, true, false, not, ◌||◌, Option, none, some, List, [],
  ◌∷◌, ◌++◌, if◌then◌else◌, read,
}
use tcp_offload_engine_shell.Conn.Tables.{swap_byte16, tcp_mss}
use tcp_offload_engine_shell.Conn.Messages.{FourTuple}
use tcp_offload_engine_shell.Conn.Sessions.{ReverseTableToTxEngRsp}
use tcp_offload_engine_shell.Words.{NetAxisWord, no_word, swap_byte32}
use tcp_offload_engine_shell.Words.Bits.{build}
use tcp_offload_engine_shell.RxEngine.Segment.{flag}
use tcp_offload_engine_shell.TxEngine.State.{TxEngFsmMetaData}

pub data TupleFsmState : Type 0 where
  load_tuple_src read_tuple_from_slup_ctrl read_tuple_from_tx_eng : TupleFsmState

pub record IpAddrPair : Type 0 where
  pub src_ip_addr : ℕ
  pub dst_ip_addr : ℕ

pub record TupleIns : Type 0 where
  pub rev_table_rsp : List ReverseTableToTxEngRsp
  pub tuple_source : List Bool
  pub fsm_four_tuple : List FourTuple

pub record TupleOuts : Type 0 where
  pub for_tcp_header : Option FourTuple
  pub for_ip_header : Option IpAddrPair

abbrev pub ip_pair : FourTuple → IpAddrPair
ip_pair t = record { src_ip_addr = t.src_ip_addr; dst_ip_addr = t.dst_ip_addr }

abbrev pub no_tuple_out : TupleOuts
no_tuple_out = record { for_tcp_header = none; for_ip_header = none }

abbrev pub tuple_out : FourTuple → TupleOuts
tuple_out t = record { for_tcp_header = some t; for_ip_header = some (ip_pair t) }

-- One call of `TxEngFourTupleHandler`.
unfoldable pub tx_eng_four_tuple_handler :
    TupleFsmState → TupleIns → TupleFsmState × TupleOuts × TupleIns
tx_eng_four_tuple_handler TupleFsmState.load_tuple_src i = elim (read i.tuple_source) [
  | some (from_slookup, rest) ↦ (
    if from_slookup
        then TupleFsmState.read_tuple_from_slup_ctrl
        else TupleFsmState.read_tuple_from_tx_eng,
    no_tuple_out,
    record i { tuple_source = rest },
  )
  | none ↦ (TupleFsmState.load_tuple_src, no_tuple_out, i)
]
tx_eng_four_tuple_handler TupleFsmState.read_tuple_from_slup_ctrl i = elim (read i.rev_table_rsp) [
  | some (a, rest) ↦
      (TupleFsmState.load_tuple_src, tuple_out a.four_tuple, record i { rev_table_rsp = rest })
  | none ↦ (TupleFsmState.read_tuple_from_slup_ctrl, no_tuple_out, i)
]
tx_eng_four_tuple_handler TupleFsmState.read_tuple_from_tx_eng i = elim (read i.fsm_four_tuple) [
  | some (t, rest) ↦ (TupleFsmState.load_tuple_src, tuple_out t, record i { fsm_four_tuple = rest })
  | none ↦ (TupleFsmState.read_tuple_from_tx_eng, no_tuple_out, i)
]

-- The assignments to the word, in the order of the code: the range's ends and the value.
abbrev pub header_fields : TxEngFsmMetaData → FourTuple → List (ℕ × ℕ × ℕ)
header_fields m t =
    (31, 0, t.src_ip_addr)
    ∷ (63, 32, t.dst_ip_addr)
    ∷ (79, 64, 0x0600)
    ∷ (95, 80, swap_byte16 ((m.length + 0x14) % 2 ^ 16))
    ∷ (111, 96, t.src_tcp_port)
    ∷ (127, 112, t.dst_tcp_port)
    ∷ (159, 128, swap_byte32 m.seq_number)
    ∷ (191, 160, swap_byte32 m.ack_number)
    ∷ (192, 192, 0)
    ∷ (195, 193, 0)
    ∷ (200, 200, flag m.fin)
    ∷ (201, 201, flag m.syn)
    ∷ (202, 202, flag m.rst)
    ∷ (203, 203, 0)
    ∷ (204, 204, flag m.ack)
    ∷ (207, 205, 0)
    ∷ (223, 208, swap_byte16 m.win_size)
    ∷ (255, 224, 0)
    ∷ []

-- The option for the segment size, and that for the window scale with the end of the options.
abbrev pub mss_fields : List (ℕ × ℕ × ℕ)
mss_fields = (263, 256, 0x02) ∷ (271, 264, 0x04) ∷ (287, 272, swap_byte16 tcp_mss) ∷ []

abbrev pub scale_fields : TxEngFsmMetaData → List (ℕ × ℕ × ℕ)
scale_fields m =
    (295, 288, 0x03) ∷ (303, 296, 0x03) ∷ (311, 304, m.win_scale) ∷ (319, 312, 0x0) ∷ []

-- The options of a SYN, and the length of the header in words of 4 bytes.
abbrev pub option_fields : TxEngFsmMetaData → List (ℕ × ℕ × ℕ)
option_fields m =
    if m.syn
    then mss_fields
      ++ (if m.win_scale == 0 then (199, 196, 0x6) ∷ [] else (199, 196, 0x7) ∷ scale_fields m)
    else (199, 196, 0x5) ∷ []

-- The header and whether a payload follows.
unfoldable pub full_header : TxEngFsmMetaData → FourTuple → NetAxisWord × Bool
full_header m t = (
  record no_word {
    word = build (header_fields m t ++ option_fields m) 0;
    keep = if m.syn then if m.win_scale == 0 then 0xFFFFFFFFF else 0xFFFFFFFFFF else 0xFFFFFFFF;
    last = true;
  },
  not (m.length == 0 || m.syn),
)

-- One call of `TxEngPseudoFullHeaderConstruct`: a header needs both streams.
unfoldable pub tx_eng_pseudo_full_header_construct :
    List TxEngFsmMetaData
    → List FourTuple
    → Option (NetAxisWord × Bool) × List TxEngFsmMetaData × List FourTuple
unfolding full_header
tx_eng_pseudo_full_header_construct ms ts = elim (read ts) [
  | some (t, ts') ↦ elim (read ms) [
    | some (m, ms') ↦ (some (full_header m t), ms', ts')
    | none ↦ (none, ms, ts)
  ]
  | none ↦ (none, ms, ts)
]
