-- ===== src/RxEngine/Fsm.antt =====
-- `RxEngTcpFsm` of hls/toe/rx_engine/rx_engine.cpp: reads the tables for a segment, then handles it
-- by its flags.
pub mod Transitions
pub mod Windows
use tcp_offload_engine_shell.Prelude.{
  ℕ, ◌+◌, ◌*◌, Bool, true, false, not, ◌&&◌, ◌||◌, Option, none, some, List, ◌∷◌, ◌==◌,
  if◌then◌else◌, read,
}
use tcp_offload_engine_shell.Conn.Tables.{
  SessionState, RxSarTableEntry, TxSarToRxEngRsp, state_read, rx_sar_read, tx_sar_read,
}
use tcp_offload_engine_shell.RxEngine.Segment.{RxEngFsmMetaData, TcpHeaderMeta, Outs, nothing, flag}
use tcp_offload_engine_shell.RxEngine.Ack.{on_ack}
use tcp_offload_engine_shell.RxEngine.Control.{on_syn, on_syn_ack, on_fin_ack, on_other}

pub data FsmState : Type 0 where
  load transition : FsmState

-- The static variables.
pub record Regs : Type 0 where
  pub fsm_state : FsmState
  pub meta : RxEngFsmMetaData
  pub sent_tx_sar_req : Bool
  pub ctrl_bits : ℕ
  pub session_state : SessionState
  pub rx_sar : RxSarTableEntry
  pub tx_sar : TxSarToRxEngRsp

pub record Ins : Type 0 where
  pub meta_in : List RxEngFsmMetaData
  pub sttable_rsp : List SessionState
  pub rx_sar_rsp : List RxSarTableEntry
  pub tx_sar_rsp : List TxSarToRxEngRsp

-- `rx_eng_ctrl_bits`: ACK, SYN, FIN, RST from bit 0.
abbrev pub ctrl_bits_of : TcpHeaderMeta → ℕ
ctrl_bits_of h = flag h.ack + 2 * flag h.syn + 4 * flag h.fin + 8 * flag h.rst

-- `switch (rx_eng_ctrl_bits)`, with the answers of the tables in the registers.
unfoldable pub handle : Regs → Regs × Outs
handle r =
    let (t, o) = on_ack r.meta r.session_state r.rx_sar r.tx_sar in
    if r.ctrl_bits == 1
    then (record r { tx_sar = t }, o)
    else if r.ctrl_bits == 2
    then (r, on_syn r.meta r.session_state r.rx_sar r.tx_sar)
    else if r.ctrl_bits == 3
    then (r, on_syn_ack r.meta r.session_state r.tx_sar)
    else if r.ctrl_bits == 5
    then (r, on_fin_ack r.meta r.session_state r.rx_sar r.tx_sar)
    else (r, on_other r.meta r.session_state r.rx_sar r.tx_sar)

-- `case LOAD`, for a segment.
unfoldable pub load_meta : Regs → RxEngFsmMetaData → Regs × Outs
load_meta r m = (
  record r {
    fsm_state = FsmState.transition;
    meta = m;
    sent_tx_sar_req = m.header.ack || r.sent_tx_sar_req;
    ctrl_bits = ctrl_bits_of m.header;
  },
  record nothing {
    sttable_req = some (state_read m.session_id);
    rx_sar_req = some (rx_sar_read m.session_id);
    tx_sar_req = if m.header.ack then some (tx_sar_read m.session_id) else none;
  },
)

-- The answer of the tx SAR table, if one was asked for; the register keeps its value if not.
abbrev pub tx_sar_answer : Regs → Ins → Option (TxSarToRxEngRsp × List TxSarToRxEngRsp)
tx_sar_answer r i = if r.sent_tx_sar_req then read i.tx_sar_rsp else some (r.tx_sar, i.tx_sar_rsp)

-- `case TRANSITION`: the answers, once all that were asked for are there.
unfoldable pub read_answers : Regs → Ins → Option (Regs × Ins)
read_answers r i = elim (read i.sttable_rsp) [
  | none ↦ none
  | some (s, ss) ↦ elim (read i.rx_sar_rsp) [
    | none ↦ none
    | some (x, xs) ↦ elim (tx_sar_answer r i) [
      | none ↦ none
      | some (t, ts) ↦ some (
        record r {
          fsm_state = FsmState.load;
          sent_tx_sar_req = false;
          session_state = s;
          rx_sar = x;
          tx_sar = t;
        },
        record i { sttable_rsp = ss; rx_sar_rsp = xs; tx_sar_rsp = ts },
      )
    ]
  ]
]

step_by : FsmState → Regs → Ins → Regs × Outs × Ins
unfolding load_meta read_answers
step_by FsmState.load r i = elim (read i.meta_in) [
  | some (m, rest) ↦ let (r', o) = load_meta r m in (r', o, record i { meta_in = rest })
  | none ↦ (r, nothing, i)
]
step_by FsmState.transition r i = elim (read_answers r i) [
  | some (r', i') ↦ let (r'', o) = handle r' in (r'', o, i')
  | none ↦ (r, nothing, i)
]

-- One call of `RxEngTcpFsm`.
unfoldable pub rx_eng_tcp_fsm : Regs → Ins → Regs × Outs × Ins
unfolding step_by
rx_eng_tcp_fsm r i = step_by r.fsm_state r i
