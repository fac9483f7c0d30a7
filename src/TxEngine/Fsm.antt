-- ===== src/TxEngine/Fsm.antt =====
-- `TxEngTcpFsm` of hls/toe/tx_engine/tx_engine.cpp: loads the tables for an event, then sends what
-- the event asks for.
pub mod Transmit
pub mod Faults
use tcp_offload_engine_shell.Prelude.{
  ℕ, Bool, true, false, Option, none, some, List, ◌∷◌, if◌then◌else◌, read,
}
use tcp_offload_engine_shell.Conn.Tables.{RxSarLookupRsp, TxSarToTxEngRsp}
use tcp_offload_engine_shell.Conn.Messages.{EventType, EventWithTuple}
use tcp_offload_engine_shell.TxEngine.State.{
  Regs, Ins, Outs, FsmState, nothing, tx_sar_read, retransmitted,
}
use tcp_offload_engine_shell.TxEngine.Data.{on_tx_first, on_tx_again}
use tcp_offload_engine_shell.TxEngine.Retransmit.{on_rt, on_rt_cont}
use tcp_offload_engine_shell.TxEngine.Control.{on_ack, on_syn, on_syn_ack, on_fin, on_rst}

-- `case LOAD`: the tables that are asked, by the kind of event.
abbrev pub asks_rx_sar : EventType → Bool
asks_rx_sar EventType.rst = false
asks_rx_sar EventType.syn = false
asks_rx_sar EventType.rt_cont = false
asks_rx_sar k = true

abbrev pub asks_tx_sar : EventType → EventWithTuple → Bool
asks_tx_sar EventType.rst e = retransmitted e
asks_tx_sar EventType.syn e = retransmitted e
asks_tx_sar EventType.rt_cont e = false
asks_tx_sar k e = true

load_event : Regs → EventWithTuple → Regs × Outs
load_event r e =
    let id = e.event.session_id in
    (
      record r {
        fsm_state = FsmState.transition;
        event_reg = e;
        tx_rx_sar_loaded = false;
        retrans_seg_cnt = 0;
      },
      record nothing {
        read_count = true;
        rx_sar_lup_req = if asks_rx_sar e.event.kind then some id else none;
        tx_sar_req = if asks_tx_sar e.event.kind e then some (tx_sar_read id) else none;
      },
    )

-- A case that needs the answers of both tables.
abbrev with_both :
    (Regs → RxSarLookupRsp → TxSarToTxEngRsp → Regs × Outs) → Regs → Ins → Regs × Outs × Ins
with_both f r i = elim (read i.rx_sar_rsp) [
  | none ↦ (r, nothing, i)
  | some (a, as') ↦ elim (read i.tx_sar_rsp) [
    | none ↦ (r, nothing, i)
    | some (t, ts) ↦
        let (r', o) = f r a t in (r', o, record i { rx_sar_rsp = as'; tx_sar_rsp = ts })
  ]
]

-- A case that goes on without the tables once they were loaded.
abbrev or_loaded : (Regs × Outs) → (Regs × Outs × Ins) → Regs → Ins → Regs × Outs × Ins
or_loaded again first r i = if r.tx_rx_sar_loaded then (again.0, again.1, i) else first

-- `case TRANSITION`. Of the two conditions of TX and FIN the answers are read only if the tables
-- are not loaded yet.
transition_by : EventType → ℕ → Regs → Ins → Regs × Outs × Ins
transition_by EventType.tx isn r i = or_loaded (on_tx_again r) (with_both on_tx_first r i) r i
transition_by EventType.rt isn r i = with_both on_rt r i
transition_by EventType.rt_cont isn r i = let (r', o) = on_rt_cont r in (r', o, i)
transition_by EventType.ack isn r i = with_both on_ack r i
transition_by EventType.ack_nodelay isn r i = with_both on_ack r i
transition_by EventType.syn isn r i =
    if retransmitted r.event_reg
    then elim (read i.tx_sar_rsp) [
      | none ↦ (r, nothing, i)
      | some (t, ts) ↦ let (r', o) = on_syn isn r t in (r', o, record i { tx_sar_rsp = ts })
    ]
    else let (r', o) = on_syn isn r r.tx_sar in (r', o, i)
transition_by EventType.syn_ack isn r i = with_both (on_syn_ack isn) r i
transition_by EventType.fin isn r i =
    or_loaded (on_fin r r.rx_sar r.tx_sar) (with_both on_fin r i) r i
transition_by EventType.rst isn r i =
    if retransmitted r.event_reg
    then elim (read i.tx_sar_rsp) [
      | none ↦ let (r', o) = on_rst r none in (r', o, i)
      | some (t, ts) ↦ let (r', o) = on_rst r (some t) in (r', o, record i { tx_sar_rsp = ts })
    ]
    else let (r', o) = on_rst r none in (r', o, i)

step_by : FsmState → ℕ → Regs → Ins → Regs × Outs × Ins
unfolding load_event transition_by
step_by FsmState.load isn r i = elim (read i.events) [
  | some (e, rest) ↦ let (r', o) = load_event r e in (r', o, record i { events = rest })
  | none ↦ (record r { retrans_seg_cnt = 0 }, nothing, i)
]
step_by FsmState.transition isn r i = transition_by r.event_reg.event.kind isn r i

-- One call of `TxEngTcpFsm`; `isn` is what `RandomVal` returns if it is called.
unfoldable pub tx_eng_tcp_fsm : ℕ → Regs → Ins → Regs × Outs × Ins
unfolding step_by
tx_eng_tcp_fsm isn r i = step_by r.fsm_state isn r i
