-- ===== src/TxEngine/Retransmit.antt =====
-- `TxEngTcpFsm` of hls/toe/tx_engine/tx_engine.cpp, `case RT` and `case RT_CONT`: what was sent and
-- not acknowledged is sent again, up to four segments.
use tcp_offload_engine_shell.Prelude.{
  ℕ, ◌+◌, ◌-◌, ◌*◌, ◌/◌, ◌%◌, ◌^◌, true, none, some, ◌==◌, ltb, if◌then◌else◌, not, ◌&&◌,
}
use tcp_offload_engine_shell.Conn.Tables.{RxSarLookupRsp, TxSarToTxEngRsp, TxEngToTxSarReq, tcp_mss}
use tcp_offload_engine_shell.Conn.Messages.{EventType}
use tcp_offload_engine_shell.TxEngine.State.{
  Regs, Outs, FsmState, nothing, tx_sar_read, send_data, ack_meta,
}
use tcp_offload_engine_shell.TxEngine.Data.{with_type}

-- max(FlightSize / 2, 2 * TCP_MSS), in 16 bits.
abbrev pub slowstart_threshold : ℕ → ℕ
slowstart_threshold curr = (if ltb (4 * tcp_mss) curr then curr / 2 else 2 * tcp_mss) % 2 ^ 16

abbrev pub retrans_req : ℕ → ℕ → TxEngToTxSarReq
retrans_req id threshold = record (tx_sar_read id) {
  not_ackd = threshold;
  write = true;
  retrans_req = true;
}

-- The segment and the variables after it. `ptr` is where the payload is read from.
unfoldable pub resend : Regs → RxSarLookupRsp → TxSarToTxEngRsp → ℕ → Regs × Outs
resend r a t ptr =
    let id = r.event_reg.event.session_id in
    let curr = t.used_length_rst in
    let more = ltb tcp_mss curr in
    let m = record (ack_meta r a t.ackd) { length = if more then tcp_mss else curr } in
    let first = not r.tx_rx_sar_loaded && (r.event_reg.event.retrans_cnt == 1) in
    (
      record r {
        rx_sar = a;
        meta = m;
        curr_length = curr;
        tx_sar =
            if more
            then record t {
              ackd = (t.ackd + tcp_mss) % 2 ^ 32;
              used_length_rst = t.used_length_rst - tcp_mss;
            }
            else t;
        retrans_seg_cnt = if more then (r.retrans_seg_cnt + 1) % 2 ^ 2 else r.retrans_seg_cnt;
        fsm_state =
            if more
            then if r.retrans_seg_cnt == 3 then FsmState.load else FsmState.transition
            else if t.fin_is_sent
            then FsmState.transition
            else FsmState.load;
        event_reg =
            if more
            then with_type EventType.rt_cont r.event_reg
            else if t.fin_is_sent
            then with_type EventType.fin r.event_reg
            else r.event_reg;
      },
      send_data id ptr m (record nothing {
        tx_sar_req = if first then some (retrans_req id (slowstart_threshold curr)) else none;
      }),
    )

-- `case RT`.
unfoldable pub on_rt : Regs → RxSarLookupRsp → TxSarToTxEngRsp → Regs × Outs
on_rt r a t = let (r', o) = resend r a t t.ackd in (record r' { tx_rx_sar_loaded = true }, o)

-- `case RT_CONT`. The address is taken from the local variable `tx_sar_rsp`, which this call has
-- not set: its `ackd` is the 0 of the default constructor.
unfoldable pub on_rt_cont : Regs → Regs × Outs
on_rt_cont r = resend r r.rx_sar r.tx_sar 0
