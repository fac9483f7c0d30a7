-- ===== src/TxEngine/Fsm/Faults.antt =====
-- Where `TxEngTcpFsm` departs from what it means to do.
use tcp_offload_engine_shell.Prelude.{
  ℕ, ◌+◌, ◌-◌, ◌*◌, ◌%◌, ◌^◌, ◌≤◌, ◌<◌, ◌≡◌, true, some, [], arith,
}
use tcp_offload_engine_shell.Conn.Tables.{RxSarLookupRsp, TxSarToTxEngRsp, tcp_mss, buffer_size}
use tcp_offload_engine_shell.Conn.Messages.{mem_buffer_rw_cmd, rst}
use tcp_offload_engine_shell.RxEngine.Segment.{get_session_mem_addr}
use tcp_offload_engine_shell.TxEngine.State.{Regs, Ins, nothing, load, transition, retransmitted}
use tcp_offload_engine_shell.TxEngine.Data.{next_segment, send_segment, on_tx_first, usable_again}
use tcp_offload_engine_shell.TxEngine.Retransmit.{resend, on_rt, on_rt_cont}
use tcp_offload_engine_shell.TxEngine.Control.{on_rst}
use tcp_offload_engine_shell.TxEngine.Fsm.{tx_eng_tcp_fsm}

-- Let the bytes in flight and the usable window of a TX event make up a window below 2 ^ 18. If the
-- first segment is a full one that fits the usable window, and with it 2 ^ 16 bytes or more but
-- fewer than 2 ^ 17 are in flight, then the window left for the next segment is computed as 2 ^ 16
-- bytes more than what is left of it, as long as that is below 2 ^ 18.
pub window_overrun :
    (r : Regs) (a : RxSarLookupRsp) (t : TxSarToTxEngRsp)
    → t.usable_window + t.used_length ≡ t.min_window
    → t.min_window < buffer_size
    → tcp_mss ≤ t.curr_length
    → tcp_mss ≤ t.usable_window
    → 2 ^ 16 ≤ t.used_length + tcp_mss
    → t.used_length + tcp_mss < 2 ^ 17
    → t.usable_window - tcp_mss + 2 ^ 16 < buffer_size
    → usable_again (on_tx_first r a t).0 ≡ t.usable_window - tcp_mss + 2 ^ 16
unfolding on_tx_first send_segment next_segment
window_overrun r a t w m c u v x y = ground arith

-- If at least two full segments are to be retransmitted, the second one carries the number that
-- follows the first one, but its payload, of a full segment, is read from the start of the
-- session's buffer, wherever that number points.
pub retransmission_from_start :
    (r : Regs) (a : RxSarLookupRsp) (t : TxSarToTxEngRsp)
    → 2 * tcp_mss ≤ t.used_length_rst
    → let r' = (on_rt r a t).0 in
      let o' = (on_rt_cont r').1 in
      let id = r.event_reg.event.session_id in
      (r'.tx_sar.ackd ≡ (t.ackd + tcp_mss) % 2 ^ 32)
      × ((on_rt_cont r').0.meta.seq_number ≡ (t.ackd + tcp_mss) % 2 ^ 32)
      × (o'.mem_cmd ≡ some (mem_buffer_rw_cmd (2 ^ 31 + get_session_mem_addr id 0) tcp_mss))
unfolding on_rt on_rt_cont resend
retransmission_from_start r a t h = ground arith

-- A reset of a session whose entry in the table has not been answered yet is not sent: the event is
-- over, nothing is written, and the answer stays to come for the event after it.
pub reset_lost :
    (isn : ℕ) (r : Regs) (i : Ins)
    → r.fsm_state ≡ transition
    → r.event_reg.event.kind ≡ rst
    → retransmitted r.event_reg ≡ true
    → i.tx_sar_rsp ≡ []
    → tx_eng_tcp_fsm isn r i ≡ (record r { fsm_state = load }, nothing, i)
unfolding tx_eng_tcp_fsm on_rst
reset_lost isn r i s k h e = ground arith
