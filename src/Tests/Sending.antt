-- ===== src/Tests/Sending.antt =====
-- Concrete events in the tx engine of hls/toe/tx_engine.
use tcp_offload_engine_shell.Prelude.{
  ℕ, ◌+◌, ◌-◌, ◌*◌, ◌%◌, ◌^◌, ◌≤◌, ◌<◌, ◌≡◌, refl, true, false, some, [], ◌∷◌, arith,
}
use tcp_offload_engine_shell.Conn.Tables.{RxSarLookupRsp, TxSarToTxEngRsp, tcp_mss}
use tcp_offload_engine_shell.Conn.Messages.{
  EventWithTuple, event, rst_event, with_no_tuple, mem_buffer_rw_cmd, tx, rt,
}
use tcp_offload_engine_shell.RxEngine.Segment.{get_session_mem_addr}
use tcp_offload_engine_shell.TxEngine.State.{Regs, Ins, TxEngFsmMetaData, transition}
use tcp_offload_engine_shell.TxEngine.Data.{on_tx_first, usable_again}
use tcp_offload_engine_shell.TxEngine.Retransmit.{on_rt, on_rt_cont}
use tcp_offload_engine_shell.TxEngine.Fsm.Transmit.{bytes, data_sent_in_window}
use tcp_offload_engine_shell.TxEngine.Fsm.Faults.{window_overrun, retransmission_from_start}

abbrev rx_answer : RxSarLookupRsp
rx_answer = record { recvd = 5000; win_shift = 2; win_size = 60000 }

-- `used` bytes in flight of a window of `min`, and `curr` to send.
abbrev tx_answer : ℕ → ℕ → ℕ → TxSarToTxEngRsp
tx_answer min used curr = record {
  ackd = 1000;
  not_ackd = 1000 + used;
  min_window = min;
  app_written = 1000 + used + curr;
  fin_is_ready = false;
  fin_is_sent = false;
  curr_length = curr;
  used_length = used;
  used_length_rst = used;
  usable_window = min - used;
  ackd_eq_not_ackd = false;
  not_ackd_short = 1000 + used + curr;
  not_ackd_plus_mss = 1000 + used + tcp_mss;
  win_shift = 2;
}

abbrev no_meta : TxEngFsmMetaData
no_meta = record {
  seq_number = 0;
  ack_number = 0;
  win_size = 0;
  win_scale = 0;
  length = 0;
  ack = false;
  rst = false;
  syn = false;
  fin = false;
  role_id = 0;
}

-- An event of session 3 has been loaded.
abbrev loaded : EventWithTuple → Regs
loaded e = record {
  fsm_state = transition;
  tx_rx_sar_loaded = false;
  event_reg = e;
  retrans_seg_cnt = 0;
  rx_sar = rx_answer;
  tx_sar = tx_answer 0 0 0;
  meta = no_meta;
  curr_length = 0;
  used_length = 0;
  remaining_window = 0;
}

abbrev sending : Regs
sending = loaded (with_no_tuple (event tx 3))

-- 4000 bytes of payload: two full segments and one of 1080 bytes.
data_sent_in_window_example :
    let b = bytes 3 0 sending (record {
      events = [];
      rx_sar_rsp = rx_answer ∷ [];
      tx_sar_rsp = tx_answer 20000 1000 4000 ∷ [];
    }) in
    (b ≤ 19000) × (4000 ≤ 19000 → 4000 < 3 * tcp_mss → b ≡ 4000)
data_sent_in_window_example =
    data_sent_in_window 3 0 sending rx_answer (tx_answer 20000 1000 4000) refl refl refl refl
      (omega arith) (omega arith)

-- 65000 bytes are in flight, and the window has 70000: 5000 may be sent. After 1460 of them the
-- engine takes 69076 bytes to be left.
window_overrun_example :
    usable_again (on_tx_first sending rx_answer (tx_answer 70000 65000 9000)).0
    ≡ 5000 - tcp_mss + 2 ^ 16
window_overrun_example =
    window_overrun sending rx_answer (tx_answer 70000 65000 9000) refl (omega arith) (omega arith)
      (omega arith) (omega arith) (omega arith) (omega arith)

abbrev retransmitting : Regs
retransmitting = loaded (with_no_tuple (event rt 3))

retransmission_from_start_example :
    let r' = (on_rt retransmitting rx_answer (tx_answer 20000 4000 0)).0 in
    let o' = (on_rt_cont r').1 in
    (r'.tx_sar.ackd ≡ (1000 + tcp_mss) % 2 ^ 32)
    × ((on_rt_cont r').0.meta.seq_number ≡ (1000 + tcp_mss) % 2 ^ 32)
    × (o'.mem_cmd ≡ some (mem_buffer_rw_cmd (2 ^ 31 + get_session_mem_addr 3 0) tcp_mss))
retransmission_from_start_example =
    retransmission_from_start retransmitting rx_answer (tx_answer 20000 4000 0) (omega arith)

abbrev resetting : Regs
resetting = loaded (with_no_tuple (rst_event 3 77 true))

abbrev unanswered : Ins
unanswered = record { events = []; rx_sar_rsp = []; tx_sar_rsp = [] }
