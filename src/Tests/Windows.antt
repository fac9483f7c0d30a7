-- ===== src/Tests/Windows.antt =====
-- The two SAR tables of hls/toe on concrete windows.
use tcp_offload_engine_shell.Prelude.{ℕ, ◌+◌, ◌-◌, ◌*◌, ◌^◌, false, [], ◌∷◌}
use tcp_offload_engine_shell.Conn.Tables.{
  RxSarLookupRsp, RxEngToRxSarReq, TxEngToTxSarReq, TxSarToTxEngRsp, buffer_size,
}
use tcp_offload_engine_shell.RxSar
use tcp_offload_engine_shell.RxSar.{free_space, rx_sar_table}
use tcp_offload_engine_shell.TxSar
use tcp_offload_engine_shell.TxSar.{scaled_recv_window, tx_sar_table}

-- 1000 bytes are buffered, around the end of the buffer.
abbrev rx_table : ℕ → RxSar.Table
rx_table shift id = record {
  recvd = 3 * buffer_size + 400;
  app_read = buffer_size - 600;
  win_shift = shift;
}

abbrev tx_eng_asks : RxSar.Ins
tx_eng_asks = record { tx_eng_lup_req = 5 ∷ []; rx_app_req = []; rx_eng_req = [] }

abbrev rx_eng_asks : RxEngToRxSarReq → RxSar.Ins
rx_eng_asks q = record { tx_eng_lup_req = []; rx_app_req = []; rx_eng_req = q ∷ [] }

abbrev scaled_answer : RxSarLookupRsp
scaled_answer = record { recvd = 3 * buffer_size + 400; win_shift = 2; win_size = 65285 }

-- 65535 bytes are buffered, and 196608 are free.
abbrev large_table : RxSar.Table
large_table id = record { recvd = 65535; app_read = 0; win_shift = 0 }

abbrev wrapped_answer : RxSarLookupRsp
wrapped_answer = record { recvd = 65535; win_shift = 0; win_size = 0 }

-- 3000 bytes are in flight around the end of the 32-bit numbers, and 500 wait.
abbrev tx_table : TxSar.Table
tx_table id = record {
  ackd = 2 ^ 32 - 1000;
  not_ackd = 2000;
  recv_window = 1000;
  app_written = 2500;
  cong_window = 14600;
  slowstart_threshold = 100000;
  win_shift = 2;
  retrans_count = 0;
  fast_retrans = false;
  fin_is_ready = false;
  fin_is_sent = false;
}

abbrev tx_eng_read : TxEngToTxSarReq
tx_eng_read = record {
  session_id = 5;
  not_ackd = 0;
  write = false;
  init = false;
  fin_is_ready = false;
  fin_is_sent = false;
  retrans_req = false;
}

abbrev tx_eng_reads : TxSar.Ins
tx_eng_reads = record { tx_app_upd_req = []; rx_eng_req = []; tx_eng_req = tx_eng_read ∷ [] }

abbrev tx_answer : TxSarToTxEngRsp
tx_answer = record {
  ackd = 2 ^ 32 - 1000;
  not_ackd = 2000;
  min_window = 4000;
  app_written = 2500;
  fin_is_ready = false;
  fin_is_sent = false;
  curr_length = 500;
  used_length = 3000;
  used_length_rst = 3000;
  usable_window = 1000;
  ackd_eq_not_ackd = false;
  not_ackd_short = 2500;
  not_ackd_plus_mss = 3460;
  win_shift = 2;
}
