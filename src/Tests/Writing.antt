-- ===== src/Tests/Writing.antt =====
-- Concrete requests of an application to hls/toe/tx_app_intf.
use tcp_offload_engine_shell.Prelude.{
  ◌+◌, ◌-◌, ◌<◌, ◌≡◌, ◌≢◌, ◌↔◌, refl, true, false, some, none, [], ◌∷◌, arith,
}
use tcp_offload_engine_shell.Conn.Tables.{established, buffer_size}
use tcp_offload_engine_shell.Conn.Messages.{Event, tx}
use tcp_offload_engine_shell.TxApp.Table.{TxAppToTxAppTableReq, TxAppTableToTxAppRsp, table_write}
use tcp_offload_engine_shell.TxApp.Data
use tcp_offload_engine_shell.TxApp.Data.{AppTransDataReq, read_meta, tx_app_data_handler}
use tcp_offload_engine_shell.TxApp.Data.Space.{unacknowledged, write_fits, pointers_agree}
use tcp_offload_engine_shell.TxApp.Status
use tcp_offload_engine_shell.TxApp.Status.{read_status_1, tx_app_rsp_handler}
use tcp_offload_engine_shell.TxApp.Conn
use tcp_offload_engine_shell.TxApp.Conn.{idle, close_conn, tx_app_connection_handler}

-- 500 bytes are unacknowledged, around the end of the buffer.
abbrev entry : TxAppTableToTxAppRsp
entry = record { session_id = 3; ackd = buffer_size - 200; app_written_ideal = 300 }

-- A request to write 1000 bytes.
abbrev request : AppTransDataReq
request = record { length = 1000; id = 3; dest = 2 }

abbrev checking : Data.Regs
checking = record {
  fsm_state = read_meta;
  trans_data_lock = true;
  trans_data_req = request;
  tx_app_table_rsp = entry;
  max_write_length = 0;
}

abbrev answers : Data.Ins
answers = record {
  trans_data_req = [];
  sttable_lup_rsp = established ∷ [];
  table_rsp = entry ∷ [];
  trans_data = [];
}

write_fits_example :
    let o = (tx_app_data_handler checking answers).1 in
    let b = unacknowledged (buffer_size - 200) 300 in
    ((o.event_out ≢ none) ↔ ((established ≡ established) × (b + 1000 < buffer_size)))
    × ((q : TxAppToTxAppTableReq)
        → o.table_req ≡ some q
        → (q.write ≡ true)
          × (q.session_id ≡ 3)
          × (unacknowledged (buffer_size - 200) q.app_written_ideal ≡ b + 1000))
    × ((o.table_req ≢ none) ↔ (o.event_out ≢ none))
write_fits_example =
    write_fits checking answers established entry [] [] refl refl refl refl (omega arith)
      (omega arith)

abbrev written : Event
written = record { kind = tx; session_id = 3; buf_addr = 300; length = 1000; retrans_cnt = 0 }

abbrev status : Status.Regs
status = record { fsm_status = read_status_1; cur_event = written }

abbrev okay : Status.Ins
okay = record { double_access_flag = false ∷ []; write_status = true ∷ []; event_cache = [] }

pointers_agree_example :
    (tx_app_rsp_handler status okay).1.tx_sar_upd
    ≡ some (record { session_id = 3; app_written = 1300 })
unfolding tx_app_data_handler
pointers_agree_example =
    pointers_agree checking answers written (table_write 3 1300) status okay refl (omega arith) refl
      refl refl refl

-- The application closes session 3, which is open.
abbrev closing : Conn.Regs
closing = record {
  app_open_req = record { my_ip_addr = 0; ip_addr = 0; tcp_port = 0; dest = 0 };
  tx_app_wait_for_free_port_lock = false;
  fsm_state = close_conn;
  passive_open_session = record {
    session_id = 0;
    buffersize = 0;
    max_segment_size = 0;
    tcp_nodelay = false;
    tcp_buffer_is_empty = false;
  };
  open_session = record { session_id = 0; success = false };
  app_close_session = record { session_id = 3; dest = 2 };
}

abbrev state_answer : Conn.Ins
state_answer = record {
  open_conn_req = [];
  close_conn_req = [];
  rx_eng_new_client = [];
  rx_eng_notification = [];
  rtimer_notification = [];
  slookup_rsp = [];
  tdest_rsp = [];
  ptable_rsp = [];
  sttable_rsp = established ∷ [];
}
