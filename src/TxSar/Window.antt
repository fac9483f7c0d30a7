-- ===== src/TxSar/Window.antt =====
-- The lengths and windows that the transmitting table computes for the tx engine.
use tcp_offload_engine_shell.Prelude.{◌+◌, ◌%◌, ◌^◌, ◌≤◌, ◌<◌, ◌≡◌, ◌⊎◌, some, List, ◌∷◌, arith}
use tcp_offload_engine_shell.Conn.Tables.{TxSarToTxEngRsp, TxEngToTxSarReq, buffer_size}
use tcp_offload_engine_shell.TxSar.{Table, Ins, scaled_recv_window, tx_sar_table}

-- If a request of the tx engine is read and answered, then what the engine may still send, with
-- what is in flight, exceeds neither the congestion window nor the peer's scaled window, unless
-- more than the smaller one is in flight already, and then nothing may be sent.
pub usable_window_bounded :
    (t : Table) (i : Ins) (q : TxEngToTxSarReq) (rest : List TxEngToTxSarReq) {a : TxSarToTxEngRsp}
    → i.tx_eng_req ≡ q ∷ rest
    → (tx_sar_table t i).1.tx_eng_rsp ≡ some a
    → (a.min_window ≤ (t q.session_id).cong_window)
      × (a.min_window ≤ scaled_recv_window (t q.session_id))
      × ((a.used_length + a.usable_window ≡ a.min_window)
          ⊎ ((a.usable_window ≡ 0) × (a.min_window ≤ a.used_length)))
unfolding tx_sar_table
usable_window_bounded t i q rest e h = ground arith

-- If a request of the tx engine is read and answered, for a session whose acknowledged number and
-- written pointer are in range, then the acknowledged number, the bytes in flight and the bytes not
-- yet sent add up, within 18 bits, to what the application has written.
pub lengths_add_up :
    (t : Table) (i : Ins) (q : TxEngToTxSarReq) (rest : List TxEngToTxSarReq) {a : TxSarToTxEngRsp}
    → i.tx_eng_req ≡ q ∷ rest
    → (t q.session_id).ackd < 2 ^ 32
    → (t q.session_id).app_written < buffer_size
    → (tx_sar_table t i).1.tx_eng_rsp ≡ some a
    → (a.ackd + a.used_length + a.curr_length) % buffer_size ≡ a.app_written
unfolding tx_sar_table
lengths_add_up t i q rest e h k l = ground arith
