-- ===== src/TxApp/Data/Space.antt =====
-- A write request against the free part of the buffer, and the two written pointers against each
-- other.
use tcp_offload_engine_shell.Prelude.{
  ℕ, ◌+◌, ◌-◌, ◌%◌, ◌^◌, ◌<◌, ◌≡◌, ◌≢◌, ◌↔◌, true, false, none, some, List, [], ◌∷◌, arith,
}
use tcp_offload_engine_shell.Conn.Tables.{SessionState, established, buffer_size}
use tcp_offload_engine_shell.Conn.Messages.{Event}
use tcp_offload_engine_shell.TxApp.Table.{TxAppToTxAppTableReq, TxAppTableToTxAppRsp}
use tcp_offload_engine_shell.TxApp.Status
use tcp_offload_engine_shell.TxApp.Status.{tx_app_rsp_handler, read_status_1}
use tcp_offload_engine_shell.TxApp.Data.{Regs, Ins, read_meta, tx_app_data_handler}

-- Bytes written and not yet acknowledged.
abbrev pub unacknowledged : ℕ → ℕ → ℕ
unacknowledged ackd written = (written + buffer_size - ackd) % buffer_size

-- When the state and the table's entry of the session of a write request are there, the request is
-- accepted exactly if the session is ESTABLISHED and the data fits the buffer next to what is not
-- yet acknowledged, with a byte to spare. Exactly then the table gets a request, which moves the
-- session's pointer so that the unacknowledged bytes are more by the length.
pub write_fits :
    (r : Regs) (i : Ins) (s : SessionState) (a : TxAppTableToTxAppRsp) (ss : List SessionState)
    (answers : List TxAppTableToTxAppRsp)
    → r.fsm_state ≡ read_meta
    → r.trans_data_lock ≡ true
    → i.sttable_lup_rsp ≡ s ∷ ss
    → i.table_rsp ≡ a ∷ answers
    → a.ackd < buffer_size
    → a.app_written_ideal < buffer_size
    → let o = (tx_app_data_handler r i).1 in
      let b = unacknowledged a.ackd a.app_written_ideal in
      ((o.event_out ≢ none) ↔ ((s ≡ established) × (b + r.trans_data_req.length < buffer_size)))
      × ((q : TxAppToTxAppTableReq)
          → o.table_req ≡ some q
          → (q.write ≡ true)
            × (q.session_id ≡ r.trans_data_req.id)
            × (unacknowledged a.ackd q.app_written_ideal ≡ b + r.trans_data_req.length))
      × ((o.table_req ≢ none) ↔ (o.event_out ≢ none))
unfolding tx_app_data_handler
write_fits r i s a ss answers f l p q x y = (
  (λ h. ground arith, λ h e. ground arith),
  λ w h. ground arith,
  (λ h. ground arith, λ h. ground arith),
)

-- If a write request of fewer than 2 ^ 16 bytes is accepted, then the event for it, once the data
-- mover has confirmed the one write, moves the SAR table's pointer to where the application table's
-- pointer was moved.
pub pointers_agree :
    (r : Regs) (i : Ins) (e : Event) (q : TxAppToTxAppTableReq) (status : Status.Regs)
    (ins : Status.Ins)
    → r.fsm_state ≡ read_meta
    → r.trans_data_req.length < 2 ^ 16
    → (tx_app_data_handler r i).1.event_out ≡ some e
    → (tx_app_data_handler r i).1.table_req ≡ some q
    → status ≡ record { fsm_status = read_status_1; cur_event = e }
    → ins ≡ record { double_access_flag = false ∷ []; write_status = true ∷ []; event_cache = [] }
    → (tx_app_rsp_handler status ins).1.tx_sar_upd
      ≡ some (record { session_id = q.session_id; app_written = q.app_written_ideal })
unfolding tx_app_data_handler tx_app_rsp_handler
pointers_agree r i e q status ins f l p x y z = ground arith

-- A write request of 2 ^ 16 bytes that is accepted moves the application table's pointer by all of
-- them, but the event and the answer count 0 bytes: the SAR table's pointer stays where the
-- application's was.
pub length_cut :
    (r : Regs) (i : Ins) (s : SessionState) (a : TxAppTableToTxAppRsp) (ss : List SessionState)
    (answers : List TxAppTableToTxAppRsp)
    → r.fsm_state ≡ read_meta
    → r.trans_data_lock ≡ true
    → i.sttable_lup_rsp ≡ s ∷ ss
    → i.table_rsp ≡ a ∷ answers
    → r.trans_data_req.length ≡ 2 ^ 16
    → a.app_written_ideal < buffer_size
    → let o = (tx_app_data_handler r i).1 in
      ((e : Event)
        → o.event_out ≡ some e
        → (e.buf_addr + e.length) % buffer_size ≡ a.app_written_ideal)
      × ((q : TxAppToTxAppTableReq)
          → o.table_req ≡ some q
          → q.app_written_ideal ≡ (a.app_written_ideal + 2 ^ 16) % buffer_size)
unfolding tx_app_data_handler
length_cut r i s a ss answers f l p q n y = (λ e h. ground arith, λ w h. ground arith)
