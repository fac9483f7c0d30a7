-- ===== src/TxApp/Table.antt =====
-- `TxAppTableInterface` of hls/toe/tx_app_intf/tx_app_intf.cpp: what of a session's send buffer is
-- acknowledged, and how far the application has been allowed to write.
use tcp_offload_engine_shell.Prelude.{
  ℕ, ◌+◌, ◌-◌, ◌%◌, Bool, true, false, Option, none, some, List, if◌then◌else◌, read, update,
}
use tcp_offload_engine_shell.Conn.Tables.{TxSarToTxAppReq, buffer_size}

pub record TxAppTableEntry : Type 0 where
  pub ackd : ℕ
  pub app_written_ideal : ℕ

pub record TxAppToTxAppTableReq : Type 0 where
  pub session_id : ℕ
  pub app_written_ideal : ℕ
  pub write : Bool

pub record TxAppTableToTxAppRsp : Type 0 where
  pub session_id : ℕ
  pub ackd : ℕ
  pub app_written_ideal : ℕ

-- The two constructors of a request.
abbrev pub table_read : ℕ → TxAppToTxAppTableReq
table_read id = record { session_id = id; app_written_ideal = 0; write = false }

abbrev pub table_write : ℕ → ℕ → TxAppToTxAppTableReq
table_write id w = record { session_id = id; app_written_ideal = w % buffer_size; write = true }

abbrev pub Table : Type 0
Table = ℕ → TxAppTableEntry

pub record Ins : Type 0 where
  pub tx_sar_upd : List TxSarToTxAppReq
  pub tx_app_req : List TxAppToTxAppTableReq

-- An update of the SAR table; the first one of a connection sets both pointers.
serve_tx_sar : Table → TxSarToTxAppReq → Table
serve_tx_sar t q =
    if q.init
    then update t q.session_id
        (record { ackd = (q.ackd + buffer_size - 1) % buffer_size; app_written_ideal = q.ackd })
    else update t q.session_id (record (t q.session_id) { ackd = q.ackd })

serve_tx_app : Table → TxAppToTxAppTableReq → Table × Option TxAppTableToTxAppRsp
serve_tx_app t q =
    let e = t q.session_id in
    if q.write
    then (update t q.session_id (record e { app_written_ideal = q.app_written_ideal }), none)
    else (
      t,
      some (record {
        session_id = q.session_id;
        ackd = e.ackd;
        app_written_ideal = e.app_written_ideal;
      }),
    )

-- One call of `TxAppTableInterface`.
unfoldable pub tx_app_table_interface : Table → Ins → Table × Option TxAppTableToTxAppRsp × Ins
unfolding serve_tx_sar serve_tx_app
tx_app_table_interface t i = elim (read i.tx_sar_upd) [
  | some (q, rest) ↦ (serve_tx_sar t q, none, record i { tx_sar_upd = rest })
  | none ↦ elim (read i.tx_app_req) [
    | some (q, rest) ↦ let (t', o) = serve_tx_app t q in (t', o, record i { tx_app_req = rest })
    | none ↦ (t, none, i)
  ]
]
