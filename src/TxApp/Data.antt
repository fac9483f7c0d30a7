-- ===== src/TxApp/Data.antt =====
-- `TxAppDataHandler` of hls/toe/tx_app_intf/tx_app_intf.cpp: an application's request to write is
-- checked against its session's state and the free part of the buffer, then its data is passed to
-- memory.
pub mod Space
use tcp_offload_engine_shell.Prelude.{
  ℕ, ◌+◌, ◌-◌, ◌*◌, ◌%◌, ◌^◌, Bool, true, false, not, ◌&&◌, Option, none, some, List, ◌∷◌, ltb,
  if◌then◌else◌, read, read_if,
}
use tcp_offload_engine_shell.Conn.Tables.{SessionState, established, same_state, buffer_size}
use tcp_offload_engine_shell.Conn.Messages.{Event, EventType, MemBufferRwCmd, mem_buffer_rw_cmd}
use tcp_offload_engine_shell.RxEngine.Segment.{get_session_mem_addr}
use tcp_offload_engine_shell.Words.{NetAxisWord}
use tcp_offload_engine_shell.TxApp.Table.{
  TxAppToTxAppTableReq, TxAppTableToTxAppRsp, table_read, table_write,
}

-- The length, of 18 bits, is the field `data` of the code.
pub record AppTransDataReq : Type 0 where
  pub length : ℕ
  pub id : ℕ
  pub dest : ℕ

pub data TxAppTransDataError : Type 0 where
  no_error error_noconnection error_nospace error_window : TxAppTransDataError

pub record AppTransDataRsp : Type 0 where
  pub error : TxAppTransDataError
  pub remaining_space : ℕ
  pub length : ℕ
  pub dest : ℕ

pub data FsmState : Type 0 where
  read_request read_meta read_data : FsmState

pub record Regs : Type 0 where
  pub fsm_state : FsmState
  pub trans_data_lock : Bool
  pub trans_data_req : AppTransDataReq
  pub tx_app_table_rsp : TxAppTableToTxAppRsp
  pub max_write_length : ℕ

pub record Ins : Type 0 where
  pub trans_data_req : List AppTransDataReq
  pub sttable_lup_rsp : List SessionState
  pub table_rsp : List TxAppTableToTxAppRsp
  pub trans_data : List NetAxisWord

-- What one call writes.
pub record Outs : Type 0 where
  pub sttable_lup_req : Option ℕ
  pub table_req : Option TxAppToTxAppTableReq
  pub trans_data_rsp : Option AppTransDataRsp
  pub event_out : Option Event
  pub mover_cmd : Option MemBufferRwCmd
  pub mover_data : Option NetAxisWord

abbrev pub nothing : Outs
nothing = record {
  sttable_lup_req = none;
  table_req = none;
  trans_data_rsp = none;
  event_out = none;
  mover_cmd = none;
  mover_data = none;
}

-- `(ackd - app_written_ideal) - 1` in 18 bits.
abbrev pub max_write_length : TxAppTableToTxAppRsp → ℕ
max_write_length a = (a.ackd + 2 * buffer_size - a.app_written_ideal - 1) % buffer_size

-- `data.length` of an answer, `length` of an event and of a command have 16 bits.
abbrev pub trans_data_rsp : Regs → TxAppTransDataError → ℕ → AppTransDataRsp
trans_data_rsp r e space = record {
  error = e;
  remaining_space = space;
  length = r.trans_data_req.length % 2 ^ 16;
  dest = r.trans_data_req.dest;
}

-- `case READ_META`, with the session's state and the table's entry.
check_request : Regs → SessionState → TxAppTableToTxAppRsp → Regs × Outs
check_request r s a =
    let q = r.trans_data_req in
    let space = max_write_length a in
    let r' = record r { tx_app_table_rsp = a; max_write_length = space } in
    let over = record r' { fsm_state = FsmState.read_request; trans_data_lock = false } in
    if not (same_state s established)
    then (
      over,
      record nothing {
        trans_data_rsp = some (trans_data_rsp r TxAppTransDataError.error_noconnection space);
      },
    )
    else if ltb space q.length
    then (
      over,
      record nothing {
        trans_data_rsp = some (trans_data_rsp r TxAppTransDataError.error_nospace space);
      },
    )
    else (
      record r' { fsm_state = FsmState.read_data },
      record nothing {
        mover_cmd = some (
            mem_buffer_rw_cmd (2 ^ 31 + get_session_mem_addr q.id a.app_written_ideal)
              (q.length % 2 ^ 16));
        trans_data_rsp = some (trans_data_rsp r TxAppTransDataError.no_error space);
        event_out = some (record {
          kind = EventType.tx;
          session_id = q.id;
          buf_addr = a.app_written_ideal;
          length = q.length % 2 ^ 16;
          retrans_cnt = 0;
        });
        table_req = some (table_write q.id (a.app_written_ideal + q.length));
      },
    )

step_by : FsmState → Regs → Ins → Regs × Outs × Ins
unfolding check_request
step_by FsmState.read_request r i = elim (read_if (not r.trans_data_lock) i.trans_data_req) [
  | some (q, rest) ↦ (
    record r { fsm_state = FsmState.read_meta; trans_data_lock = true; trans_data_req = q },
    record nothing { sttable_lup_req = some q.id; table_req = some (table_read q.id) },
    record i { trans_data_req = rest },
  )
  | none ↦ (r, nothing, i)
]
step_by FsmState.read_meta r i = elim (read_if r.trans_data_lock i.sttable_lup_rsp) [
  | some (s, ss) ↦ elim (read i.table_rsp) [
    | some (a, as') ↦
        let (r', o) = check_request r s a in
        (r', o, record i { sttable_lup_rsp = ss; table_rsp = as' })
    | none ↦ (r, nothing, i)
  ]
  | none ↦ (r, nothing, i)
]
step_by FsmState.read_data r i = elim (read_if r.trans_data_lock i.trans_data) [
  | some (w, rest) ↦ (
    if w.last then record r { fsm_state = FsmState.read_request; trans_data_lock = false } else r,
    record nothing { mover_data = some w },
    record i { trans_data = rest },
  )
  | none ↦ (r, nothing, i)
]

-- One call of `TxAppDataHandler`.
unfoldable pub tx_app_data_handler : Regs → Ins → Regs × Outs × Ins
unfolding step_by
tx_app_data_handler r i = step_by r.fsm_state r i
