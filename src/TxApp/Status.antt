-- ===== src/TxApp/Status.antt =====
-- `TxAppEventMerger` and `TxAppRspHandler` of hls/toe/tx_app_intf/tx_app_intf.cpp: a TX event goes
-- to the event engine only when its data is in memory.
use tcp_offload_engine_shell.Prelude.{◌+◌, ◌%◌, Bool, Option, none, some, List, if◌then◌else◌, read}
use tcp_offload_engine_shell.Conn.Tables.{TxAppToTxSarReq, buffer_size}
use tcp_offload_engine_shell.Conn.Messages.{Event, EventType, same_event}

-- The event passed on and the rest of the two streams.
unfoldable pub tx_app_event_merger :
    List Event → List Event → Option Event × List Event × List Event
tx_app_event_merger conn data' = elim (read conn) [
  | some (e, rest) ↦ (some e, rest, data')
  | none ↦ elim (read data') [ some (e, rest) ↦ (some e, conn, rest) | none ↦ (none, conn, data') ]
]

pub data FsmState : Type 0 where
  read_ev read_status_1 read_status_2 : FsmState

pub record Regs : Type 0 where
  pub fsm_status : FsmState
  pub cur_event : Event

-- A status of the data mover is its bit `okay`.
pub record Ins : Type 0 where
  pub double_access_flag : List Bool
  pub write_status : List Bool
  pub event_cache : List Event

pub record Outs : Type 0 where
  pub event_out : Option Event
  pub tx_sar_upd : Option TxAppToTxSarReq

abbrev pub nothing : Outs
nothing = record { event_out = none; tx_sar_upd = none }

-- The written pointer moves behind the data, and the event goes out.
abbrev pub confirm : Event → Outs
confirm e = record {
  event_out = some e;
  tx_sar_upd =
      some
        (record { session_id = e.session_id; app_written = (e.buf_addr + e.length) % buffer_size });
}

step_by : FsmState → Regs → Ins → Regs × Outs × Ins
step_by FsmState.read_ev r i = elim (read i.event_cache) [
  | some (e, rest) ↦
      if same_event e.kind EventType.tx
      then (
        record { fsm_status = FsmState.read_status_1; cur_event = e },
        nothing,
        record i { event_cache = rest },
      )
      else (
        record r { cur_event = e },
        record nothing { event_out = some e },
        record i { event_cache = rest },
      )
  | none ↦ (r, nothing, i)
]
step_by FsmState.read_status_1 r i = elim (read i.double_access_flag) [
  | some (double, flags) ↦ elim (read i.write_status) [
    | some (okay, rest) ↦ (
      record r {
        fsm_status =
            if okay
            then if double then FsmState.read_status_2 else FsmState.read_ev
            else FsmState.read_ev;
      },
      if okay then if double then nothing else confirm r.cur_event else nothing,
      record i { double_access_flag = flags; write_status = rest },
    )
    | none ↦ (r, nothing, i)
  ]
  | none ↦ (r, nothing, i)
]
step_by FsmState.read_status_2 r i = elim (read i.write_status) [
  | some (okay, rest) ↦ (
    record r { fsm_status = FsmState.read_ev },
    if okay then confirm r.cur_event else nothing,
    record i { write_status = rest },
  )
  | none ↦ (r, nothing, i)
]

-- One call of `TxAppRspHandler`.
unfoldable pub tx_app_rsp_handler : Regs → Ins → Regs × Outs × Ins
unfolding step_by
tx_app_rsp_handler r i = step_by r.fsm_status r i
