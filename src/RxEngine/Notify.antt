-- ===== src/RxEngine/Notify.antt =====
-- `RxEngNotificaionHandler` and `RxEngEventMerger` of hls/toe/rx_engine/rx_engine.cpp: the
-- application hears of data when the data mover has confirmed that it is in memory.
pub mod Statuses
use tcp_offload_engine_shell.Prelude.{◌==◌, Bool, Option, none, some, List, if◌then◌else◌, read}
use tcp_offload_engine_shell.Conn.Messages.{Event, EventWithTuple, AppNotification, with_no_tuple}

pub data FsmState : Type 0 where
  read_notify read_status_1 read_status_2 : FsmState

pub record Regs : Type 0 where
  pub fsm_state : FsmState
  pub app_notificaion_reg1 : AppNotification
  pub app_notificaion_reg2 : AppNotification

-- A status of the data mover is its bit `okay`.
pub record Ins : Type 0 where
  pub write_status : List Bool
  pub double_access_flag : List Bool
  pub notification_cache : List AppNotification

step_by : FsmState → Regs → Ins → Regs × Option AppNotification × Ins
step_by FsmState.read_notify r i = elim (read i.notification_cache) [
  | some (n, rest) ↦
      if n.length == 0
      then (record r { app_notificaion_reg1 = n }, some n, record i { notification_cache = rest })
      else (
        record r { app_notificaion_reg1 = n; fsm_state = FsmState.read_status_1 },
        none,
        record i { notification_cache = rest },
      )
  | none ↦ (r, none, i)
]
step_by FsmState.read_status_1 r i = elim (read i.double_access_flag) [
  | some (double, flags) ↦ elim (read i.write_status) [
    | some (okay, rest) ↦
        let i' = record i { double_access_flag = flags; write_status = rest } in
        if okay
        then if double
          then (
            record r {
              app_notificaion_reg2 = r.app_notificaion_reg1;
              fsm_state = FsmState.read_status_2;
            },
            none,
            i',
          )
          else (record r { fsm_state = FsmState.read_notify }, some r.app_notificaion_reg1, i')
        else (record r { fsm_state = FsmState.read_notify }, none, i')
    | none ↦ (r, none, i)
  ]
  | none ↦ (r, none, i)
]
step_by FsmState.read_status_2 r i = elim (read i.write_status) [
  | some (okay, rest) ↦ (
    record r { fsm_state = FsmState.read_notify },
    if okay then some r.app_notificaion_reg2 else none,
    record i { write_status = rest },
  )
  | none ↦ (r, none, i)
]

-- One call of `RxEngNotificaionHandler`.
unfoldable pub rx_eng_notification_handler : Regs → Ins → Regs × Option AppNotification × Ins
unfolding step_by
rx_eng_notification_handler r i = step_by r.fsm_state r i

-- The event passed on and the rest of the two streams.
unfoldable pub rx_eng_event_merger :
    List EventWithTuple → List Event → Option EventWithTuple × List EventWithTuple × List Event
rx_eng_event_merger in1 in2 = elim (read in1) [
  | some (e, rest) ↦ (some e, rest, in2)
  | none ↦ elim (read in2) [
    | some (e, rest) ↦ (some (with_no_tuple e), in1, rest)
    | none ↦ (none, in1, in2)
  ]
]
