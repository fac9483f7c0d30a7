-- ===== src/TxApp/Conn.antt =====
-- `TxAppConnectionHandler` of hls/toe/tx_app_intf/tx_app_intf.cpp: opening a connection takes a
-- free port and a session, closing one goes through the state table.
pub mod Locks
use tcp_offload_engine_shell.Prelude.{
  ℕ, Bool, true, false, not, ◌||◌, Option, none, some, List, ◌∷◌, if◌then◌else◌, read, read_if,
}
use tcp_offload_engine_shell.Conn.Tables.{
  SessionState, StateTableReq, state_read, state_write, established, fin_wait_1, syn_sent,
  same_state, swap_byte16,
}
use tcp_offload_engine_shell.Conn.Messages.{
  Event, EventType, FourTuple, event, OpenConnRsp, NewClientNotification,
}
use tcp_offload_engine_shell.Conn.Sessions.{TxAppToSlookupReq, SessionLookupRsp}

pub record AppOpenConnReq : Type 0 where
  pub my_ip_addr : ℕ
  pub ip_addr : ℕ
  pub tcp_port : ℕ
  pub dest : ℕ

-- The session is the field `data` of the code.
pub record AppCloseConnReq : Type 0 where
  pub session_id : ℕ
  pub dest : ℕ

pub data FsmState : Type 0 where
  idle close_conn wait_for_tdest_active_open wait_for_tdest_passive_open : FsmState

pub record Regs : Type 0 where
  pub app_open_req : AppOpenConnReq
  pub tx_app_wait_for_free_port_lock : Bool
  pub fsm_state : FsmState
  pub passive_open_session : NewClientNotification
  pub open_session : OpenConnRsp
  pub app_close_session : AppCloseConnReq

pub record Ins : Type 0 where
  pub open_conn_req : List AppOpenConnReq
  pub close_conn_req : List AppCloseConnReq
  pub rx_eng_new_client : List NewClientNotification
  pub rx_eng_notification : List OpenConnRsp
  pub rtimer_notification : List OpenConnRsp
  pub slookup_rsp : List SessionLookupRsp
  pub tdest_rsp : List ℕ
  pub ptable_rsp : List ℕ
  pub sttable_rsp : List SessionState

-- What one call writes; the two answers to the application carry its role.
pub record Outs : Type 0 where
  pub open_conn_rsp : Option (OpenConnRsp × ℕ)
  pub new_client : Option (NewClientNotification × ℕ)
  pub slookup_req : Option TxAppToSlookupReq
  pub tdest_req : Option ℕ
  pub ptable_req : Option ℕ
  pub sttable_req : Option StateTableReq
  pub event_out : Option Event

abbrev pub nothing : Outs
nothing = record {
  open_conn_rsp = none;
  new_client = none;
  slookup_req = none;
  tdest_req = none;
  ptable_req = none;
  sttable_req = none;
  event_out = none;
}

-- The first half of a call: a request to open asks for a free port, and with the port for a
-- session.
unfoldable pub open_conn : Regs → Ins → Regs × Outs × Ins
open_conn r i = elim (read_if (not r.tx_app_wait_for_free_port_lock) i.open_conn_req) [
  | some (q, rest) ↦ (
    record r { app_open_req = q; tx_app_wait_for_free_port_lock = true },
    record nothing { ptable_req = some q.dest },
    record i { open_conn_req = rest },
  )
  | none ↦ elim (read_if r.tx_app_wait_for_free_port_lock i.ptable_rsp) [
    | some (port, rest) ↦
        let q = r.app_open_req in
        (
          record r { tx_app_wait_for_free_port_lock = false },
          record nothing {
            slookup_req = some (record {
              four_tuple = record {
                src_ip_addr = q.my_ip_addr;
                dst_ip_addr = q.ip_addr;
                src_tcp_port = swap_byte16 port;
                dst_tcp_port = q.tcp_port;
              };
              role_id = q.dest;
            });
          },
          record i { ptable_rsp = rest },
        )
    | none ↦ (r, nothing, i)
  ]
]

-- A new session is opened with a SYN, and its state is written without a read; without a session
-- the application is told so.
session_created : SessionLookupRsp → Outs → Outs
session_created a o =
    if a.hit
    then record o {
      event_out = some (event EventType.syn a.session_id);
      sttable_req = some (state_write a.session_id syn_sent);
    }
    else record o {
      open_conn_rsp = some (record { session_id = a.session_id; success = false }, a.role_id);
    }

-- "like close() in socket".
close_session : Regs → SessionState → Outs → Outs
close_session r s o =
    let id = r.app_close_session.session_id in
    if same_state s established || same_state s fin_wait_1
    then record o {
      sttable_req = some (state_write id fin_wait_1);
      event_out = some (event EventType.fin id);
    }
    else record o { sttable_req = some (state_write id s) }

-- `case IDLE`: the first stream that has an item.
idle_step : Regs → Outs → Ins → Regs × Outs × Ins
unfolding session_created
idle_step r o i = elim (read i.slookup_rsp) [
  | some (a, rest) ↦ (r, session_created a o, record i { slookup_rsp = rest })
  | none ↦ elim (read i.rx_eng_notification) [
    | some (n, rest) ↦ (
      record r { open_session = n; fsm_state = FsmState.wait_for_tdest_active_open },
      record o { tdest_req = some n.session_id },
      record i { rx_eng_notification = rest },
    )
    | none ↦ elim (read i.rtimer_notification) [
      | some (n, rest) ↦ (
        record r { open_session = n; fsm_state = FsmState.wait_for_tdest_active_open },
        record o { tdest_req = some n.session_id },
        record i { rtimer_notification = rest },
      )
      | none ↦ elim (read i.rx_eng_new_client) [
        | some (n, rest) ↦ (
          record r { passive_open_session = n; fsm_state = FsmState.wait_for_tdest_passive_open },
          record o { tdest_req = some n.session_id },
          record i { rx_eng_new_client = rest },
        )
        | none ↦ elim (read i.close_conn_req) [
          | some (q, rest) ↦ (
            record r { app_close_session = q; fsm_state = FsmState.close_conn },
            record o { sttable_req = some (state_read q.session_id) },
            record i { close_conn_req = rest },
          )
          | none ↦ (r, o, i)
        ]
      ]
    ]
  ]
]

step_by : FsmState → Regs → Outs → Ins → Regs × Outs × Ins
unfolding idle_step close_session
step_by FsmState.idle r o i = idle_step r o i
step_by FsmState.wait_for_tdest_active_open r o i = elim (read i.tdest_rsp) [
  | some (role, rest) ↦ (
    record r { fsm_state = FsmState.idle },
    record o { open_conn_rsp = some (r.open_session, role) },
    record i { tdest_rsp = rest },
  )
  | none ↦ (r, o, i)
]
step_by FsmState.wait_for_tdest_passive_open r o i = elim (read i.tdest_rsp) [
  | some (role, rest) ↦ (
    record r { fsm_state = FsmState.idle },
    record o { new_client = some (r.passive_open_session, role) },
    record i { tdest_rsp = rest },
  )
  | none ↦ (r, o, i)
]
step_by FsmState.close_conn r o i = elim (read i.sttable_rsp) [
  | some (s, rest) ↦
      (record r { fsm_state = FsmState.idle }, close_session r s o, record i { sttable_rsp = rest })
  | none ↦ (r, o, i)
]

-- One call of `TxAppConnectionHandler`: both halves, which share no stream.
unfoldable pub tx_app_connection_handler : Regs → Ins → Regs × Outs × Ins
unfolding step_by
tx_app_connection_handler r i = let (r', o, i') = open_conn r i in step_by r'.fsm_state r' o i'
