-- ===== src/RxApp/Requests.antt =====
-- `RxAppPortHandler` and `NetAppNotificationTdestHandler` of hls/toe/rx_app_intf/rx_app_intf.cpp.
use tcp_offload_engine_shell.Prelude.{
  ℕ, Bool, true, false, not, Option, none, some, List, read, read_if,
}
use tcp_offload_engine_shell.Conn.Tables.{ListenPortReq, ListenPortRsp}
use tcp_offload_engine_shell.Conn.Messages.{AppNotification}

pub data PortFsmState : Type 0 where
  wait_net wait_ptable : PortFsmState

pub record PortIns : Type 0 where
  pub listen_port_req : List ListenPortReq
  pub listen_port_rsp : List ListenPortRsp

pub record PortOuts : Type 0 where
  pub to_ptable : Option ListenPortReq
  pub to_net_app : Option ListenPortRsp

-- One call of `RxAppPortHandler`: in lock step, a request and its answer.
unfoldable pub rx_app_port_handler : PortFsmState → PortIns → PortFsmState × PortOuts × PortIns
rx_app_port_handler PortFsmState.wait_net i = elim (read i.listen_port_req) [
  | some (q, rest) ↦ (
    PortFsmState.wait_ptable,
    record { to_ptable = some q; to_net_app = none },
    record i { listen_port_req = rest },
  )
  | none ↦ (PortFsmState.wait_net, record { to_ptable = none; to_net_app = none }, i)
]
rx_app_port_handler PortFsmState.wait_ptable i = elim (read i.listen_port_rsp) [
  | some (a, rest) ↦ (
    PortFsmState.wait_net,
    record { to_ptable = none; to_net_app = some a },
    record i { listen_port_rsp = rest },
  )
  | none ↦ (PortFsmState.wait_ptable, record { to_ptable = none; to_net_app = none }, i)
]

pub record TdestRegs : Type 0 where
  pub tdest_req_lock : Bool
  pub notify_reg : AppNotification

pub record TdestIns : Type 0 where
  pub app_notification_no_tdest : List AppNotification
  pub tdest_lookup_rsp : List ℕ

-- The notification goes out with the role that listens to the session.
pub record TdestOuts : Type 0 where
  pub tdest_lookup_req : Option ℕ
  pub net_app_notification : Option (AppNotification × ℕ)

-- One call of `NetAppNotificationTdestHandler`.
unfoldable pub net_app_notification_tdest_handler :
    TdestRegs → TdestIns → TdestRegs × TdestOuts × TdestIns
net_app_notification_tdest_handler r i =
    elim (read_if (not r.tdest_req_lock) i.app_notification_no_tdest) [
      | some (n, rest) ↦ (
        record { tdest_req_lock = true; notify_reg = n },
        record { tdest_lookup_req = some n.session_id; net_app_notification = none },
        record i { app_notification_no_tdest = rest },
      )
      | none ↦ elim (read_if r.tdest_req_lock i.tdest_lookup_rsp) [
        | some (role, rest) ↦ (
          record r { tdest_req_lock = false },
          record { tdest_lookup_req = none; net_app_notification = some (r.notify_reg, role) },
          record i { tdest_lookup_rsp = rest },
        )
        | none ↦ (r, record { tdest_lookup_req = none; net_app_notification = none }, i)
      ]
    ]
