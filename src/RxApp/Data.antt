-- ===== src/RxApp/Data.antt =====
-- `RxAppDataHandler` of hls/toe/rx_app_intf/rx_app_intf.cpp (without TCP_RX_DDR_BYPASS): an
-- application's read of received data moves the read pointer of the session and reads the memory.
pub mod Reads
use tcp_offload_engine_shell.Prelude.{
  ℕ, ◌+◌, ◌%◌, ◌==◌, Bool, true, false, Option, none, some, List, if◌then◌else◌, read,
}
use tcp_offload_engine_shell.Conn.Tables.{RxSarAppReqRsp, buffer_size}
use tcp_offload_engine_shell.Conn.Messages.{MemBufferRwCmd, mem_buffer_rw_cmd}
use tcp_offload_engine_shell.RxEngine.Segment.{get_session_mem_addr}
use tcp_offload_engine_shell.Words.{NetAxisWord}

-- The fields of `data` stand beside the role.
pub record AppReadReq : Type 0 where
  pub session_id : ℕ
  pub read_length : ℕ
  pub dest : ℕ

pub data FsmState : Type 0 where
  wait_net_app_data_req wait_sar_rsp wait_data : FsmState

pub record Regs : Type 0 where
  pub fsm_state : FsmState
  pub rx_app_read_length : ℕ
  pub rx_app_role_id : ℕ
  pub net_app_data_lock : Bool

pub record Ins : Type 0 where
  pub recv_data_req : List AppReadReq
  pub rx_sar_rsp : List RxSarAppReqRsp
  pub mem_data : List NetAxisWord

-- The answer to the application is the session and its role.
pub record Outs : Type 0 where
  pub recv_data_rsp : Option (ℕ × ℕ)
  pub rx_sar_req : Option RxSarAppReqRsp
  pub mem_read_cmd : Option MemBufferRwCmd
  pub recv_data : Option NetAxisWord

abbrev pub nothing : Outs
nothing = record { recv_data_rsp = none; rx_sar_req = none; mem_read_cmd = none; recv_data = none }

step_by : FsmState → Regs → Ins → Regs × Outs × Ins
step_by FsmState.wait_net_app_data_req r i = elim (read i.recv_data_req) [
  | some (q, rest) ↦
      if q.read_length == 0 then (r, nothing, record i { recv_data_req = rest }) else (
        record {
          fsm_state = FsmState.wait_sar_rsp;
          rx_app_read_length = q.read_length;
          rx_app_role_id = q.dest;
          net_app_data_lock = true;
        },
        record nothing {
          rx_sar_req = some (record { session_id = q.session_id; app_read = 0; write = false });
        },
        record i { recv_data_req = rest },
      )
  | none ↦ (r, nothing, i)
]
step_by FsmState.wait_sar_rsp r i = elim (read i.rx_sar_rsp) [
  | some (a, rest) ↦ (
    record r { fsm_state = FsmState.wait_data },
    record nothing {
      recv_data_rsp = some (a.session_id, r.rx_app_role_id);
      rx_sar_req = some (record {
        session_id = a.session_id;
        app_read = (a.app_read + r.rx_app_read_length) % buffer_size;
        write = true;
      });
      mem_read_cmd =
          some
            (mem_buffer_rw_cmd (get_session_mem_addr a.session_id a.app_read) r.rx_app_read_length);
    },
    record i { rx_sar_rsp = rest },
  )
  | none ↦ (r, nothing, i)
]
step_by FsmState.wait_data r i = elim (read i.mem_data) [
  | some (w, rest) ↦ (
    if w.last
        then record r { fsm_state = FsmState.wait_net_app_data_req; net_app_data_lock = false }
        else r,
    record nothing { recv_data = some (record w { dest = r.rx_app_role_id }) },
    record i { mem_data = rest },
  )
  | none ↦ (r, nothing, i)
]

-- One call of `RxAppDataHandler`.
unfoldable pub rx_app_data_handler : Regs → Ins → Regs × Outs × Ins
unfolding step_by
rx_app_data_handler r i = step_by r.fsm_state r i
