-- ===== src/RxEngine/Dropper.antt =====
-- `RxEngTcpPayloadDropper` of hls/toe/rx_engine/rx_engine.cpp (without TCP_RX_DDR_BYPASS): forwards
-- the words of a payload or drops them, by three decisions made elsewhere.
pub mod Packets
use tcp_offload_engine_shell.Prelude.{
  ℕ, Bool, true, false, Option, none, some, List, ◌∷◌, if◌then◌else◌, read,
}
use tcp_offload_engine_shell.Words.{NetAxisWord}

pub data FsmState : Type 0 where
  verify_checksum meta_handler fsm_drop fwd drop : FsmState

pub record Regs : Type 0 where
  pub fsm_state : FsmState
  pub role_id : ℕ

pub record Ins : Type 0 where
  pub payload : List NetAxisWord
  pub by_checksum : List Bool
  pub by_port_or_session : List Bool
  pub tdest : List ℕ
  pub by_rx_fsm : List Bool

step_by : FsmState → Regs → Ins → Regs × Option NetAxisWord × Ins
step_by FsmState.verify_checksum r i = elim (read i.by_checksum) [
  | some (d, rest) ↦ (
    record r { fsm_state = if d then FsmState.drop else FsmState.meta_handler },
    none,
    record i { by_checksum = rest },
  )
  | none ↦ (r, none, i)
]
step_by FsmState.meta_handler r i = elim (read i.by_port_or_session) [
  | some (d, rest) ↦ elim (read i.tdest) [
    | some (role, rest') ↦ (
      record { fsm_state = if d then FsmState.drop else FsmState.fsm_drop; role_id = role },
      none,
      record i { by_port_or_session = rest; tdest = rest' },
    )
    | none ↦ (r, none, i)
  ]
  | none ↦ (r, none, i)
]
step_by FsmState.fsm_drop r i = elim (read i.by_rx_fsm) [
  | some (d, rest) ↦ (
    record r { fsm_state = if d then FsmState.drop else FsmState.fwd },
    none,
    record i { by_rx_fsm = rest },
  )
  | none ↦ (r, none, i)
]
step_by FsmState.fwd r i = elim (read i.payload) [
  | some (w, rest) ↦ (
    record r { fsm_state = if w.last then FsmState.verify_checksum else FsmState.fwd },
    some (record w { dest = r.role_id }),
    record i { payload = rest },
  )
  | none ↦ (r, none, i)
]
step_by FsmState.drop r i = elim (read i.payload) [
  | some (w, rest) ↦ (
    record r { fsm_state = if w.last then FsmState.verify_checksum else FsmState.drop },
    none,
    record i { payload = rest },
  )
  | none ↦ (r, none, i)
]

-- One call of `RxEngTcpPayloadDropper`.
unfoldable pub tcp_payload_dropper : Regs → Ins → Regs × Option NetAxisWord × Ins
unfolding step_by
tcp_payload_dropper r i = step_by r.fsm_state r i
