-- ===== src/StateTable/Requests.antt =====
-- The requests to the state table: what becomes of one that waits, and which sessions are released.
use tcp_offload_engine_shell.Prelude.{
  ℕ, ◌≡◌, ◌≢◌, ◌⊎◌, true, false, Option, some, [], arith, if◌then◌else◌, update,
}
use tcp_offload_engine_shell.Conn.Tables.{SessionState, StateTableReq, closed}
use tcp_offload_engine_shell.StateTable.{Regs, Ins, rx_locks, state_table}

-- The session lookup is told to release a session only when its state has become CLOSED.
pub release_is_closed :
    (r : Regs) (i : Ins) {id : ℕ}
    → (state_table r i).1.slookup_release ≡ some id
    → (state_table r i).0.state_table id ≡ closed
unfolding state_table
release_is_closed r i h = ground arith

-- If a session is not CLOSED and a call closes it, then the session lookup is told in the same call
-- to release it, unless the register of the tx app's request holds a write of CLOSED to that
-- session.
pub closed_is_released :
    (r : Regs) (i : Ins) (id : ℕ)
    → r.state_table id ≢ closed
    → (state_table r i).0.state_table id ≡ closed
    → ((state_table r i).1.slookup_release ≡ some id)
      ⊎ ((state_table r i).0.tx_app_rw_req
          ≡ record { session_id = id; state = closed; write = true })
unfolding state_table
closed_is_released r i id h k = ground arith

-- The request is answered, if it is a read, or written to the table.
abbrev pub IsServed : StateTableReq → Regs → Regs → Option SessionState → Type 0
IsServed q r r' rsp =
    if q.write
    then r'.state_table ≡ update r.state_table q.session_id q.state
    else (rsp ≡ some (r.state_table q.session_id)) × (r'.state_table ≡ r.state_table)

-- A waiting request of the tx app is not forgotten: a call keeps it as it is, and it goes on
-- waiting or is served, the latter only if the rx engine has not locked its session.
pub tx_app_wait :
    (r : Regs) (i : Ins)
    → r.tx_app_rw_locked ≡ true
    → ((state_table r i).0.tx_app_rw_req ≡ r.tx_app_rw_req)
      × (((state_table r i).0.tx_app_rw_locked ≡ true)
          ⊎ ((rx_locks r r.tx_app_rw_req.session_id ≡ false)
              × (IsServed r.tx_app_rw_req r (state_table r i).0 (state_table r i).1.tx_app_rsp)))
unfolding state_table
tx_app_wait r i h = ground arith

-- No new request.
abbrev pub idle : Ins
idle = record { timer_release = []; rx_eng_req = []; tx_app_lup_req = []; tx_app_req = [] }

-- A waiting request of the tx app whose session the rx engine has not locked is served by a call
-- with no new request.
pub tx_app_progress :
    (r : Regs)
    → r.tx_app_rw_locked ≡ true
    → rx_locks r r.tx_app_rw_req.session_id ≡ false
    → ((state_table r idle).0.tx_app_rw_locked ≡ false)
      × IsServed r.tx_app_rw_req r (state_table r idle).0 (state_table r idle).1.tx_app_rsp
unfolding state_table
tx_app_progress r h k = ground arith
