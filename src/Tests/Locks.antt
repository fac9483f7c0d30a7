-- ===== src/Tests/Locks.antt =====
-- The state table of hls/toe/state_table on concrete requests.
use tcp_offload_engine_shell.Prelude.{
  ℕ, ◌≡◌, ◌==◌, refl, true, false, [], ◌∷◌, if◌then◌else◌, arith,
}
use tcp_offload_engine_shell.Conn.Tables.{
  StateTableReq, closed, established, syn_sent, last_ack, state_read, state_write,
}
use tcp_offload_engine_shell.StateTable.{Regs, Ins, state_table}
use tcp_offload_engine_shell.StateTable.Lock.{run, rx_read_is_stable, OneLock, run-OneLock}
use tcp_offload_engine_shell.StateTable.Requests.{idle}

-- Session 3 is open, the others are closed; nothing is locked.
abbrev start : Regs
start = record {
  state_table = λ id. if id == 3 then established else closed;
  tx_app_rw_req_session_id = 0;
  rx_eng_rw_req_session_id = 0;
  rx_eng_rw_req_session_id_locked = false;
  tx_app_rw_req_session_id_locked = false;
  tx_app_rw_req = state_read 0;
  rx_eng_rw_req = state_read 0;
  tx_app_rw_locked = false;
  rx_eng_rw_locked = false;
  timer_release_req_session_id = 0;
  timer_release_locked = false;
}

abbrev rx_asks : StateTableReq → Ins
rx_asks q = record { timer_release = []; rx_eng_req = q ∷ []; tx_app_lup_req = []; tx_app_req = [] }

abbrev tx_asks : StateTableReq → Ins
tx_asks q = record { timer_release = []; rx_eng_req = []; tx_app_lup_req = []; tx_app_req = q ∷ [] }

abbrev timer_asks : ℕ → Ins
timer_asks id = record {
  timer_release = id ∷ [];
  rx_eng_req = [];
  tx_app_lup_req = [];
  tx_app_req = [];
}

-- The rx engine has read session 3, and the tx app's write waits.
abbrev waiting : Regs
waiting = run start (rx_asks (state_read 3) ∷ tx_asks (state_write 3 syn_sent) ∷ [])

-- A write of the tx app and a time-out come while the rx engine holds session 3.
rx_read_is_stable_example :
    (run
        (state_table start (rx_asks (state_read 3))).0
        (tx_asks (state_write 3 syn_sent) ∷ timer_asks 3 ∷ [])).state_table
      3
    ≡ established
unfolding run state_table
rx_read_is_stable_example =
    rx_read_is_stable start (rx_asks (state_read 3))
      (tx_asks (state_write 3 syn_sent) ∷ timer_asks 3 ∷ []) refl (refl, (refl, refl))

start-OneLock : OneLock start
start-OneLock id = ground arith

run-OneLock_example :
    OneLock
      (run start (rx_asks (state_read 3) ∷ tx_asks (state_read 3) ∷ tx_asks (state_read 4) ∷ []))
run-OneLock_example =
    run-OneLock start
      (rx_asks (state_read 3) ∷ tx_asks (state_read 3) ∷ tx_asks (state_read 4) ∷ []) start-OneLock

waits : (state_table waiting idle).0.tx_app_rw_locked ≡ true
unfolding run state_table
waits = refl

-- The rx engine writes; then the write of the tx app is done.
abbrev freed : Regs
freed = run waiting (rx_asks (state_write 3 last_ack) ∷ [])
