-- ===== src/StateTable.antt =====
-- hls/toe/state_table/state_table.cpp: the connection state of each session, with one read lock for
-- the rx engine and one for the tx app interface.
pub mod Lock
pub mod Requests
use tcp_offload_engine_shell.Prelude.{
  ℕ, Bool, true, false, not, ◌&&◌, ◌||◌, Option, none, some, List, [], ◌∷◌, ◌==◌, if◌then◌else◌,
  read, read_if, update,
}
use tcp_offload_engine_shell.Conn.Tables.{SessionState, StateTableReq, closed, same_state}

-- The static variables of `state_table`. `*_rw_locked` and `timer_release_locked` mean that a
-- request waits; `*_session_id_locked` that the session is locked since the last read.
pub record Regs : Type 0 where
  pub state_table : ℕ → SessionState
  pub tx_app_rw_req_session_id : ℕ
  pub rx_eng_rw_req_session_id : ℕ
  pub rx_eng_rw_req_session_id_locked : Bool
  pub tx_app_rw_req_session_id_locked : Bool
  pub tx_app_rw_req : StateTableReq
  pub rx_eng_rw_req : StateTableReq
  pub tx_app_rw_locked : Bool
  pub rx_eng_rw_locked : Bool
  pub timer_release_req_session_id : ℕ
  pub timer_release_locked : Bool

pub record Ins : Type 0 where
  pub timer_release : List ℕ
  pub rx_eng_req : List StateTableReq
  pub tx_app_lup_req : List ℕ
  pub tx_app_req : List StateTableReq

-- What one call writes: at most one item to each output stream.
pub record Outs : Type 0 where
  pub rx_eng_rsp : Option SessionState
  pub tx_app_lup_rsp : Option SessionState
  pub tx_app_rsp : Option SessionState
  pub slookup_release : Option ℕ

abbrev pub nothing : Outs
nothing = record {
  rx_eng_rsp = none;
  tx_app_lup_rsp = none;
  tx_app_rsp = none;
  slookup_release = none;
}

-- The two lock tests.
abbrev pub rx_locks : Regs → ℕ → Bool
rx_locks r id = (id == r.rx_eng_rw_req_session_id) && r.rx_eng_rw_req_session_id_locked

abbrev pub tx_locks : Regs → ℕ → Bool
tx_locks r id = (id == r.tx_app_rw_req_session_id) && r.tx_app_rw_req_session_id_locked

-- A request of the tx app that is not blocked: the same lines for a new request and a waiting one.
serve_tx_app : Regs → Regs × Outs
serve_tx_app r =
    let q = r.tx_app_rw_req in
    if q.write
    then (
      record r {
        state_table = update r.state_table q.session_id q.state;
        tx_app_rw_req_session_id_locked = false;
      },
      nothing,
    )
    else (
      record r { tx_app_rw_req_session_id = q.session_id; tx_app_rw_req_session_id_locked = true },
      record nothing { tx_app_rsp = some (r.state_table q.session_id) },
    )

-- A request of the rx engine that is not blocked. A write of CLOSED also releases the session.
serve_rx_eng : Regs → Regs × Outs
serve_rx_eng r =
    let q = r.rx_eng_rw_req in
    if q.write
    then (
      record r {
        state_table = update r.state_table q.session_id q.state;
        rx_eng_rw_req_session_id_locked = false;
      },
      record nothing {
        slookup_release = if same_state q.state closed then some q.session_id else none;
      },
    )
    else (
      record r { rx_eng_rw_req_session_id = q.session_id; rx_eng_rw_req_session_id_locked = true },
      record nothing { rx_eng_rsp = some (r.state_table q.session_id) },
    )

serve_timer : Regs → Regs × Outs
serve_timer r = (
  record r { state_table = update r.state_table r.timer_release_req_session_id closed },
  record nothing { slookup_release = some r.timer_release_req_session_id },
)

-- The last three branches: the requests that wait, looked at only when no new request is taken.
retry : Regs → Regs × Outs
unfolding serve_tx_app serve_rx_eng serve_timer
retry r =
    if r.tx_app_rw_locked
    then if not (rx_locks r r.tx_app_rw_req.session_id)
      then serve_tx_app (record r { tx_app_rw_locked = false })
      else (r, nothing)
    else if r.rx_eng_rw_locked
    then if not (tx_locks r r.rx_eng_rw_req.session_id)
      then serve_rx_eng (record r { rx_eng_rw_locked = false })
      else (r, nothing)
    else if r.timer_release_locked
    then if not (rx_locks r r.timer_release_req_session_id)
        && not (tx_locks r r.timer_release_req_session_id)
      then serve_timer (record r { timer_release_locked = false })
      else (r, nothing)
    else (r, nothing)

-- A new request: it is kept in its register, and waits if the other side has locked the session.
accept_tx_app : Regs → StateTableReq → Regs × Outs
unfolding serve_tx_app
accept_tx_app r q =
    let r' = record r { tx_app_rw_req = q } in
    if rx_locks r' q.session_id
    then (record r' { tx_app_rw_locked = true }, nothing)
    else serve_tx_app r'

accept_rx_eng : Regs → StateTableReq → Regs × Outs
unfolding serve_rx_eng
accept_rx_eng r q =
    let r' = record r { rx_eng_rw_req = q } in
    if tx_locks r' q.session_id
    then (record r' { rx_eng_rw_locked = true }, nothing)
    else serve_rx_eng r'

accept_timer : Regs → ℕ → Regs × Outs
unfolding serve_timer
accept_timer r id =
    let r' = record r { timer_release_req_session_id = id } in
    if rx_locks r' id || tx_locks r' id
    then (record r' { timer_release_locked = true }, nothing)
    else serve_timer r'

-- One call of `state_table`: what it leaves in the static variables and in the input streams, and
-- what it writes.
unfoldable pub state_table : Regs → Ins → Regs × Outs × Ins
unfolding accept_tx_app accept_rx_eng accept_timer retry
state_table r i = elim (read_if (not r.tx_app_rw_locked) i.tx_app_req) [
  | some (q, rest) ↦ let (r', o) = accept_tx_app r q in (r', o, record i { tx_app_req = rest })
  | none ↦ elim (read i.tx_app_lup_req) [
    | some (id, rest) ↦ (
      r,
      record nothing { tx_app_lup_rsp = some (r.state_table id) },
      record i { tx_app_lup_req = rest },
    )
    | none ↦ elim (read_if (not r.rx_eng_rw_locked) i.rx_eng_req) [
      | some (q, rest) ↦ let (r', o) = accept_rx_eng r q in (r', o, record i { rx_eng_req = rest })
      | none ↦ elim (read_if (not r.timer_release_locked) i.timer_release) [
        | some (id, rest) ↦
            let (r', o) = accept_timer r id in (r', o, record i { timer_release = rest })
        | none ↦ let (r', o) = retry r in (r', o, i)
      ]
    ]
  ]
]
