-- ===== src/StateTable/Lock.antt =====
-- The read locks of the state table: never two on one session, and a locked session keeps its state
-- until the side that holds the lock writes.
use tcp_offload_engine_shell.Prelude.{
  ℕ, ◌≡◌, refl, ◌∙◌, true, false, ◌&&◌, some, List, [], ◌∷◌, arith,
}
use tcp_offload_engine_shell.Conn.Tables.{SessionState}
use tcp_offload_engine_shell.StateTable.{Regs, Ins, rx_locks, tx_locks, state_table}

-- No session is locked by both sides.
abbrev pub OneLock : Regs → Type 0
OneLock r = (id : ℕ) → rx_locks r id && tx_locks r id ≡ false

pub state_table-OneLock : (r : Regs) (i : Ins) → OneLock r → OneLock (state_table r i).0
unfolding state_table
state_table-OneLock r i h id = ground (arith, h id)

-- The static variables after a sequence of calls, each with its own input streams.
unfoldable pub run : Regs → List Ins → Regs
run r [] = r
run r (i ∷ is) = run (state_table r i).0 is

-- No sequence of calls, from variables where no session is locked by both sides, leads to a session
-- that both have locked.
pub run-OneLock : (r : Regs) (is : List Ins) → OneLock r → OneLock (run r is)
unfolding run
run-OneLock r [] h = h
run-OneLock r (i ∷ is) h = run-OneLock (state_table r i).0 is (state_table-OneLock r i h)

-- The rx engine holds the lock on `id` now and after each call of the sequence.
abbrev pub RxHolds : ℕ → Regs → List Ins → Type 0
RxHolds id r [] = rx_locks r id ≡ true
RxHolds id r (i ∷ is) = (rx_locks r id ≡ true) × RxHolds id (state_table r i).0 is

-- The same for the tx app.
abbrev pub TxHolds : ℕ → Regs → List Ins → Type 0
TxHolds id r [] = tx_locks r id ≡ true
TxHolds id r (i ∷ is) = (tx_locks r id ≡ true) × TxHolds id (state_table r i).0 is

-- Under the lock a session's state changes only in a call that gives the lock up.
rx_locks-state_table :
    (r : Regs) (i : Ins) (id : ℕ)
    → rx_locks r id ≡ true
    → rx_locks (state_table r i).0 id ≡ true
    → (state_table r i).0.state_table id ≡ r.state_table id
unfolding state_table
rx_locks-state_table r i id h k = ground arith

tx_locks-state_table :
    (r : Regs) (i : Ins) (id : ℕ)
    → tx_locks r id ≡ true
    → tx_locks (state_table r i).0 id ≡ true
    → (state_table r i).0.state_table id ≡ r.state_table id
unfolding state_table
tx_locks-state_table r i id h k = ground arith

RxHolds-now : (id : ℕ) (r : Regs) (is : List Ins) → RxHolds id r is → rx_locks r id ≡ true
RxHolds-now id r [] h = h
RxHolds-now id r (i ∷ is) h = h.0

TxHolds-now : (id : ℕ) (r : Regs) (is : List Ins) → TxHolds id r is → tx_locks r id ≡ true
TxHolds-now id r [] h = h
TxHolds-now id r (i ∷ is) h = h.0

RxHolds-run :
    (id : ℕ) (r : Regs) (is : List Ins)
    → RxHolds id r is
    → (run r is).state_table id ≡ r.state_table id
unfolding run
RxHolds-run id r [] h = refl
RxHolds-run id r (i ∷ is) h =
    RxHolds-run id (state_table r i).0 is h.1
    ∙ rx_locks-state_table r i id h.0 (RxHolds-now id (state_table r i).0 is h.1)

TxHolds-run :
    (id : ℕ) (r : Regs) (is : List Ins)
    → TxHolds id r is
    → (run r is).state_table id ≡ r.state_table id
unfolding run
TxHolds-run id r [] h = refl
TxHolds-run id r (i ∷ is) h =
    TxHolds-run id (state_table r i).0 is h.1
    ∙ tx_locks-state_table r i id h.0 (TxHolds-now id (state_table r i).0 is h.1)

rx_eng_rsp_lem :
    (r : Regs) (i : Ins) {v : SessionState}
    → (state_table r i).1.rx_eng_rsp ≡ some v
    → (state_table r i).0.state_table (state_table r i).0.rx_eng_rw_req_session_id ≡ v
unfolding state_table
rx_eng_rsp_lem r i h = ground arith

tx_app_rsp_lem :
    (r : Regs) (i : Ins) {v : SessionState}
    → (state_table r i).1.tx_app_rsp ≡ some v
    → (state_table r i).0.state_table (state_table r i).0.tx_app_rw_req_session_id ≡ v
unfolding state_table
tx_app_rsp_lem r i h = ground arith

-- If a call answers a read of the rx engine with a state, and the engine holds the lock that the
-- read took through any further calls, then the session still has that state after them.
pub rx_read_is_stable :
    (r : Regs) (i : Ins) (is : List Ins) {v : SessionState}
    → (state_table r i).1.rx_eng_rsp ≡ some v
    → RxHolds (state_table r i).0.rx_eng_rw_req_session_id (state_table r i).0 is
    → (run (state_table r i).0 is).state_table (state_table r i).0.rx_eng_rw_req_session_id ≡ v
rx_read_is_stable r i is h held = RxHolds-run _ (state_table r i).0 is held ∙ rx_eng_rsp_lem r i h

-- If a call answers a read of the tx app interface with a state, and that side holds the lock that
-- the read took through any further calls, then the session still has that state after them.
pub tx_read_is_stable :
    (r : Regs) (i : Ins) (is : List Ins) {v : SessionState}
    → (state_table r i).1.tx_app_rsp ≡ some v
    → TxHolds (state_table r i).0.tx_app_rw_req_session_id (state_table r i).0 is
    → (run (state_table r i).0 is).state_table (state_table r i).0.tx_app_rw_req_session_id ≡ v
tx_read_is_stable r i is h held = TxHolds-run _ (state_table r i).0 is held ∙ tx_app_rsp_lem r i h
