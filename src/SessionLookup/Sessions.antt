-- ===== src/SessionLookup/Sessions.antt =====
-- The table from session ids to connections: what is entered is found, and a session is given back
-- once.
use tcp_offload_engine_shell.Prelude.{ℕ, ◌≡◌, true, List, [], ◌∷◌, ◌++◌, arith, if◌then◌else◌, ◌==◌}
use tcp_offload_engine_shell.Conn.Tables.{swap_byte16}
use tcp_offload_engine_shell.Conn.Sessions.{SlookupToRevTableUpdReq, delete, rx}
use tcp_offload_engine_shell.SessionLookup.State.{State}
use tcp_offload_engine_shell.SessionLookup.Reverse.{reverse_table_interface, invalid_tdest, role_of}

-- The streams of the table that are served after inserts are empty but for one.
abbrev NoLookups : State → Type 0
NoLookups s = (s.tx_eng_rev_req ≡ []) × (s.rx_app_tdest_req ≡ []) × (s.tx_app_tdest_req ≡ [])

-- If an entry waits, a call enters it: the session then has the entry's tuple and role, and every
-- other session the role it had.
pub entered_is_found :
    (s : State) (q : SlookupToRevTableUpdReq) (rest : List SlookupToRevTableUpdReq)
    → s.rev_table_insert_req ≡ q ∷ rest
    → let s' = reverse_table_interface s in
      (s'.slookup_rev_table q.key ≡ record { tuple = q.tuple_value; role_id = q.role_value })
      × ((id : ℕ) → role_of s' id ≡ (if q.key == id then q.role_value else role_of s id))
unfolding reverse_table_interface
entered_is_found s q rest e = (ground arith, λ id. ground arith)

-- If nothing else waits, releasing a session that has an entry gives back its port and asks the CAM
-- to delete its tuple, once: afterwards the session has no role, and a second release gives nothing
-- back.
pub released_once :
    (s : State) (id : ℕ) (rest : List ℕ)
    → s.rev_table_insert_req ≡ []
    → NoLookups s
    → s.release_req ≡ id ∷ id ∷ rest
    → s.valid_tuple id ≡ true
    → let s' = reverse_table_interface s in
      let s'' = reverse_table_interface s' in
      let t = (s.slookup_rev_table id).tuple in
      (s'.release_port_req ≡ s.release_port_req ++ (swap_byte16 t.src_tcp_port ∷ []))
      × (s'.cam_delete_req
          ≡ s.cam_delete_req ++ (record { op = delete; key = t; value = id; source = rx } ∷ []))
      × (role_of s' id ≡ invalid_tdest)
      × (s''.release_port_req ≡ s'.release_port_req)
      × (s''.cam_delete_req ≡ s'.cam_delete_req)
unfolding reverse_table_interface
released_once s id rest a b c d =
    (ground arith, ground arith, ground arith, ground arith, ground arith)
