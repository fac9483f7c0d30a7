-- ===== src/TxApp/Conn/Locks.antt =====
-- The state table's lock that a close request takes, against the write that gives it back.
use tcp_offload_engine_shell.Prelude.{◌≡◌, ◌≢◌, ◌⊎◌, none, some, List, ◌∷◌, arith}
use tcp_offload_engine_shell.Conn.Tables.{
  SessionState, state_read, state_write, established, fin_wait_1,
}
use tcp_offload_engine_shell.Conn.Messages.{event, fin}
use tcp_offload_engine_shell.TxApp.Conn.{
  Regs, Ins, open_conn, idle, close_conn, tx_app_connection_handler,
}

-- A read of the state table is asked for exactly when the handler goes from idle to closing, for
-- the session of the close request; it leaves that state only with a write for the same session,
-- which releases the lock. The write is FIN_WAIT_1 with a FIN event if the session was in
-- ESTABLISHED or FIN_WAIT_1, and otherwise the state that was read, with no event.
pub close_releases_lock :
    (r : Regs) (i : Ins)
    → let (r', o, i') = tx_app_connection_handler r i in
      (r.fsm_state ≢ close_conn
        → r'.fsm_state ≡ close_conn
        → (r.fsm_state ≡ idle)
          × (o.sttable_req ≡ some (state_read r'.app_close_session.session_id))
          × (o.event_out ≡ none))
      × ((s : SessionState) (rest : List SessionState)
          → r.fsm_state ≡ close_conn
          → i.sttable_rsp ≡ s ∷ rest
          → (r'.fsm_state ≡ idle)
            × ((((s ≡ established) ⊎ (s ≡ fin_wait_1))
                  × (o.sttable_req ≡ some (state_write r.app_close_session.session_id fin_wait_1))
                  × (o.event_out ≡ some (event fin r.app_close_session.session_id)))
                ⊎ ((s ≢ established)
                    × (s ≢ fin_wait_1)
                    × (o.sttable_req ≡ some (state_write r.app_close_session.session_id s))
                    × (o.event_out ≡ none))))
unfolding tx_app_connection_handler open_conn
close_releases_lock r i = (λ a b. ground arith, λ s rest a b. ground arith)
