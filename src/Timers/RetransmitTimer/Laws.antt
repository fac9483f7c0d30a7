-- ===== src/Timers/RetransmitTimer/Laws.antt =====
-- What a call of the retransmit timer does at a time-out, on a request, and to the cursor.
use tcp_offload_engine_shell.Prelude.{
  ℕ, ◌+◌, ◌-◌, ◌≤◌, ◌<◌, ◌≡◌, ◌≢◌, ◌⊎◌, true, false, some, none, List, [], ◌∷◌, arith,
}
use tcp_offload_engine_shell.Conn.Tables.{tcp_max_sessions, tcp_max_retx_attempts}
use tcp_offload_engine_shell.Conn.Messages.{
  Event, event_retrans, RxEngToRetransTimerReq, TxEngToRetransTimerReq, syn,
}
use tcp_offload_engine_shell.Timers.Sweep.{Times}
use tcp_offload_engine_shell.Timers.RetransmitTimer.{Regs, Ins, retransmit_timer}

-- No session counts more attempts than allowed.
abbrev pub Attempts : Regs → Type 0
Attempts r = (id : ℕ) → (r.retrans_timer_table id).retries ≤ tcp_max_retx_attempts

-- A call keeps it that no session counts more attempts than allowed.
pub retransmit_timer-Attempts :
    (c : Times) (r : Regs) (i : Ins) → Attempts r → Attempts (retransmit_timer c r i).0
unfolding retransmit_timer
retransmit_timer-Attempts c r i h id = ground (arith, h id)

-- A retransmission is asked for only when the session's timer ran out with attempts left; it
-- carries the kind of event that set the timer and the number of the attempt, which is also what
-- the table counts afterwards, and the timer is off.
pub event_at_timeout :
    (c : Times) (r : Regs) (i : Ins) {e : Event}
    → (retransmit_timer c r i).1.event_out ≡ some e
    → let entry = r.retrans_timer_table e.session_id in
      let entry' = (retransmit_timer c r i).0.retrans_timer_table e.session_id in
      (entry.active ≡ true)
      × (entry.time ≡ 0)
      × (entry.retries < tcp_max_retx_attempts)
      × (e ≡ event_retrans entry.kind e.session_id (entry.retries + 1))
      × (entry'.retries ≡ entry.retries + 1)
      × (entry'.active ≡ false)
unfolding retransmit_timer
event_at_timeout c r i h = ground arith

-- A session is given up only when its timer ran out with no attempts left; in the same call the tx
-- app is told that the connection could not be opened, if it was a SYN that timed out, and
-- otherwise the rx app that the connection is closed.
pub release_after_attempts :
    (c : Times) (r : Regs) (i : Ins) {id : ℕ}
    → (retransmit_timer c r i).1.release ≡ some id
    → let entry = r.retrans_timer_table id in
      let o = (retransmit_timer c r i).1 in
      (entry.active ≡ true)
      × (entry.time ≡ 0)
      × (tcp_max_retx_attempts ≤ entry.retries)
      × (((entry.kind ≡ syn)
            × (o.tx_app_notification ≡ some (record { session_id = id; success = false }))
            × (o.rx_app_notification ≡ none))
          ⊎ ((entry.kind ≢ syn)
              × (o.tx_app_notification ≡ none)
              × (o.rx_app_notification
                  ≡ some (record {
                    session_id = id;
                    length = 0;
                    ip_addr = 0;
                    dst_tcp_port = 0;
                    closed = true;
                  }))))
unfolding retransmit_timer
release_after_attempts c r i h = ground arith

-- No request.
abbrev pub idle : Ins
idle = record { clear = []; set = []; full = false }

-- A set request for a session at or just above the cursor, with the cursor among the last five
-- sessions, moves the cursor past the table; the next call without a request then takes an entry
-- that does not exist (the entry taken is kept in `prev_session_id`).
pub cursor_leaves_table :
    (c : Times) (r : Regs) (i : Ins) (q : TxEngToRetransTimerReq)
    (rest : List TxEngToRetransTimerReq)
    → r.wait_for_write ≡ false
    → i.clear ≡ []
    → i.set ≡ q ∷ rest
    → q.session_id < tcp_max_sessions
    → tcp_max_sessions - 5 ≤ r.cur_session_id
    → q.session_id < r.cur_session_id + 3
    → r.cur_session_id ≤ q.session_id
    → let r' = (retransmit_timer c r i).0 in
      (tcp_max_sessions ≤ r'.cur_session_id)
      × (tcp_max_sessions ≤ (retransmit_timer c r' idle).0.prev_session_id)
unfolding retransmit_timer
cursor_leaves_table c r i q rest w a b d e f g = ground arith

-- If the register is free, an acknowledgment that asks to stop the timer does so in the call after
-- it is read, unless that session's entry was taken by the call before; its attempts are counted
-- from 0 again.
pub stop_takes_effect :
    (c : Times) (r : Regs) (i : Ins) (q : RxEngToRetransTimerReq)
    (rest : List RxEngToRetransTimerReq)
    → r.wait_for_write ≡ false
    → i.clear ≡ q ∷ rest
    → q.stop ≡ true
    → q.session_id ≢ r.prev_session_id
    → let r' = (retransmit_timer c r i).0 in
      let r'' = (retransmit_timer c r' (retransmit_timer c r i).2).0 in
      ((r''.retrans_timer_table q.session_id).active ≡ false)
      × ((r''.retrans_timer_table q.session_id).retries ≡ 0)
      × ((r''.retrans_timer_table q.session_id).time ≡ 0)
unfolding retransmit_timer
stop_takes_effect c r i q rest w a b d = ground arith
