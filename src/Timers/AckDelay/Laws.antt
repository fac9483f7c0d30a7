-- ===== src/Timers/AckDelay/Laws.antt =====
-- No delayed ACK is lost, and each is sent in time.
use tcp_offload_engine_shell.Prelude.{
  ℕ, zero, suc, ◌+◌, ◌-◌, ◌*◌, ◌<◌, ◌≡◌, ◌⊎◌, false, some, [], arith, refl, Option, none,
}
use tcp_offload_engine_shell.Conn.Tables.{tcp_max_sessions}
use tcp_offload_engine_shell.Conn.Messages.{event, EventWithTuple, with_no_tuple, ack}
use tcp_offload_engine_shell.Timers.Sweep.{
  Times, distance, next_session-lt, distance-next_session, distance-next_session_self,
}
use tcp_offload_engine_shell.Timers.AckDelay.{Regs, Ins, ack_delay}

-- The session of the event that a call sends.
abbrev pub session_of : Option EventWithTuple → Option ℕ
session_of none = none
session_of (some e) = some e.event.session_id

-- A session that owes an ACK goes on owing it, or an event of that session goes to the tx engine in
-- the same call.
pub delayed_ack_is_kept :
    (c : Times) (r : Regs) (i : Ins) (id : ℕ)
    → 0 < r.ack_table id
    → (0 < (ack_delay c r i).0.ack_table id) ⊎ (session_of (ack_delay c r i).1.event_out ≡ some id)
unfolding ack_delay
delayed_ack_is_kept c r i id h = ground arith

abbrev pub idle : Ins
idle = record { events = []; full = false }

-- The static variables after a number of calls with no event and room in the output stream.
unfoldable pub idle_calls : Times → ℕ → Regs → Regs
idle_calls c zero r = r
idle_calls c (suc n) r = idle_calls c n (ack_delay c r idle).0

countdown :
    (c : Times) (n : ℕ) (r : Regs) (id : ℕ)
    → r.cur_session_id < tcp_max_sessions
    → id < tcp_max_sessions
    → 0 < r.ack_table id
    → n ≡ tcp_max_sessions * (r.ack_table id - 1) + distance r.cur_session_id id
    → ((idle_calls c n r).cur_session_id ≡ id) × ((idle_calls c n r).ack_table id ≡ 1)
unfolding idle_calls ack_delay
countdown c zero r id h k p e = ground arith
countdown c (suc n) r id h k p e = ground (
  arith,
  countdown c n (ack_delay c r idle).0 id,
  distance-next_session r.cur_session_id id,
  distance-next_session_self id,
  next_session-lt r.cur_session_id,
)

sends_at_one :
    (c : Times) (r : Regs) (id : ℕ)
    → r.cur_session_id ≡ id
    → r.ack_table id ≡ 1
    → (ack_delay c r idle).1.event_out ≡ some (with_no_tuple (event ack id))
unfolding ack_delay
sends_at_one c r id h k = ground arith

-- With no further event and room in the output stream, a session that owes an ACK for `t` more
-- sweeps gets it from the call that follows 128 * (t - 1) + d idle ones, where d is the distance
-- from the cursor to the session.
pub delayed_ack_is_sent :
    (c : Times) (r : Regs) (id : ℕ)
    → r.cur_session_id < tcp_max_sessions
    → id < tcp_max_sessions
    → 0 < r.ack_table id
    → (ack_delay c
        (idle_calls c (tcp_max_sessions * (r.ack_table id - 1) + distance r.cur_session_id id) r)
        idle).1.event_out
      ≡ some (with_no_tuple (event ack id))
delayed_ack_is_sent c r id h k p =
    let (at, one) = countdown c _ r id h k p refl in sends_at_one c _ id at one
