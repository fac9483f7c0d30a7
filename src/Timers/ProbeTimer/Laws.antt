-- ===== src/Timers/ProbeTimer/Laws.antt =====
-- When the probe timer fires, and what clearing it does.
use tcp_offload_engine_shell.Prelude.{
  ℕ, zero, suc, ◌+◌, ◌*◌, ◌<◌, ◌≡◌, true, false, some, none, List, [], ◌∷◌, arith, refl,
}
use tcp_offload_engine_shell.Conn.Tables.{tcp_max_sessions}
use tcp_offload_engine_shell.Conn.Messages.{Event, event, tx}
use tcp_offload_engine_shell.Timers.Sweep.{
  Times, distance, next_session-lt, distance-next_session, distance-next_session_self,
}
use tcp_offload_engine_shell.Timers.ProbeTimer.{Regs, Ins, probe_timer}

abbrev pub idle : Ins
idle = record { clear = []; set = []; full = false }

unfoldable pub idle_calls : Times → ℕ → Regs → Regs
idle_calls c zero r = r
idle_calls c (suc n) r = idle_calls c n (probe_timer c r idle).0

-- Each event is a TX event of a session whose timer was on and is off after the call.
pub event_needs_timer :
    (c : Times) (r : Regs) (i : Ins) {e : Event}
    → (probe_timer c r i).1 ≡ some e
    → (e ≡ event tx e.session_id)
      × ((r.probe_timer_table e.session_id).active ≡ true)
      × (((probe_timer c r i).0.probe_timer_table e.session_id).active ≡ false)
unfolding probe_timer
event_needs_timer c r i h = ground arith

countdown :
    (c : Times) (n : ℕ) (r : Regs) (id : ℕ)
    → r.wait_for_write ≡ false
    → r.cur_check_session_id < tcp_max_sessions
    → id < tcp_max_sessions
    → (r.probe_timer_table id).active ≡ true
    → n ≡ tcp_max_sessions * (r.probe_timer_table id).time + distance r.cur_check_session_id id
    → ((idle_calls c n r).cur_check_session_id ≡ id)
      × ((idle_calls c n r).probe_timer_table id ≡ record { time = 0; active = true })
      × ((idle_calls c n r).wait_for_write ≡ false)
unfolding idle_calls probe_timer
countdown c zero r id w h k p e = ground arith
countdown c (suc n) r id w h k p e = ground (
  arith,
  countdown c n (probe_timer c r idle).0 id,
  distance-next_session r.cur_check_session_id id,
  distance-next_session_self id,
  next_session-lt r.cur_check_session_id,
)

fires_now :
    (c : Times) (r : Regs) (id : ℕ)
    → r.wait_for_write ≡ false
    → r.cur_check_session_id ≡ id
    → r.probe_timer_table id ≡ record { time = 0; active = true }
    → (probe_timer c r idle).1 ≡ some (event tx id)
unfolding probe_timer
fires_now c r id w h e = ground arith

-- With no request and room in the output stream, the TX event of a session whose timer is on comes
-- from the call that follows 128 * time + d idle ones, where d is the distance from the cursor to
-- the session.
pub probe_fires_in_time :
    (c : Times) (r : Regs) (id : ℕ)
    → r.wait_for_write ≡ false
    → r.cur_check_session_id < tcp_max_sessions
    → id < tcp_max_sessions
    → (r.probe_timer_table id).active ≡ true
    → (probe_timer c
        (idle_calls c
          (tcp_max_sessions * (r.probe_timer_table id).time + distance r.cur_check_session_id id)
          r)
        idle).1
      ≡ some (event tx id)
probe_fires_in_time c r id w h k p =
    let (at, entry, free) = countdown c _ r id w h k p refl in fires_now c _ id free at entry

-- A clear request that is read, with no set request waiting, while the stream to the event engine
-- is full is lost: the request is gone and every timer is as it was.
pub clear_lost_when_full :
    (c : Times) (r : Regs) (i : Ins) (id : ℕ) (rest : List ℕ)
    → r.wait_for_write ≡ false
    → i.set ≡ []
    → i.clear ≡ id ∷ rest
    → i.full ≡ true
    → ((probe_timer c r i).2.clear ≡ rest)
      × ((probe_timer c r i).0.probe_timer_table ≡ r.probe_timer_table)
      × ((probe_timer c r i).1 ≡ none)
unfolding probe_timer
clear_lost_when_full c r i id rest w s q f = ground arith
