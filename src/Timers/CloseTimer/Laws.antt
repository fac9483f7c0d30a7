-- ===== src/Timers/CloseTimer/Laws.antt =====
-- When the close timer releases a session, and that each session set is released in time.
use tcp_offload_engine_shell.Prelude.{
  ℕ, zero, suc, ◌+◌, ◌*◌, ◌^◌, ◌<◌, ◌≡◌, ◌⊎◌, true, false, some, List, [], ◌∷◌, arith, refl,
}
use tcp_offload_engine_shell.Conn.Tables.{tcp_max_sessions}
use tcp_offload_engine_shell.Timers.Sweep.{
  Times, distance, next_session-lt, distance-next_session, distance-next_session_self,
}
use tcp_offload_engine_shell.Timers.CloseTimer.{Regs, close_timer}

-- A timer that is on stays on in a call, unless its time was 0: then the session may be released in
-- the call, and its timer is off afterwards.
pub released_at_end :
    (c : Times) (r : Regs) (set : List ℕ) (id : ℕ)
    → (r.close_timer_table id).active ≡ true
    → (((close_timer c r set).0.close_timer_table id).active ≡ true)
      ⊎ (((close_timer c r set).1 ≡ some id)
          × ((r.close_timer_table id).time ≡ 0)
          × (((close_timer c r set).0.close_timer_table id).active ≡ false))
unfolding close_timer
released_at_end c r set id h = ground arith

-- A session is released only if its timer was on with a time of 0, and the timer is off afterwards.
pub release_needs_timer :
    (c : Times) (r : Regs) (set : List ℕ) {id : ℕ}
    → (close_timer c r set).1 ≡ some id
    → ((r.close_timer_table id).active ≡ true)
      × ((r.close_timer_table id).time ≡ 0)
      × (((close_timer c r set).0.close_timer_table id).active ≡ false)
unfolding close_timer
release_needs_timer c r set h = ground arith

unfoldable pub idle_calls : Times → ℕ → Regs → Regs
idle_calls c zero r = r
idle_calls c (suc n) r = idle_calls c n (close_timer c r []).0

-- A set request that is read turns the session's timer on, with the time of 60 s, by the second
-- call after it at the latest, whatever else waits in the stream.
pub set_takes_effect :
    (c : Times) (r : Regs) (id : ℕ) (rest : List ℕ)
    → r.wait_for_write ≡ false
    → r.prev_session_id < 2 ^ 16
    → let r0 = (close_timer c r (id ∷ rest)).0 in
      let r1 = (close_timer c r0 rest).0 in
      let r2 = (close_timer c r1 rest).0 in
      (r1.close_timer_table id ≡ record { time = c.time_60s; active = true })
      ⊎ ((r1.wait_for_write ≡ true)
          × (r2.close_timer_table id ≡ record { time = c.time_60s; active = true }))
unfolding close_timer
set_takes_effect c r id rest h k = ground arith

countdown :
    (c : Times) (n : ℕ) (r : Regs) (id : ℕ)
    → r.wait_for_write ≡ false
    → r.cur_session_id < tcp_max_sessions
    → id < tcp_max_sessions
    → (r.close_timer_table id).active ≡ true
    → n ≡ tcp_max_sessions * (r.close_timer_table id).time + distance r.cur_session_id id
    → ((idle_calls c n r).cur_session_id ≡ id)
      × ((idle_calls c n r).close_timer_table id ≡ record { time = 0; active = true })
      × ((idle_calls c n r).wait_for_write ≡ false)
unfolding idle_calls close_timer
countdown c zero r id w h k p e = ground arith
countdown c (suc n) r id w h k p e = ground (
  arith,
  countdown c n (close_timer c r []).0 id,
  distance-next_session r.cur_session_id id,
  distance-next_session_self id,
  next_session-lt r.cur_session_id,
)

released_now :
    (c : Times) (r : Regs) (id : ℕ)
    → r.wait_for_write ≡ false
    → r.cur_session_id ≡ id
    → r.close_timer_table id ≡ record { time = 0; active = true }
    → (close_timer c r []).1 ≡ some id
unfolding close_timer
released_now c r id w h e = ground arith

-- If no set request waits or arrives, a session whose timer is on is released by the call that
-- follows 128 * time + d idle ones, where d is the distance from the cursor to the session.
pub released_in_time :
    (c : Times) (r : Regs) (id : ℕ)
    → r.wait_for_write ≡ false
    → r.cur_session_id < tcp_max_sessions
    → id < tcp_max_sessions
    → (r.close_timer_table id).active ≡ true
    → (close_timer c
        (idle_calls c
          (tcp_max_sessions * (r.close_timer_table id).time + distance r.cur_session_id id)
          r)
        []).1
      ≡ some id
released_in_time c r id w h k p =
    let (at, entry, free) = countdown c _ r id w h k p refl in released_now c _ id free at entry
