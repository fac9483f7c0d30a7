-- ===== src/Timers/CloseTimer.antt =====
-- hls/toe/close_timer/close_timer.cpp: keeps a session in TIME_WAIT for 60 s, then has it released.
pub mod Laws
use tcp_offload_engine_shell.Prelude.{
  ℕ, ◌+◌, ◌-◌, ◌%◌, ◌^◌, Bool, true, false, not, Option, none, some, List, ◌∷◌, ◌==◌, ltb,
  if◌then◌else◌, read, update,
}
use tcp_offload_engine_shell.Timers.Sweep.{Times, next_session}

pub record CloseTimerEntry : Type 0 where
  pub time : ℕ
  pub active : Bool

pub record Regs : Type 0 where
  pub close_timer_table : ℕ → CloseTimerEntry
  pub cur_session_id : ℕ
  pub set_session_id : ℕ
  pub prev_session_id : ℕ
  pub wait_for_write : Bool

-- A set request that has been read is written unless its entry was written in the previous call;
-- the register that remembers that entry counts down meanwhile.
write_set : Times → Regs → Regs
write_set c r =
    let prev = (r.prev_session_id + 2 ^ 16 - 1) % 2 ^ 16 in
    if not (r.set_session_id == r.prev_session_id)
    then record r {
      close_timer_table =
          update r.close_timer_table r.set_session_id (record { time = c.time_60s; active = true });
      wait_for_write = false;
      prev_session_id = prev;
    }
    else record r { prev_session_id = prev }

sweep : Regs → Regs × Option ℕ
sweep r =
    let id = r.cur_session_id in
    let e = r.close_timer_table id in
    let r' = record r { prev_session_id = id; cur_session_id = next_session id } in
    if e.active
    then if ltb 0 e.time
      then (
        record r' {
          close_timer_table =
              update r.close_timer_table id (record { time = e.time - 1; active = true });
        },
        none,
      )
      else (
        record r' {
          close_timer_table = update r.close_timer_table id (record { time = 0; active = false });
        },
        some id,
      )
    else (r', none)

-- One call of `close_timer`: the variables, the session that it releases, the rest of the requests.
unfoldable pub close_timer : Times → Regs → List ℕ → Regs × Option ℕ × List ℕ
unfolding write_set sweep
close_timer c r set = if r.wait_for_write then (write_set c r, none, set) else elim (read set) [
  | some (id, rest) ↦ (record r { set_session_id = id; wait_for_write = true }, none, rest)
  | none ↦ let (r', o) = sweep r in (r', o, set)
]
