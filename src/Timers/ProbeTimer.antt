-- ===== src/Timers/ProbeTimer.antt =====
-- hls/toe/probe_timer/probe_timer.cpp: fires a TX event for a session whose window is too small,
-- every 50 ms (without TCP_NODELAY).
pub mod Laws
use tcp_offload_engine_shell.Prelude.{
  ℕ, ◌+◌, ◌-◌, ◌%◌, ◌^◌, Bool, true, false, not, ◌&&◌, ◌||◌, Option, none, some, List, ◌∷◌, ◌==◌,
  if◌then◌else◌, read, update,
}
use tcp_offload_engine_shell.Conn.Messages.{EventType, Event, event}
use tcp_offload_engine_shell.Timers.Sweep.{Times, next_session}

pub record ProbeTimerEntry : Type 0 where
  pub time : ℕ
  pub active : Bool

pub record Regs : Type 0 where
  pub probe_timer_table : ℕ → ProbeTimerEntry
  pub cur_check_session_id : ℕ
  pub set_session_id : ℕ
  pub prev_session_id : ℕ
  pub wait_for_write : Bool

-- The input streams, and whether the stream to the event engine is full.
pub record Ins : Type 0 where
  pub clear : List ℕ
  pub set : List ℕ
  pub full : Bool

write_set : Times → Regs → Regs
write_set c r =
    let prev = (r.prev_session_id + 2 ^ 16 - 1) % 2 ^ 16 in
    if not (r.set_session_id == r.prev_session_id)
    then record r {
      probe_timer_table =
          update r.probe_timer_table r.set_session_id
            (record { time = c.time_50ms; active = true });
      wait_for_write = false;
      prev_session_id = prev;
    }
    else record r { prev_session_id = prev }

-- "Check if 0, otherwise decrement", for the session `id`; `clear` is `ptimer_cur_id_to_be_clear`.
check : Bool → Bool → ℕ → Regs → Regs × Option Event
check clear full id r =
    let e = r.probe_timer_table id in
    if e.active && not full
    then if (e.time == 0) || clear
      then (
        record r {
          probe_timer_table = update r.probe_timer_table id (record { time = 0; active = false });
        },
        some (event EventType.tx id),
      )
      else (
        record r {
          probe_timer_table =
              update r.probe_timer_table id (record { time = e.time - 1; active = true });
        },
        none,
      )
    else (r, none)

-- One call of `probe_timer`.
unfoldable pub probe_timer : Times → Regs → Ins → Regs × Option Event × Ins
unfolding write_set check
probe_timer c r i = if r.wait_for_write then (write_set c r, none, i) else elim (read i.set) [
  | some (id, rest) ↦
      (record r { set_session_id = id; wait_for_write = true }, none, record i { set = rest })
  | none ↦
      let cur = r.cur_check_session_id in
      let r' = record r { prev_session_id = cur } in
      elim (read i.clear) [
        | some (id, rest) ↦
            let (r'', o) = check true i.full id r' in (r'', o, record i { clear = rest })
        | none ↦
            let (r'', o) =
              check false i.full cur (record r' { cur_check_session_id = next_session cur }) in
            (r'', o, i)
      ]
]
