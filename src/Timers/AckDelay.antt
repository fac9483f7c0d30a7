-- ===== src/Timers/AckDelay.antt =====
-- hls/toe/ack_delay/ack_delay.cpp: an ACK is held back for a while, so that the next event of its
-- session can carry it.
pub mod Laws
use tcp_offload_engine_shell.Prelude.{
  ℕ, ◌-◌, ◌%◌, ◌^◌, Bool, true, false, not, ◌&&◌, Option, none, some, List, ◌∷◌, ◌==◌, ltb,
  if◌then◌else◌, read, update,
}
use tcp_offload_engine_shell.Conn.Messages.{
  EventType, event, same_event, EventWithTuple, with_no_tuple,
}
use tcp_offload_engine_shell.Timers.Sweep.{Times, next_session}

pub record Regs : Type 0 where
  pub ack_table : ℕ → ℕ
  pub cur_session_id : ℕ

-- The input stream, and whether the output stream to the tx engine is full.
pub record Ins : Type 0 where
  pub events : List EventWithTuple
  pub full : Bool

-- The event written to the tx engine, and whether each counter stream gets an item.
pub record Outs : Type 0 where
  pub event_out : Option EventWithTuple
  pub read_cnt : Bool
  pub write_cnt : Bool

abbrev pub nothing : Outs
nothing = record { event_out = none; read_cnt = false; write_cnt = false }

accept_event : Times → Regs → EventWithTuple → Regs × Outs
accept_event c r q =
    let id = q.event.session_id in
    if same_event q.event.kind EventType.ack && (r.ack_table id == 0)
    then (
      record r { ack_table = update r.ack_table id (c.time_64us % 2 ^ 12) },
      record nothing { read_cnt = true },
    )
    else (
      record r { ack_table = update r.ack_table id 0 },
      record { event_out = some q; read_cnt = true; write_cnt = true },
    )

-- No event: the table's next entry counts down.
sweep : Bool → Regs → Regs × Outs
sweep full r =
    let id = r.cur_session_id in
    let r' = record r { cur_session_id = next_session id } in
    if ltb 0 (r.ack_table id) && not full
    then (
      record r' { ack_table = update r.ack_table id (r.ack_table id - 1) },
      if r.ack_table id == 1
          then record {
            event_out = some (with_no_tuple (event EventType.ack id));
            read_cnt = false;
            write_cnt = true;
          }
          else nothing,
    )
    else (r', nothing)

-- One call of `ack_delay`.
unfoldable pub ack_delay : Times → Regs → Ins → Regs × Outs × Ins
unfolding accept_event sweep
ack_delay c r i = elim (read i.events) [
  | some (q, rest) ↦ let (r', o) = accept_event c r q in (r', o, record i { events = rest })
  | none ↦ let (r', o) = sweep i.full r in (r', o, i)
]
