-- ===== src/EventEngine.antt =====
-- hls/toe/event_engine/event_engine.cpp: forwards the events of the rx engine, the timers and the
-- tx app to ack_delay, and counts what is under way behind it.
pub mod Credits
use tcp_offload_engine_shell.Prelude.{
  ℕ, ◌+◌, ◌-◌, ◌%◌, ◌^◌, ◌&&◌, Option, none, some, List, ◌∷◌, ◌==◌, if◌then◌else◌, read, read_if,
}
use tcp_offload_engine_shell.Conn.Messages.{Event, EventWithTuple, with_no_tuple}

-- The four counters, `ap_uint<8>`.
pub record Regs : Type 0 where
  pub write_event_count : ℕ
  pub ack_delay_read_count : ℕ
  pub ack_delay_write_count : ℕ
  pub tx_eng_read_count : ℕ

-- The input streams. The items of the three count streams are all 1, and a stream of them is a
-- number.
pub record Ins : Type 0 where
  pub tx_app_event : List Event
  pub rx_eng_event : List EventWithTuple
  pub timer_event : List Event
  pub ack_delay_read : ℕ
  pub ack_delay_write : ℕ
  pub tx_eng_read : ℕ

abbrev pub count_up : ℕ → ℕ
count_up n = (n + 1) % 2 ^ 8

-- The event that goes to ack_delay.
choose : Regs → Ins → Option EventWithTuple × Ins
choose r i = elim (read i.rx_eng_event) [
  | some (e, rest) ↦ (some e, record i { rx_eng_event = rest })
  | none ↦
      let settled =
        (r.write_event_count == r.ack_delay_read_count)
        && (r.ack_delay_write_count == r.tx_eng_read_count) in
      elim (read_if settled i.timer_event) [
        | some (e, rest) ↦ (some (with_no_tuple e), record i { timer_event = rest })
        | none ↦ elim (read_if settled i.tx_app_event) [
          | some (e, rest) ↦ (some (with_no_tuple e), record i { tx_app_event = rest })
          | none ↦ (none, i)
        ]
      ]
]

abbrev written : Option EventWithTuple → ℕ → ℕ
written none n = n
written (some e) n = count_up n

-- One call of `event_engine`.
unfoldable pub event_engine : Regs → Ins → Regs × Option EventWithTuple × Ins
unfolding choose
event_engine r i =
    let (e, i') = choose r i in
    (
      record {
        write_event_count = written e r.write_event_count;
        ack_delay_read_count =
            if i.ack_delay_read == 0
            then r.ack_delay_read_count
            else count_up r.ack_delay_read_count;
        ack_delay_write_count =
            if i.ack_delay_write == 0
            then r.ack_delay_write_count
            else count_up r.ack_delay_write_count;
        tx_eng_read_count =
            if i.tx_eng_read == 0 then r.tx_eng_read_count else count_up r.tx_eng_read_count;
      },
      e,
      record i' {
        ack_delay_read = i.ack_delay_read - 1;
        ack_delay_write = i.ack_delay_write - 1;
        tx_eng_read = i.tx_eng_read - 1;
      },
    )
