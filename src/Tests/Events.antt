-- ===== src/Tests/Events.antt =====
-- The event engine of hls/toe/event_engine with ack_delay behind it, on a concrete schedule.
use tcp_offload_engine_shell.Prelude.{◌+◌, ◌%◌, ◌^◌, ◌≡◌, refl, false, some, [], ◌∷◌, arith, length}
use tcp_offload_engine_shell.Conn.Messages.{event, with_no_tuple, ack, tx, rt}
use tcp_offload_engine_shell.Timers.Sweep.{simulation_times}
use tcp_offload_engine_shell.Timers.AckDelay.{ack_delay}
use tcp_offload_engine_shell.EventEngine.{event_engine}
use tcp_offload_engine_shell.EventEngine.Credits.{
  System, Step, Reach, Credits, engine_call, delay_call, Reach-Credits, forwarded_when_settled,
}

-- An event of each kind waits, and nothing is under way; the counters stand before their
-- wrap-around.
abbrev start : System
start = record {
  engine = record {
    write_event_count = 255;
    ack_delay_read_count = 255;
    ack_delay_write_count = 255;
    tx_eng_read_count = 255;
  };
  ins = record {
    tx_app_event = event tx 3 ∷ [];
    rx_eng_event = with_no_tuple (event ack 4) ∷ [];
    timer_event = event rt 5 ∷ [];
    ack_delay_read = 0;
    ack_delay_write = 0;
    tx_eng_read = 0;
  };
  delay = record { ack_table = λ id. 0; cur_session_id = 0 };
  to_delay = [];
  to_tx_eng = [];
}

start-Credits : Credits start
start-Credits = record {
  in_range = (omega arith, omega arith, omega arith, omega arith);
  before_delay = refl;
  behind_delay = refl;
}

-- The rx engine's event is forwarded and delayed; the engine is called again before its count is
-- in.
abbrev delayed : System
delayed = engine_call (delay_call simulation_times false (engine_call start))

delayed-Reach : Reach simulation_times start delayed
delayed-Reach =
    Reach.next (Reach.next (Reach.next Reach.here (Step.engine refl)) (Step.delay false refl))
      (Step.engine refl)

Reach-Credits_example : Credits delayed
Reach-Credits_example = Reach-Credits simulation_times start start-Credits delayed-Reach

-- The count is in: the timer's event is next.
settled : (event_engine delayed.engine delayed.ins).1 ≡ some (with_no_tuple (event rt 5))
unfolding engine_call delay_call event_engine ack_delay
settled = refl

forwarded_when_settled_example :
    (length delayed.to_delay ≡ 0)
    × (delayed.ins.ack_delay_read ≡ 0)
    × (delayed.ins.ack_delay_write % 2 ^ 8
        ≡ (delayed.ins.tx_eng_read + length delayed.to_tx_eng) % 2 ^ 8)
unfolding engine_call delay_call event_engine ack_delay
forwarded_when_settled_example =
    forwarded_when_settled delayed {e = with_no_tuple (event rt 5)}
      (Reach-Credits simulation_times start start-Credits delayed-Reach) refl (omega arith) refl
