-- ===== src/Tests/Times.antt =====
-- The timers of hls/toe and ack_delay, with the intervals of a simulation.
use tcp_offload_engine_shell.Prelude.{
  ℕ, ◌+◌, ◌≤◌, ◌≡◌, ◌==◌, refl, true, false, some, [], ◌∷◌, arith, if◌then◌else◌,
}
use tcp_offload_engine_shell.Conn.Tables.{tcp_max_retx_attempts}
use tcp_offload_engine_shell.Conn.Messages.{
  event, with_no_tuple, ack, tx, rt, syn, RxEngToRetransTimerReq, TxEngToRetransTimerReq,
}
use tcp_offload_engine_shell.Timers.Sweep.{simulation_times}
use tcp_offload_engine_shell.Timers.AckDelay
use tcp_offload_engine_shell.Timers.AckDelay.{ack_delay}
use tcp_offload_engine_shell.Timers.AckDelay.Laws as AckLaws
use tcp_offload_engine_shell.Timers.AckDelay.Laws.{
  session_of, delayed_ack_is_kept, delayed_ack_is_sent,
}
use tcp_offload_engine_shell.Timers.CloseTimer
use tcp_offload_engine_shell.Timers.CloseTimer.{CloseTimerEntry, close_timer}
use tcp_offload_engine_shell.Timers.ProbeTimer
use tcp_offload_engine_shell.Timers.ProbeTimer.{ProbeTimerEntry, probe_timer}
use tcp_offload_engine_shell.Timers.RetransmitTimer
use tcp_offload_engine_shell.Timers.RetransmitTimer.{RetransmitTimerEntry, retransmit_timer}
use tcp_offload_engine_shell.Timers.RetransmitTimer.Laws.{Attempts, idle}
use tcp_offload_engine_shell.Timers.RetransmitTimer.Attempts.{
  run, retransmissions, retransmissions_bounded,
}

-- Session 7 owes an ACK for one more sweep, and the cursor has just passed it.
abbrev owing : AckDelay.Regs
owing = record { ack_table = λ id. if id == 7 then 1 else 0; cur_session_id = 8 }

abbrev tx_event : AckDelay.Ins
tx_event = record { events = with_no_tuple (event tx 7) ∷ []; full = false }

delayed_ack_is_sent_example :
    (ack_delay simulation_times
      (AckLaws.idle_calls simulation_times 127 owing)
      AckLaws.idle).1.event_out
    ≡ some (with_no_tuple (event ack 7))
delayed_ack_is_sent_example =
    delayed_ack_is_sent simulation_times owing 7 (omega arith) (omega arith) (omega arith)

-- Session 7 is closed after two more sweeps.
abbrev closing : CloseTimer.Regs
closing = record {
  close_timer_table = λ id.
      if id == 7 then record { time = 2; active = true } else record { time = 0; active = false };
  cur_session_id = 0;
  set_session_id = 0;
  prev_session_id = 0;
  wait_for_write = false;
}

abbrev probing : ProbeTimer.Regs
probing = record {
  probe_timer_table = λ id.
      if id == 7 then record { time = 2; active = true } else record { time = 0; active = false };
  cur_check_session_id = 3;
  set_session_id = 0;
  prev_session_id = 0;
  wait_for_write = false;
}

abbrev clearing : ProbeTimer.Ins
clearing = record { clear = 7 ∷ 8 ∷ []; set = []; full = true }

-- The timer of session 7 has run out, after as many attempts as given, and the cursor stands on it.
abbrev expired : ℕ → RetransmitTimer.Regs
expired n = record {
  retrans_timer_table = λ id.
      if id == 7
      then record { time = 0; retries = n; active = true; kind = syn }
      else record { time = 0; retries = 0; active = false; kind = rt };
  cur_session_id = 7;
  wait_for_write = false;
  prev_session_id = 6;
  rx_eng_req = record { session_id = 0; stop = false };
}

-- The tx engine sets the timer of session 126 while the cursor stands on it.
abbrev at_126 : RetransmitTimer.Regs
at_126 = record (expired 0) { cur_session_id = 126 }

abbrev set_126 : TxEngToRetransTimerReq
set_126 = record { session_id = 126; kind = rt }

abbrev setting : RetransmitTimer.Ins
setting = record { clear = []; set = set_126 ∷ []; full = false }

-- The entry that the second call takes is that of session 131.
entry_131 :
    (retransmit_timer simulation_times
      (retransmit_timer simulation_times at_126 setting).0
      idle).0.prev_session_id
    ≡ 131
unfolding retransmit_timer
entry_131 = refl

abbrev stop_7 : RxEngToRetransTimerReq
stop_7 = record { session_id = 7; stop = true }

abbrev stopping : RetransmitTimer.Ins
stopping = record { clear = stop_7 ∷ []; set = []; full = false }

expired-Attempts : Attempts (expired 3)
expired-Attempts id = ground arith

abbrev set_7 : RetransmitTimer.Ins
set_7 = record { clear = []; set = record { session_id = 7; kind = syn } ∷ []; full = false }

-- One attempt is left: the timer runs out, is set again, and the calls that follow see another
-- session.
retransmissions_bounded_example :
    (((run simulation_times (expired 3) (idle ∷ set_7 ∷ idle ∷ [])).retrans_timer_table 7).retries
      ≡ ((expired 3).retrans_timer_table 7).retries
        + retransmissions 7 simulation_times (expired 3) (idle ∷ set_7 ∷ idle ∷ []))
    × (retransmissions 7 simulation_times (expired 3) (idle ∷ set_7 ∷ idle ∷ [])
        ≤ tcp_max_retx_attempts)
unfolding retransmit_timer
retransmissions_bounded_example =
    retransmissions_bounded simulation_times (expired 3) (idle ∷ set_7 ∷ idle ∷ []) 7 refl
      expired-Attempts (refl, refl, (refl, refl, (refl, refl, tt)))
