-- ===== src/Timers/RetransmitTimer.antt =====
-- hls/toe/retransmit_timer/retransmit_timer.cpp: asks for a retransmission when a session's timer
-- runs out, and gives the session up after TCP_MAX_RETX_ATTEMPTS of them.
pub mod Laws
pub mod Attempts
use tcp_offload_engine_shell.Prelude.{
  ℕ, ◌+◌, ◌-◌, ◌%◌, ◌^◌, Bool, true, false, not, ◌&&◌, Option, none, some, List, ◌∷◌, ◌==◌, ltb,
  leb, if◌then◌else◌, read, read_if, update,
}
use tcp_offload_engine_shell.Conn.Tables.{tcp_max_sessions, tcp_max_retx_attempts}
use tcp_offload_engine_shell.Conn.Messages.{
  EventType, Event, event_retrans, same_event, RxEngToRetransTimerReq, TxEngToRetransTimerReq,
  OpenConnRsp, AppNotification,
}
use tcp_offload_engine_shell.Timers.Sweep.{Times}

pub record RetransmitTimerEntry : Type 0 where
  pub time : ℕ
  pub retries : ℕ
  pub active : Bool
  pub kind : EventType

pub record Regs : Type 0 where
  pub retrans_timer_table : ℕ → RetransmitTimerEntry
  pub cur_session_id : ℕ
  pub wait_for_write : Bool
  pub prev_session_id : ℕ
  pub rx_eng_req : RxEngToRetransTimerReq

-- The input streams, and whether the stream to the event engine is full.
pub record Ins : Type 0 where
  pub clear : List RxEngToRetransTimerReq
  pub set : List TxEngToRetransTimerReq
  pub full : Bool

-- What one call writes.
pub record Outs : Type 0 where
  pub event_out : Option Event
  pub release : Option ℕ
  pub rx_app_notification : Option AppNotification
  pub tx_app_notification : Option OpenConnRsp

abbrev pub nothing : Outs
nothing = record {
  event_out = none;
  release = none;
  rx_app_notification = none;
  tx_app_notification = none;
}

-- A request of the rx engine that has been read: the time starts anew, or the timer stops. Either
-- way the attempts are counted from 0 again.
write_clear : Times → Regs → Regs
write_clear c r =
    let id = r.rx_eng_req.session_id in
    let e = r.retrans_timer_table id in
    record r {
      retrans_timer_table = update r.retrans_timer_table id (
          if not r.rx_eng_req.stop
          then record e { time = c.time_1s; retries = 0 }
          else record e { time = 0; active = false; retries = 0 });
      wait_for_write = false;
    }

-- The interval by the attempts made so far.
abbrev pub interval : Times → ℕ → ℕ
interval c retries =
    if retries == 0
    then c.time_1s
    else if retries == 1
    then c.time_5s
    else if retries == 2
    then c.time_10s
    else if retries == 3
    then c.time_15s
    else c.time_30s

-- A request of the tx engine. The cursor skips ahead where it would meet the session soon.
set_timer : Times → Regs → TxEngToRetransTimerReq → Regs
set_timer c r q =
    let id = q.session_id in
    let e = r.retrans_timer_table id in
    let cur = r.cur_session_id in
    record r {
      cur_session_id = if ltb id (cur + 3) && leb cur id then (cur + 5) % 2 ^ 16 else cur;
      retrans_timer_table = update r.retrans_timer_table id (record e {
        kind = q.kind;
        time = if not e.active then interval c e.retries else e.time;
        active = true;
      });
      prev_session_id = id;
    }

-- The timer of `id` has run out: another attempt, or the end of the session. `e` is its entry.
timeout : ℕ → RetransmitTimerEntry → RetransmitTimerEntry × Outs
timeout id e =
    if ltb e.retries tcp_max_retx_attempts
    then (
      record e { time = 0; active = false; retries = (e.retries + 1) % 2 ^ 3 },
      record nothing { event_out = some (event_retrans e.kind id ((e.retries + 1) % 2 ^ 3)) },
    )
    else (
      record e { time = 0; active = false; retries = 0 },
      if same_event e.kind EventType.syn
          then record nothing {
            release = some id;
            tx_app_notification = some (record { session_id = id; success = false });
          }
          else record nothing {
            release = some id;
            rx_app_notification = some (record {
              session_id = id;
              length = 0;
              ip_addr = 0;
              dst_tcp_port = 0;
              closed = true;
            });
          },
    )

tick : Bool → ℕ → RetransmitTimerEntry → RetransmitTimerEntry × Outs
unfolding timeout
tick full id e =
    if e.active
    then if ltb 0 e.time
      then (record e { time = e.time - 1 }, nothing)
      else if not full
      then timeout id e
      else (e, nothing)
    else (e, nothing)

-- No request: the entry under the cursor, which goes on by one.
sweep : Bool → Regs → Regs × Outs
unfolding tick
sweep full r =
    let id = r.cur_session_id in
    let next = (id + 1) % 2 ^ 16 in
    let (e, o) = tick full id (r.retrans_timer_table id) in
    (
      record r {
        cur_session_id = if leb tcp_max_sessions next then 0 else next;
        retrans_timer_table = update r.retrans_timer_table id e;
        prev_session_id = id;
      },
      o,
    )

-- One call of `retransmit_timer`.
unfoldable pub retransmit_timer : Times → Regs → Ins → Regs × Outs × Ins
unfolding write_clear set_timer sweep
retransmit_timer c r i =
    if r.wait_for_write && not (r.rx_eng_req.session_id == r.prev_session_id)
    then (write_clear c r, nothing, i)
    else elim (read_if (not r.wait_for_write) i.clear) [
      | some (q, rest) ↦
          (record r { rx_eng_req = q; wait_for_write = true }, nothing, record i { clear = rest })
      | none ↦ elim (read i.set) [
        | some (q, rest) ↦ (set_timer c r q, nothing, record i { set = rest })
        | none ↦ let (r', o) = sweep i.full r in (r', o, i)
      ]
    ]
