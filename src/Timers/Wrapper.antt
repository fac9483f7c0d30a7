-- ===== src/Timers/Wrapper.antt =====
-- `timer_wrapper` of hls/toe/timer_wrapper/timer_wrapper.cpp and `AxiStreamMerger` of
-- hls/utils/axi_utils.hpp: the three timers and the two mergers behind them.
use tcp_offload_engine_shell.Prelude.{
  ℕ, ◌+◌, ◌≡◌, Option, none, some, List, [], ◌∷◌, ◌++◌, length, arith, length-append,
}
use tcp_offload_engine_shell.Conn.Messages.{Event, AppNotification, OpenConnRsp}
use tcp_offload_engine_shell.Timers.Sweep.{Times}
use tcp_offload_engine_shell.Timers.CloseTimer
use tcp_offload_engine_shell.Timers.CloseTimer.{close_timer}
use tcp_offload_engine_shell.Timers.ProbeTimer
use tcp_offload_engine_shell.Timers.ProbeTimer.{probe_timer}
use tcp_offload_engine_shell.Timers.RetransmitTimer
use tcp_offload_engine_shell.Timers.RetransmitTimer.{retransmit_timer}

-- One call of `AxiStreamMerger`: an item of the second stream only when the first is empty.
abbrev pub axi_stream_merger : {A : Type 0} → List A → List A → Option A × List A × List A
axi_stream_merger (x ∷ in1) in2 = (some x, in1, in2)
axi_stream_merger [] (y ∷ in2) = (some y, [], in2)
axi_stream_merger [] [] = (none, [], [])

-- What a process writes goes to the end of the stream.
abbrev written : {A : Type 0} → List A → Option A → List A
written xs none = xs
written xs (some x) = xs ++ (x ∷ [])

-- The variables of the timers and the streams between them and the mergers.
pub record Regs : Type 0 where
  pub ctimer : CloseTimer.Regs
  pub rtimer : RetransmitTimer.Regs
  pub ptimer : ProbeTimer.Regs
  pub ctimer_to_sttable_release_state : List ℕ
  pub rtimer_to_sttable_release_state : List ℕ
  pub rtimer_to_event_eng_set_event : List Event
  pub ptimer_to_event_eng_set_event : List Event

pub record Ins : Type 0 where
  pub set_ctimer : List ℕ
  pub rtimer : RetransmitTimer.Ins
  pub ptimer : ProbeTimer.Ins

pub record Outs : Type 0 where
  pub event_out : Option Event
  pub release : Option ℕ
  pub rx_app_notification : Option AppNotification
  pub tx_app_notification : Option OpenConnRsp

-- One call of `timer_wrapper`, with the processes in the order of the code.
unfoldable pub timer_wrapper : Times → Regs → Ins → Regs × Outs × Ins
timer_wrapper c r i =
    let (ctimer, closed, set_ctimer) = close_timer c r.ctimer i.set_ctimer in
    let (rtimer, o, rtimer_in) = retransmit_timer c r.rtimer i.rtimer in
    let (ptimer, probe, ptimer_in) = probe_timer c r.ptimer i.ptimer in
    let (event, rtimer_events, ptimer_events) =
      axi_stream_merger (written r.rtimer_to_event_eng_set_event o.event_out)
        (written r.ptimer_to_event_eng_set_event probe) in
    let (release, ctimer_releases, rtimer_releases) =
      axi_stream_merger (written r.ctimer_to_sttable_release_state closed)
        (written r.rtimer_to_sttable_release_state o.release) in
    (
      record {
        ctimer = ctimer;
        rtimer = rtimer;
        ptimer = ptimer;
        ctimer_to_sttable_release_state = ctimer_releases;
        rtimer_to_sttable_release_state = rtimer_releases;
        rtimer_to_event_eng_set_event = rtimer_events;
        ptimer_to_event_eng_set_event = ptimer_events;
      },
      record {
        event_out = event;
        release = release;
        rx_app_notification = o.rx_app_notification;
        tx_app_notification = o.tx_app_notification;
      },
      record { set_ctimer = set_ctimer; rtimer = rtimer_in; ptimer = ptimer_in },
    )

-- The releases that wait in the wrapper and those that are out, counted.
abbrev pub waiting : Regs → ℕ
waiting r = length r.ctimer_to_sttable_release_state + length r.rtimer_to_sttable_release_state

abbrev count : {A : Type 0} → Option A → ℕ
count none = 0
count (some x) = 1

merger_keeps :
    {A : Type 0} (xs ys : List A)
    → let (o, xs', ys') = axi_stream_merger xs ys in
      count o + (length xs' + length ys') ≡ length xs + length ys
merger_keeps [] [] = omega arith
merger_keeps [] (y ∷ ys) = omega arith
merger_keeps (x ∷ xs) ys = omega arith

length-written :
    {A : Type 0} (xs : List A) (o : Option A) → length (written xs o) ≡ length xs + count o
length-written xs none = omega arith
length-written xs (some x) = length-append xs (x ∷ [])

-- A release that a timer writes is not lost: with each call as many of them leave or wait as waited
-- or were written.
pub release_kept :
    (c : Times) (r : Regs) (i : Ins)
    → let (r', o, i') = timer_wrapper c r i in
      count o.release + waiting r'
      ≡ waiting r
        + count (close_timer c r.ctimer i.set_ctimer).1
        + count (retransmit_timer c r.rtimer i.rtimer).1.release
unfolding timer_wrapper
release_kept c r i =
    let closed : Option ℕ = (close_timer c r.ctimer i.set_ctimer).1 in
    let ended : Option ℕ = (retransmit_timer c r.rtimer i.rtimer).1.release in
    omega (
      arith,
      merger_keeps (written r.ctimer_to_sttable_release_state closed)
          (written r.rtimer_to_sttable_release_state ended),
      length-written r.ctimer_to_sttable_release_state closed,
      length-written r.rtimer_to_sttable_release_state ended,
    )
