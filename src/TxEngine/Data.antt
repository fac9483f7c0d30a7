-- ===== src/TxEngine/Data.antt =====
-- `TxEngTcpFsm` of hls/toe/tx_engine/tx_engine.cpp, `case TX`: everything between `not_ackd` and
-- `app_written` is sent, one segment a call, as far as the window goes.
use tcp_offload_engine_shell.Prelude.{
  ℕ, ◌+◌, ◌-◌, ◌%◌, ◌^◌, ◌/◌, Bool, true, false, not, ◌&&◌, ◌||◌, none, some, ◌==◌, leb,
  if◌then◌else◌,
}
use tcp_offload_engine_shell.Conn.Tables.{RxSarLookupRsp, TxSarToTxEngRsp, tcp_mss, buffer_size}
use tcp_offload_engine_shell.Conn.Messages.{EventType, EventWithTuple}
use tcp_offload_engine_shell.TxEngine.State.{
  Regs, Outs, FsmState, nothing, tx_sar_write, send_data, ack_meta,
}

abbrev pub with_type : EventType → EventWithTuple → EventWithTuple
with_type k e = record e { event = record e.event { kind = k } }

-- What is decided about the next segment. `next_curr_length` and `next_used_length` have 16 bits.
pub record Segment : Type 0 where
  pub length : ℕ
  pub not_ackd : ℕ
  pub next_curr_length : ℕ
  pub next_used_length : ℕ
  pub set_ptimer : Bool
  pub write_back : Bool
  pub fsm_state : FsmState
  pub kind : EventType

-- The segment has `length` bytes, and `not_ackd` moves on by them.
abbrev pub advance : TxSarToTxEngRsp → ℕ → ℕ → ℕ → Segment
advance t curr used length = record {
  length = length;
  not_ackd = (t.not_ackd + length) % 2 ^ 32;
  next_curr_length = (curr - length) % 2 ^ 16;
  next_used_length = (used + length) % 2 ^ 16;
  set_ptimer = false;
  write_back = false;
  fsm_state = FsmState.transition;
  kind = EventType.tx;
}

-- The last segment, which may be followed by a FIN. Without `ackd_eq_not_ackd` the code leaves the
-- two next lengths unset; here they are `curr` and `used`. They are not read again: the next event
-- sets them.
last_segment : TxSarToTxEngRsp → ℕ → ℕ → Segment
last_segment t curr used =
    let fin = t.fin_is_ready && (t.ackd_eq_not_ackd || (curr == 0)) in
    record {
      length = curr;
      not_ackd = if t.ackd_eq_not_ackd then t.not_ackd_short else (t.not_ackd + curr) % 2 ^ 32;
      next_curr_length =
          if t.ackd_eq_not_ackd
          then (t.not_ackd % buffer_size + buffer_size - curr) % 2 ^ 16
          else curr;
      next_used_length =
          if t.ackd_eq_not_ackd then (t.not_ackd % buffer_size + curr) % 2 ^ 16 else used;
      set_ptimer = not t.ackd_eq_not_ackd;
      write_back = true;
      fsm_state = if fin then FsmState.transition else FsmState.load;
      kind = if fin then EventType.fin else EventType.tx;
    }

-- "Check length, if bigger than Usable Window or MMS".
unfoldable pub next_segment : TxSarToTxEngRsp → ℕ → ℕ → ℕ → Segment
unfolding last_segment
next_segment t curr used usable =
    if leb curr usable
    then if leb tcp_mss curr then advance t curr used tcp_mss else last_segment t curr used
    else if leb tcp_mss usable
    then advance t curr used tcp_mss
    else record (advance t curr used usable) {
      set_ptimer = true;
      write_back = true;
      fsm_state = FsmState.load;
    }

-- The rest of the case: the segment is sent if it has data, and the variables are set for the next
-- one.
unfoldable pub send_segment : Regs → TxSarToTxEngRsp → Segment → Regs × Outs
send_segment r t g =
    let id = r.event_reg.event.session_id in
    let m = record r.meta { seq_number = t.not_ackd; length = g.length } in
    (
      record r {
        fsm_state = g.fsm_state;
        event_reg = with_type g.kind r.event_reg;
        meta = m;
        remaining_window = (t.min_window + 2 ^ 19 - g.next_used_length) % 2 ^ 19;
        curr_length = g.next_curr_length;
        used_length = g.next_used_length;
        tx_sar = record t { not_ackd = g.not_ackd };
        tx_rx_sar_loaded = true;
      },
      send_data id t.not_ackd m (record nothing {
        set_ptimer = if g.set_ptimer then some id else none;
        tx_sar_req = if g.write_back then some (tx_sar_write id g.not_ackd) else none;
      }),
    )

-- The usable window of the segments after the first.
abbrev pub usable_again : Regs → ℕ
usable_again r =
    if r.remaining_window / buffer_size % 2 == 0 then r.remaining_window % buffer_size else 0

-- The first segment, with the answers of the two tables, and the ones that follow.
unfoldable pub on_tx_first : Regs → RxSarLookupRsp → TxSarToTxEngRsp → Regs × Outs
on_tx_first r a t =
    send_segment (record r { rx_sar = a; meta = ack_meta r a t.not_ackd }) t
      (next_segment t t.curr_length t.used_length t.usable_window)

unfoldable pub on_tx_again : Regs → Regs × Outs
on_tx_again r =
    send_segment r r.tx_sar (next_segment r.tx_sar r.curr_length r.used_length (usable_again r))
