-- ===== src/TxEngine/Control.antt =====
-- `TxEngTcpFsm` of hls/toe/tx_engine/tx_engine.cpp, the cases of the events that send no payload:
-- ACK, SYN, SYN_ACK, FIN and RST.
use tcp_offload_engine_shell.Prelude.{
  ℕ, ◌+◌, ◌-◌, ◌%◌, ◌^◌, true, false, Option, none, some, ◌==◌, if◌then◌else◌,
}
use tcp_offload_engine_shell.Conn.Tables.{
  RxSarLookupRsp, TxSarToTxEngRsp, TxEngToTxSarReq, buffer_size, window_scale_bits,
}
use tcp_offload_engine_shell.Conn.Messages.{EventType, EventWithTuple, get_ack_number}
use tcp_offload_engine_shell.TxEngine.State.{
  Regs, Outs, FsmState, TxEngFsmMetaData, nothing, tx_sar_write, retransmitted, send, ack_meta,
}

-- `case ACK` and `case ACK_NODELAY`.
unfoldable pub on_ack : Regs → RxSarLookupRsp → TxSarToTxEngRsp → Regs × Outs
on_ack r a t =
    let m = record (ack_meta r a t.not_ackd) { length = 0 } in
    (
      record r { fsm_state = FsmState.load; rx_sar = a; meta = m },
      send r.event_reg.event.session_id m nothing,
    )

-- The table's entry of a new connection starts behind the SYN.
abbrev pub first_write : ℕ → ℕ → TxEngToTxSarReq
first_write id isn = record (tx_sar_write id ((isn + 1) % 2 ^ 32)) { init = true }

-- `case SYN`: `t` is the answer of the table for a retransmitted one, and `isn` what `RandomVal`
-- returns for a new one.
unfoldable pub on_syn : ℕ → Regs → TxSarToTxEngRsp → Regs × Outs
on_syn isn r t =
    let id = r.event_reg.event.session_id in
    let again = retransmitted r.event_reg in
    let m = record r.meta {
      seq_number = if again then t.ackd else isn;
      ack_number = 0;
      win_size = 0xffff;
      win_scale = window_scale_bits;
      length = 8;
      ack = false;
      rst = false;
      syn = true;
      fin = false;
    } in
    (
      record r { fsm_state = FsmState.load; meta = m },
      send id m (record nothing {
        tx_sar_req = if again then none else some (first_write id isn);
        set_rtimer = some (record { session_id = id; kind = EventType.syn });
      }),
    )

-- `case SYN_ACK`: the window scale option only if the peer sent one.
unfoldable pub on_syn_ack : ℕ → Regs → RxSarLookupRsp → TxSarToTxEngRsp → Regs × Outs
on_syn_ack isn r a t =
    let id = r.event_reg.event.session_id in
    let again = retransmitted r.event_reg in
    let m = record r.meta {
      seq_number = if again then t.ackd else isn;
      ack_number = a.recvd;
      win_size = 0xffff;
      win_scale = a.win_shift;
      length = if a.win_shift == 0 then 4 else 8;
      ack = true;
      rst = false;
      syn = true;
      fin = false;
    } in
    (
      record r { fsm_state = FsmState.load; rx_sar = a; meta = m },
      send id m (record nothing {
        tx_sar_req = if again then none else some (first_write id isn);
        set_rtimer = some (record { session_id = id; kind = EventType.syn_ack });
      }),
    )

-- The FIN takes a sequence number, unless data still has to be sent before it: then only the table
-- is told that a FIN is ready.
abbrev pub fin_write : ℕ → TxSarToTxEngRsp → TxEngToTxSarReq
fin_write id t =
    let done = t.app_written == t.not_ackd % buffer_size in
    record (tx_sar_write id (if done then (t.not_ackd + 1) % 2 ^ 32 else t.not_ackd)) {
      fin_is_ready = true;
      fin_is_sent = done;
    }

-- `case FIN`: `t` is the answer of the table or what the segments before have left in the register.
unfoldable pub on_fin : Regs → RxSarLookupRsp → TxSarToTxEngRsp → Regs × Outs
on_fin r a t =
    let id = r.event_reg.event.session_id in
    let again = retransmitted r.event_reg in
    let seq = if again then (t.not_ackd + 2 ^ 32 - 1) % 2 ^ 32 else t.not_ackd in
    let m = record (ack_meta r a seq) { length = 0; fin = true } in
    let o = record nothing { tx_sar_req = if again then none else some (fin_write id t) } in
    (
      record r { fsm_state = FsmState.load; rx_sar = a; meta = m },
      if seq % buffer_size == t.app_written
          then send id m
              (record o { set_rtimer = some (record { session_id = id; kind = EventType.rt }) })
          else o,
    )

-- The constructor leaves `win_scale` and `role_id` unset; here they are 0.
abbrev pub rst_meta : ℕ → EventWithTuple → TxEngFsmMetaData
rst_meta seq e = record {
  seq_number = seq;
  ack_number = get_ack_number e.event;
  win_size = 0;
  win_scale = 0;
  length = 0;
  ack = true;
  rst = true;
  syn = false;
  fin = false;
  role_id = 0;
}

-- `case RST`: without a session along the event's own tuple; with one, the number that comes next,
-- if the table has answered (`t`), and nothing if not.
unfoldable pub on_rst : Regs → Option TxSarToTxEngRsp → Regs × Outs
on_rst r answer =
    let done = record r { fsm_state = FsmState.load } in
    if retransmitted r.event_reg
    then elim answer [
      | some t ↦ (done, send r.event_reg.event.session_id (rst_meta t.not_ackd r.event_reg) nothing)
      | none ↦ (done, nothing)
    ]
    else (
      done,
      record nothing {
        payload_length = some 0;
        meta_out = some (rst_meta 0 r.event_reg);
        tuple_from_slookup = some false;
        four_tuple_out = some r.event_reg.four_tuple;
      },
    )
