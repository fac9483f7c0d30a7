-- ===== src/RxEngine/Ack.antt =====
-- `RxEngTcpFsm` of hls/toe/rx_engine/rx_engine.cpp, `case 1`: a segment whose only flag is ACK.
use tcp_offload_engine_shell.Prelude.{
  ℕ, ◌+◌, ◌%◌, ◌^◌, Bool, true, false, not, ◌&&◌, ◌||◌, none, some, ◌==◌, ltb, leb, if◌then◌else◌,
}
use tcp_offload_engine_shell.Conn.Tables.{
  SessionState, RxSarTableEntry, TxSarToRxEngRsp, state_write, rx_sar_write, same_state, tcp_mss,
  congestion_window_max,
}
use tcp_offload_engine_shell.Conn.Messages.{EventType, event, rst_event}
use tcp_offload_engine_shell.RxSar.{free_space}
use tcp_offload_engine_shell.RxEngine.Segment.{
  RxEngFsmMetaData, Outs, nothing, payload_cmd, app_notification, tx_sar_update, rtimer_req,
}

-- Slow start, then congestion avoidance.
abbrev pub grow_cong_window : TxSarToRxEngRsp → ℕ
grow_cong_window t =
    if leb (t.cong_window + tcp_mss) t.slowstart_threshold
    then t.cong_window + tcp_mss
    else if leb t.cong_window congestion_window_max
    then t.cong_window + 1
    else t.cong_window

-- The acknowledgment repeats the last one while something is in flight.
abbrev pub is_old_ack : RxEngFsmMetaData → TxSarToRxEngRsp → Bool
is_old_ack m t = (m.header.ack_number == t.perv_ack) && not (t.perv_ack == t.next_byte)

-- `tx_sar_reg` after the acknowledgment. `retrans_count` has 2 bits.
unfoldable pub note_ack : RxEngFsmMetaData → TxSarToRxEngRsp → TxSarToRxEngRsp
note_ack m t =
    if is_old_ack m t
    then if m.header.payload_length == 0
      then record t { retrans_count = (t.retrans_count + 1) % 2 ^ 2 }
      else t
    else record t { cong_window = grow_cong_window t; retrans_count = 0; fast_retrans = false }

-- "new valid ACK": between the last one and the next byte to send, around the end of the numbers
-- too.
abbrev pub is_valid_ack : RxEngFsmMetaData → TxSarToRxEngRsp → Bool
is_valid_ack m t =
    (leb t.perv_ack m.header.ack_number && leb m.header.ack_number t.next_byte)
    || ((leb t.perv_ack m.header.ack_number || leb m.header.ack_number t.next_byte)
        && ltb t.next_byte t.perv_ack)

abbrev pub is_in_order : RxEngFsmMetaData → RxSarTableEntry → Bool
is_in_order m r = (m.header.seq_number == r.recvd) && ltb m.header.payload_length (free_space r)

-- The payload of a segment with a valid acknowledgment: taken if it is in order and fits.
unfoldable pub take_payload : RxEngFsmMetaData → RxSarTableEntry → Outs → Outs
take_payload m r o =
    if m.header.payload_length == 0
    then o
    else if is_in_order m r
    then record o {
      rx_sar_req =
          some
            (rx_sar_write m.session_id ((m.header.seq_number + m.header.payload_length) % 2 ^ 32));
      mem_cmd = some (payload_cmd m);
      rx_app_notification = some (app_notification m m.header.payload_length false);
      payload_dropped = some false;
    }
    else record o { payload_dropped = some true }

-- The event for the other side, sent only if the segment has data.
abbrev pub ack_event : RxEngFsmMetaData → TxSarToRxEngRsp → EventType
ack_event m t = if (t.retrans_count == 3) && not t.fast_retrans then EventType.rt else EventType.ack

-- The state after everything sent was acknowledged.
abbrev pub state_after_ack : SessionState → SessionState
state_after_ack SessionState.syn_received = SessionState.established
state_after_ack SessionState.closing = SessionState.time_wait
state_after_ack SessionState.last_ack = SessionState.closed
state_after_ack s = s

-- The state table's lock is released with the new state or the old one.
unfoldable pub finish_ack : RxEngFsmMetaData → SessionState → TxSarToRxEngRsp → Outs → Outs
finish_ack m s t o =
    if m.header.ack_number == t.next_byte
    then record o {
      sttable_req = some (state_write m.session_id (state_after_ack s));
      new_client_notification =
          if same_state s SessionState.syn_received
          then some (record {
            session_id = m.session_id;
            buffersize = 0;
            max_segment_size = 1460;
            tcp_nodelay = false;
            tcp_buffer_is_empty = true;
          })
          else none;
      set_ctimer = if same_state s SessionState.closing then some m.session_id else none;
    }
    else record o { sttable_req = some (state_write m.session_id s) }

abbrev pub takes_ack : SessionState → Bool
takes_ack s =
    same_state s SessionState.established
    || same_state s SessionState.syn_received
    || same_state s SessionState.fin_wait_1
    || same_state s SessionState.closing
    || same_state s SessionState.last_ack

-- A segment in a state that takes acknowledgments.
unfoldable pub on_ack_taken :
    RxEngFsmMetaData
    → SessionState
    → RxSarTableEntry
    → TxSarToRxEngRsp
    → Outs
    → TxSarToRxEngRsp × Outs
unfolding note_ack take_payload finish_ack
on_ack_taken m s r t stop =
    let t' = note_ack m t in
    let o = record stop { clear_ptimer = if is_old_ack m t then none else some m.session_id } in
    (
      t',
      if is_valid_ack m t'
          then finish_ack m s t' (
              take_payload m r (record o {
                tx_sar_req = some (tx_sar_update m t' ((t'.retrans_count == 3) || t'.fast_retrans));
                event_out =
                    if m.header.payload_length == 0
                    then none
                    else some (event (ack_event m t') m.session_id);
              }))
          else o,
    )

-- The whole case: `tx_sar_reg` afterwards, and what is written.
unfoldable pub on_ack :
    RxEngFsmMetaData → SessionState → RxSarTableEntry → TxSarToRxEngRsp → TxSarToRxEngRsp × Outs
unfolding on_ack_taken
on_ack m s r t =
    let stop = record nothing {
      clear_rtimer = some (rtimer_req m (m.header.ack_number == t.next_byte));
    } in
    if takes_ack s then on_ack_taken m s r t stop else (
      t,
      record stop {
        event_out = some (
            rst_event m.session_id ((m.header.seq_number + m.header.payload_length) % 2 ^ 32) true);
        payload_dropped = if m.header.payload_length == 0 then none else some true;
        sttable_req = some (state_write m.session_id s);
      },
    )
