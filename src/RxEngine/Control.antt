-- ===== src/RxEngine/Control.antt =====
-- `RxEngTcpFsm` of hls/toe/rx_engine/rx_engine.cpp, `case 2`, `case 3`, `case 5` and `default`:
-- segments with SYN, SYN and ACK, FIN and ACK, and all other flags.
use tcp_offload_engine_shell.Prelude.{
  ℕ, ◌+◌, ◌%◌, ◌^◌, Bool, true, false, not, ◌&&◌, ◌||◌, none, some, ◌==◌, if◌then◌else◌,
}
use tcp_offload_engine_shell.Conn.Tables.{
  SessionState, RxSarTableEntry, TxSarToRxEngRsp, state_write, rx_sar_write, rx_sar_init,
  same_state, window_scale_bits,
}
use tcp_offload_engine_shell.Conn.Messages.{EventType, Event, event, event_retrans, rst_event}
use tcp_offload_engine_shell.RxEngine.Segment.{
  RxEngFsmMetaData, Outs, nothing, payload_cmd, app_notification, tx_sar_update, tx_sar_open,
  rtimer_req,
}

-- The shift of the own window: on exactly if the peer announced one.
abbrev pub rx_win_scale : RxEngFsmMetaData → ℕ
rx_win_scale m = if m.header.win_scale == 0 then 0 else window_scale_bits

abbrev to_state : RxEngFsmMetaData → SessionState → Event → Outs → Outs
to_state m s e o = record o { sttable_req = some (state_write m.session_id s); event_out = some e }

-- `case 2`. In SYN_RECEIVED the sum `seq_number + 1` is compared without wrapping.
unfoldable pub on_syn : RxEngFsmMetaData → SessionState → RxSarTableEntry → TxSarToRxEngRsp → Outs
on_syn m s r t =
    let next = (m.header.seq_number + 1) % 2 ^ 32 in
    if same_state s SessionState.closed || same_state s SessionState.syn_sent
    then to_state m SessionState.syn_received (event EventType.syn_ack m.session_id)
        (record nothing {
          rx_sar_req = some (rx_sar_init m.session_id next (rx_win_scale m));
          tx_sar_req = some (tx_sar_open m t 0 (rx_win_scale m));
        })
    else if same_state s SessionState.syn_received
    then if m.header.seq_number + 1 == r.recvd
      then to_state m s (event_retrans EventType.syn_ack m.session_id 1) nothing
      else to_state m SessionState.closed (rst_event m.session_id next true) nothing
    else to_state m s (event EventType.ack_nodelay m.session_id) nothing

-- `case 3`.
unfoldable pub on_syn_ack : RxEngFsmMetaData → SessionState → TxSarToRxEngRsp → Outs
on_syn_ack m s t =
    let expected = m.header.ack_number == t.next_byte in
    let o = record nothing { clear_rtimer = some (rtimer_req m expected) } in
    if same_state s SessionState.syn_sent
    then if expected
      then to_state m SessionState.established (event EventType.ack_nodelay m.session_id)
          (record o {
            rx_sar_req =
                some
                  (rx_sar_init m.session_id ((m.header.seq_number + 1) % 2 ^ 32) (rx_win_scale m));
            tx_sar_req = some (tx_sar_open m t m.header.ack_number m.header.win_scale);
            tx_app_notification = some (record { session_id = m.session_id; success = true });
          })
      else to_state m SessionState.closed
          (rst_event m.session_id ((m.header.seq_number + m.header.payload_length + 1) % 2 ^ 32)
            true)
          o
    else to_state m s (event EventType.ack_nodelay m.session_id) o

abbrev pub takes_fin : SessionState → Bool
takes_fin s =
    same_state s SessionState.established
    || same_state s SessionState.fin_wait_1
    || same_state s SessionState.fin_wait_2

-- The payload of a FIN, and the word to the application that the connection is closed.
unfoldable pub take_fin_payload : RxEngFsmMetaData → SessionState → Outs → Outs
take_fin_payload m s o =
    if not (m.header.payload_length == 0)
    then record o {
      mem_cmd = some (payload_cmd m);
      rx_app_notification = some (app_notification m m.header.payload_length true);
      payload_dropped = some false;
    }
    else if same_state s SessionState.established
    then record o { rx_app_notification = some (app_notification m 0 true) }
    else o

unfoldable pub fin_state : RxEngFsmMetaData → SessionState → TxSarToRxEngRsp → Outs → Outs
fin_state m s t o =
    if same_state s SessionState.established
    then to_state m SessionState.last_ack (event EventType.fin m.session_id) o
    else if m.header.ack_number == t.next_byte
    then to_state m SessionState.time_wait (event EventType.ack m.session_id)
        (record o { set_ctimer = some m.session_id })
    else to_state m SessionState.closing (event EventType.ack m.session_id) o

-- `case 5`. The window scale in the request is a variable that this call has not set
-- (`tx_win_scale`); the table does not take it from a request without `win_shift_write`, and the
-- entry's shift stands for it.
unfoldable pub on_fin_ack :
    RxEngFsmMetaData → SessionState → RxSarTableEntry → TxSarToRxEngRsp → Outs
unfolding take_fin_payload fin_state
on_fin_ack m s r t =
    let o = record nothing {
      clear_rtimer = some (rtimer_req m (m.header.ack_number == t.next_byte));
    } in
    if takes_fin s && (r.recvd == m.header.seq_number)
    then fin_state m s t (
        take_fin_payload m s (record o {
          tx_sar_req = some (tx_sar_update m t t.fast_retrans);
          rx_sar_req = some (
              rx_sar_write m.session_id
                ((m.header.seq_number + m.header.payload_length + 1) % 2 ^ 32));
          clear_ptimer = some m.session_id;
        }))
    else to_state m s (event EventType.ack m.session_id)
        (record o { payload_dropped = if m.header.payload_length == 0 then none else some true })

-- `default`: a reset, or flags that are ignored.
unfoldable pub on_other : RxEngFsmMetaData → SessionState → RxSarTableEntry → TxSarToRxEngRsp → Outs
on_other m s r t =
    let release = record nothing { sttable_req = some (state_write m.session_id s) } in
    let close = record nothing {
      sttable_req = some (state_write m.session_id SessionState.closed);
      clear_rtimer = some (rtimer_req m true);
    } in
    if m.header.rst
    then if same_state s SessionState.syn_sent
      then if m.header.ack_number == t.next_byte
        then record close {
          tx_app_notification = some (record { session_id = m.session_id; success = false });
        }
        else release
      else if m.header.seq_number == r.recvd
      then record close { rx_app_notification = some (app_notification m 0 true) }
      else release
    else release
