-- ===== src/RxEngine/Fsm/Windows.antt =====
-- What a segment does to the two windows: data is taken in order and where it fits, and the
-- acknowledgment moves within what was sent.
use tcp_offload_engine_shell.Prelude.{
  ℕ, ◌+◌, ◌-◌, ◌*◌, ◌%◌, ◌^◌, ◌≤◌, ◌<◌, ◌≡◌, ◌≢◌, ◌↔◌, true, false, some, none, arith,
}
use tcp_offload_engine_shell.Conn.Tables.{
  RxSarTableEntry, TxSarToRxEngRsp, RxEngToTxSarReq, SessionState, buffer_size, tcp_mss,
}
use tcp_offload_engine_shell.Conn.Messages.{Event, rt, mem_buffer_rw_cmd}
use tcp_offload_engine_shell.RxSar.{free_space}
use tcp_offload_engine_shell.RxEngine.Segment.{RxEngFsmMetaData}
use tcp_offload_engine_shell.RxEngine.Ack.{on_ack, note_ack, is_valid_ack, takes_ack}

-- The payload of an ACK segment is kept only if it is in order and shorter than the free part of
-- the buffer; the request to the rx SAR table then makes the byte behind it the next one expected,
-- the memory gets it at its place in the session's buffer, and the application is told its length.
-- If it is not kept, none of this happens. A payload that is not empty, in order and shorter than
-- the free part is kept if the acknowledgment with it is taken.
pub payload_in_order :
    (m : RxEngFsmMetaData) (s : SessionState) (r : RxSarTableEntry) (t : TxSarToRxEngRsp)
    → let o = (on_ack m s r t).1 in
      (o.payload_dropped ≡ some false
        → (m.header.seq_number ≡ r.recvd)
          × (m.header.payload_length < free_space r)
          × (o.rx_sar_req
              ≡ some (record {
                session_id = m.session_id;
                recvd = (r.recvd + m.header.payload_length) % 2 ^ 32;
                win_shift = 0;
                write = true;
                init = false;
              }))
          × (o.mem_cmd
              ≡ some (
                  mem_buffer_rw_cmd
                    (m.session_id % 2 ^ 13 * 2 ^ 18 + r.recvd % 2 ^ 18)
                    m.header.payload_length))
          × (o.rx_app_notification
              ≡ some (record {
                session_id = m.session_id;
                length = m.header.payload_length;
                ip_addr = m.src_ip;
                dst_tcp_port = m.dst_port;
                closed = false;
              })))
      × (o.payload_dropped ≢ some false
          → (o.rx_sar_req ≡ none) × (o.mem_cmd ≡ none) × (o.rx_app_notification ≡ none))
      × (o.tx_sar_req ≢ none
          → m.header.payload_length ≢ 0
          → m.header.seq_number ≡ r.recvd
          → m.header.payload_length < free_space r
          → o.payload_dropped ≡ some false)
unfolding on_ack
payload_in_order m s r t = (
  λ h. (ground arith, ground arith, ground arith, ground arith, ground arith),
  λ h. ground arith,
  λ n l e f. ground arith,
)

-- How far a number lies behind another, around the end of the 32-bit numbers.
abbrev pub ahead : ℕ → ℕ → ℕ
ahead a b = (b + 2 ^ 32 - a) % 2 ^ 32

is_valid_ack-ahead :
    (m : RxEngFsmMetaData) (t : TxSarToRxEngRsp)
    → t.perv_ack < 2 ^ 32
    → t.next_byte < 2 ^ 32
    → m.header.ack_number < 2 ^ 32
    → (is_valid_ack m t ≡ true)
      ↔ (ahead t.perv_ack m.header.ack_number ≤ ahead t.perv_ack t.next_byte)
is_valid_ack-ahead m t a b c = (λ h. ground arith, λ h. ground arith)

note_ack-numbers :
    (m : RxEngFsmMetaData) (t : TxSarToRxEngRsp)
    → ((note_ack m t).perv_ack ≡ t.perv_ack) × ((note_ack m t).next_byte ≡ t.next_byte)
unfolding note_ack
note_ack-numbers m t = ground arith

tx_sar_req_is_valid :
    (m : RxEngFsmMetaData) (s : SessionState) (r : RxSarTableEntry) (t : TxSarToRxEngRsp)
    → takes_ack s ≡ true
    → ((on_ack m s r t).1.tx_sar_req ≢ none) ↔ (is_valid_ack m (note_ack m t) ≡ true)
unfolding on_ack
tx_sar_req_is_valid m s r t h = (λ n. ground arith, λ n e. ground arith)

-- In a state that takes acknowledgments, the tx SAR table is updated exactly when the acknowledged
-- number is at most as far ahead of the last one as the next byte to send is, counted around the
-- end of the 32-bit numbers.
pub ack_taken_in_range :
    (m : RxEngFsmMetaData) (s : SessionState) (r : RxSarTableEntry) (t : TxSarToRxEngRsp)
    → takes_ack s ≡ true
    → t.perv_ack < 2 ^ 32
    → t.next_byte < 2 ^ 32
    → m.header.ack_number < 2 ^ 32
    → ((on_ack m s r t).1.tx_sar_req ≢ none)
      ↔ (ahead t.perv_ack m.header.ack_number ≤ ahead t.perv_ack t.next_byte)
ack_taken_in_range m s r t h a b c =
    let (prev, next) = note_ack-numbers m t in
    let same = is_valid_ack-ahead m t a b c in
    let sent = tx_sar_req_is_valid m s r t h in
    (λ n. same.0 (ground (arith, sent.0 n)), λ n. sent.1 (ground (arith, same.1 n)))

-- If the values read from the tx SAR table have the fast-retransmit mark whenever they count three
-- repeated acknowledgments, then no ACK segment leads to a retransmission event, and the update
-- written has the mark under the same condition.
pub no_fast_retransmit :
    (m : RxEngFsmMetaData) (s : SessionState) (r : RxSarTableEntry) (t : TxSarToRxEngRsp)
    → (t.retrans_count ≡ 3 → t.fast_retrans ≡ true)
    → ((e : Event) → (on_ack m s r t).1.event_out ≡ some e → e.kind ≢ rt)
      × ((q : RxEngToTxSarReq)
          → (on_ack m s r t).1.tx_sar_req ≡ some q
          → q.retrans_count ≡ 3
          → q.fast_retrans ≡ true)
unfolding on_ack
no_fast_retransmit m s r t h = (λ e p x. ground arith, λ q p x. ground arith)

-- If the congestion window and the threshold are within 18 bits, the window never shrinks on an ACK
-- segment, grows by at most one segment size, and stays within its 18 bits.
pub cong_window_grows :
    (m : RxEngFsmMetaData) (s : SessionState) (r : RxSarTableEntry) (t : TxSarToRxEngRsp)
    → t.cong_window < buffer_size
    → t.slowstart_threshold < buffer_size
    → (t.cong_window ≤ (on_ack m s r t).0.cong_window)
      × ((on_ack m s r t).0.cong_window ≤ t.cong_window + tcp_mss)
      × ((on_ack m s r t).0.cong_window < buffer_size)
unfolding on_ack
cong_window_grows m s r t a b = ground arith
