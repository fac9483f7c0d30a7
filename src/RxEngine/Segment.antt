-- ===== src/RxEngine/Segment.antt =====
-- hls/toe/tcp_header.hpp and hls/toe/rx_engine/rx_engine.hpp: what is known of a received segment,
-- and what `RxEngTcpFsm` writes for it.
use tcp_offload_engine_shell.Prelude.{
  ℕ, ◌+◌, ◌*◌, ◌%◌, ◌^◌, Bool, true, false, Option, none, if◌then◌else◌,
}
use tcp_offload_engine_shell.Conn.Tables.{
  RxEngToRxSarReq, RxEngToTxSarReq, StateTableReq, TxSarToRxEngRsp, buffer_size,
}
use tcp_offload_engine_shell.Conn.Messages.{
  Event, RxEngToRetransTimerReq, OpenConnRsp, NewClientNotification, AppNotification,
  MemBufferRwCmd, mem_buffer_rw_cmd,
}

-- `win_scale` is the peer's window scale option.
pub record TcpHeaderMeta : Type 0 where
  pub src_port : ℕ
  pub dest_port : ℕ
  pub seq_number : ℕ
  pub ack_number : ℕ
  pub win_size : ℕ
  pub data_offset : ℕ
  pub ack : Bool
  pub rst : Bool
  pub syn : Bool
  pub fin : Bool
  pub win_scale : ℕ
  pub payload_length : ℕ

abbrev pub flag : Bool → ℕ
flag b = if b then 1 else 0

-- The segment's length in sequence numbers, in 16 bits.
abbrev pub get_payload_length : TcpHeaderMeta → ℕ
get_payload_length h = (h.payload_length + flag h.fin + flag h.syn) % 2 ^ 16

-- The options are 320 bits, the first option in the low bits.
pub record TcpPseudoHeaderMeta : Type 0 where
  pub src_ip : ℕ
  pub dest_ip : ℕ
  pub header : TcpHeaderMeta
  pub tcp_options : ℕ

pub record RxEngFsmMetaData : Type 0 where
  pub session_id : ℕ
  pub src_ip : ℕ
  pub dst_port : ℕ
  pub header : TcpHeaderMeta
  pub role_id : ℕ

-- What one call of `RxEngTcpFsm` writes: at most one item to each stream.
pub record Outs : Type 0 where
  pub rx_sar_req : Option RxEngToRxSarReq
  pub tx_sar_req : Option RxEngToTxSarReq
  pub sttable_req : Option StateTableReq
  pub set_ctimer : Option ℕ
  pub clear_rtimer : Option RxEngToRetransTimerReq
  pub clear_ptimer : Option ℕ
  pub event_out : Option Event
  pub tx_app_notification : Option OpenConnRsp
  pub new_client_notification : Option NewClientNotification
  pub rx_app_notification : Option AppNotification
  pub mem_cmd : Option MemBufferRwCmd
  pub payload_dropped : Option Bool

abbrev pub nothing : Outs
nothing = record {
  rx_sar_req = none;
  tx_sar_req = none;
  sttable_req = none;
  set_ctimer = none;
  clear_rtimer = none;
  clear_ptimer = none;
  event_out = none;
  tx_app_notification = none;
  new_client_notification = none;
  rx_app_notification = none;
  mem_cmd = none;
  payload_dropped = none;
}

-- `GetSessionMemAddr<1>`: the session in bits 18 to 30, the place in its buffer below.
abbrev pub get_session_mem_addr : ℕ → ℕ → ℕ
get_session_mem_addr id app_rw = id % 2 ^ 13 * 2 ^ 18 + app_rw % buffer_size

-- The command that writes a segment's payload.
abbrev pub payload_cmd : RxEngFsmMetaData → MemBufferRwCmd
payload_cmd m =
    mem_buffer_rw_cmd (get_session_mem_addr m.session_id m.header.seq_number)
      m.header.payload_length

abbrev pub app_notification : RxEngFsmMetaData → ℕ → Bool → AppNotification
app_notification m length closed = record {
  session_id = m.session_id;
  length = length;
  ip_addr = m.src_ip;
  dst_tcp_port = m.dst_port;
  closed = closed;
}

-- The update of the tx SAR table from a segment and the values read from the table. The
-- seven-argument constructor leaves the stored window scale alone, the eight-argument one sets it.
abbrev pub tx_sar_update : RxEngFsmMetaData → TxSarToRxEngRsp → Bool → RxEngToTxSarReq
tx_sar_update m t fast = record {
  session_id = m.session_id;
  ackd = m.header.ack_number;
  recv_window = m.header.win_size;
  retrans_count = t.retrans_count;
  fast_retrans = fast;
  win_shift = t.win_shift;
  win_shift_write = false;
  cong_window = t.cong_window;
  write = true;
}

abbrev pub tx_sar_open : RxEngFsmMetaData → TxSarToRxEngRsp → ℕ → ℕ → RxEngToTxSarReq
tx_sar_open m t ackd win_scale = record {
  session_id = m.session_id;
  ackd = ackd;
  recv_window = m.header.win_size;
  retrans_count = 0;
  fast_retrans = false;
  win_shift = win_scale;
  win_shift_write = true;
  cong_window = t.cong_window;
  write = true;
}

-- "if ack number is expected, stop the retransmit timer".
abbrev pub rtimer_req : RxEngFsmMetaData → Bool → RxEngToRetransTimerReq
rtimer_req m stop = record { session_id = m.session_id; stop = stop }
