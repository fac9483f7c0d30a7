-- ===== src/Conn/Messages.antt =====
-- Of hls/toe/toe_conn.hpp: events, timer requests and the notifications to the applications.
use tcp_offload_engine_shell.Prelude.{ℕ, ◌+◌, ◌*◌, ◌/◌, ◌%◌, ◌^◌, ◌==◌, Bool, if◌then◌else◌}

-- IP addresses and ports are in network byte order.
pub record FourTuple : Type 0 where
  pub src_ip_addr : ℕ
  pub dst_ip_addr : ℕ
  pub src_tcp_port : ℕ
  pub dst_tcp_port : ℕ

abbrev pub no_tuple : FourTuple
no_tuple = record { src_ip_addr = 0; dst_ip_addr = 0; src_tcp_port = 0; dst_tcp_port = 0 }

pub data EventType : Type 0 where
  tx rt ack syn syn_ack fin rst ack_nodelay rt_cont : EventType

-- The value of the enumerator.
abbrev pub event_code : EventType → ℕ
event_code EventType.tx = 0
event_code EventType.rt = 1
event_code EventType.ack = 2
event_code EventType.syn = 3
event_code EventType.syn_ack = 4
event_code EventType.fin = 5
event_code EventType.rst = 6
event_code EventType.ack_nodelay = 7
event_code EventType.rt_cont = 8

abbrev pub same_event : EventType → EventType → Bool
same_event a b = event_code a == event_code b

pub record Event : Type 0 where
  pub kind : EventType
  pub session_id : ℕ
  pub buf_addr : ℕ
  pub length : ℕ
  pub retrans_cnt : ℕ

abbrev pub event : EventType → ℕ → Event
event t id = record { kind = t; session_id = id; buf_addr = 0; length = 0; retrans_cnt = 0 }

abbrev pub event_retrans : EventType → ℕ → ℕ → Event
event_retrans t id cnt = record {
  kind = t;
  session_id = id;
  buf_addr = 0;
  length = 0;
  retrans_cnt = cnt;
}

-- `RstEvent` keeps a sequence number in the fields `buf_addr` and `length`.
abbrev pub rst_event : ℕ → ℕ → Bool → Event
rst_event id seq has_session_id = record {
  kind = EventType.rst;
  session_id = id;
  buf_addr = seq / 2 ^ 16;
  length = seq % 2 ^ 16;
  retrans_cnt = if has_session_id then 1 else 0;
}

-- `seq(31, 16) = buf_addr` keeps the low 16 bits of the 18-bit field.
abbrev pub get_ack_number : Event → ℕ
get_ack_number e = e.buf_addr % 2 ^ 16 * 2 ^ 16 + e.length

pub record EventWithTuple : Type 0 where
  pub event : Event
  pub four_tuple : FourTuple

abbrev pub with_no_tuple : Event → EventWithTuple
with_no_tuple e = record { event = e; four_tuple = no_tuple }

pub record RxEngToRetransTimerReq : Type 0 where
  pub session_id : ℕ
  pub stop : Bool

pub record TxEngToRetransTimerReq : Type 0 where
  pub session_id : ℕ
  pub kind : EventType

pub record OpenConnRsp : Type 0 where
  pub session_id : ℕ
  pub success : Bool

pub record NewClientNotification : Type 0 where
  pub session_id : ℕ
  pub buffersize : ℕ
  pub max_segment_size : ℕ
  pub tcp_nodelay : Bool
  pub tcp_buffer_is_empty : Bool

pub record AppNotification : Type 0 where
  pub session_id : ℕ
  pub length : ℕ
  pub ip_addr : ℕ
  pub dst_tcp_port : ℕ
  pub closed : Bool

-- `next_addr` has WINDOW_BITS + 1 bits; its top bit says that the buffer ends within the access.
pub record MemBufferRwCmd : Type 0 where
  pub addr : ℕ
  pub length : ℕ
  pub next_addr : ℕ

abbrev pub mem_buffer_rw_cmd : ℕ → ℕ → MemBufferRwCmd
mem_buffer_rw_cmd addr length = record {
  addr = addr;
  length = length;
  next_addr = (addr % 2 ^ 18 + length) % 2 ^ 19;
}
