-- ===== src/Conn/Tables.antt =====
-- hls/toe/toe_config.hpp, and of hls/toe/toe_conn.hpp the connection states and the messages of the
-- state table, the port table and the two SAR (segmentation and reassembly) tables.
use tcp_offload_engine_shell.Prelude.{ℕ, ◌+◌, ◌*◌, ◌/◌, ◌-◌, ◌%◌, ◌^◌, ◌==◌, Bool, true, false}

abbrev pub tcp_max_sessions : ℕ
tcp_max_sessions = 128

abbrev pub tcp_mss : ℕ
tcp_mss = 1460

abbrev pub tcp_mss_ten_times : ℕ
tcp_mss_ten_times = 14600

abbrev pub tcp_max_retx_attempts : ℕ
tcp_max_retx_attempts = 4

abbrev pub window_scale_bits : ℕ
window_scale_bits = 2

-- WINDOW_BITS is 18: a `TcpSessionBuffer` counts below the size of a session's buffer.
abbrev pub buffer_size : ℕ
buffer_size = 2 ^ 18

abbrev pub congestion_window_max : ℕ
congestion_window_max = buffer_size - 2048

-- `SwapByte<16>` of hls/utils/axi_utils.hpp.
abbrev pub swap_byte16 : ℕ → ℕ
swap_byte16 w = w % 2 ^ 8 * 2 ^ 8 + w / 2 ^ 8

pub data SessionState : Type 0 where
  closed syn_sent syn_received established : SessionState
  fin_wait_1 fin_wait_2 closing time_wait last_ack : SessionState

-- The value of the enumerator.
abbrev pub state_code : SessionState → ℕ
state_code SessionState.closed = 0
state_code SessionState.syn_sent = 1
state_code SessionState.syn_received = 2
state_code SessionState.established = 3
state_code SessionState.fin_wait_1 = 4
state_code SessionState.fin_wait_2 = 5
state_code SessionState.closing = 6
state_code SessionState.time_wait = 7
state_code SessionState.last_ack = 8

abbrev pub same_state : SessionState → SessionState → Bool
same_state a b = state_code a == state_code b

pub record PortTableEntry : Type 0 where
  pub is_open : Bool
  pub role_id : ℕ

pub record ListenPortReq : Type 0 where
  pub port : ℕ
  pub dest : ℕ

pub record ListenPortRsp : Type 0 where
  pub port_number : ℕ
  pub open_successfully : Bool
  pub wrong_port_number : Bool
  pub already_open : Bool
  pub dest : ℕ

pub record PtableToRxEngRsp : Type 0 where
  pub is_open : Bool
  pub role_id : ℕ

pub record StateTableReq : Type 0 where
  pub session_id : ℕ
  pub state : SessionState
  pub write : Bool

-- The three constructors: a read, and a write.
abbrev pub state_read : ℕ → StateTableReq
state_read id = record { session_id = id; state = SessionState.closed; write = false }

abbrev pub state_write : ℕ → SessionState → StateTableReq
state_write id s = record { session_id = id; state = s; write = true }

pub record RxSarTableEntry : Type 0 where
  pub recvd : ℕ
  pub app_read : ℕ
  pub win_shift : ℕ

pub record RxSarLookupRsp : Type 0 where
  pub recvd : ℕ
  pub win_shift : ℕ
  pub win_size : ℕ

pub record RxEngToRxSarReq : Type 0 where
  pub recvd : ℕ
  pub session_id : ℕ
  pub win_shift : ℕ
  pub write : Bool
  pub init : Bool

-- `win_shift` of a read is not initialised, and nothing reads it.
abbrev pub rx_sar_read : ℕ → RxEngToRxSarReq
rx_sar_read id = record { recvd = 0; session_id = id; win_shift = 0; write = false; init = false }

abbrev pub rx_sar_write : ℕ → ℕ → RxEngToRxSarReq
rx_sar_write id recvd = record {
  recvd = recvd;
  session_id = id;
  win_shift = 0;
  write = true;
  init = false;
}

abbrev pub rx_sar_init : ℕ → ℕ → ℕ → RxEngToRxSarReq
rx_sar_init id recvd wsopt = record {
  recvd = recvd;
  session_id = id;
  win_shift = wsopt % 2 ^ window_scale_bits;
  write = true;
  init = true;
}

pub record RxSarAppReqRsp : Type 0 where
  pub session_id : ℕ
  pub app_read : ℕ
  pub write : Bool

-- The default constructor of `RxEngToTxSarReq` and the entry of a static table: all zero.
pub record TxSarTableEntry : Type 0 where
  pub ackd : ℕ
  pub not_ackd : ℕ
  pub recv_window : ℕ
  pub app_written : ℕ
  pub cong_window : ℕ
  pub slowstart_threshold : ℕ
  pub win_shift : ℕ
  pub retrans_count : ℕ
  pub fast_retrans : Bool
  pub fin_is_ready : Bool
  pub fin_is_sent : Bool

pub record RxEngToTxSarReq : Type 0 where
  pub session_id : ℕ
  pub ackd : ℕ
  pub recv_window : ℕ
  pub retrans_count : ℕ
  pub fast_retrans : Bool
  pub win_shift : ℕ
  pub win_shift_write : Bool
  pub cong_window : ℕ
  pub write : Bool

abbrev pub tx_sar_read : ℕ → RxEngToTxSarReq
tx_sar_read id = record {
  session_id = id;
  ackd = 0;
  recv_window = 0;
  retrans_count = 0;
  fast_retrans = false;
  win_shift = 0;
  win_shift_write = false;
  cong_window = 0;
  write = false;
}

pub record TxSarToRxEngRsp : Type 0 where
  pub perv_ack : ℕ
  pub next_byte : ℕ
  pub cong_window : ℕ
  pub slowstart_threshold : ℕ
  pub retrans_count : ℕ
  pub fast_retrans : Bool
  pub win_shift : ℕ

pub record TxEngToTxSarReq : Type 0 where
  pub session_id : ℕ
  pub not_ackd : ℕ
  pub write : Bool
  pub init : Bool
  pub fin_is_ready : Bool
  pub fin_is_sent : Bool
  pub retrans_req : Bool

pub record TxSarToTxEngRsp : Type 0 where
  pub ackd : ℕ
  pub not_ackd : ℕ
  pub min_window : ℕ
  pub app_written : ℕ
  pub fin_is_ready : Bool
  pub fin_is_sent : Bool
  pub curr_length : ℕ
  pub used_length : ℕ
  pub used_length_rst : ℕ
  pub usable_window : ℕ
  pub ackd_eq_not_ackd : Bool
  pub not_ackd_short : ℕ
  pub not_ackd_plus_mss : ℕ
  pub win_shift : ℕ

pub record TxAppToTxSarReq : Type 0 where
  pub session_id : ℕ
  pub app_written : ℕ

pub record TxSarToTxAppReq : Type 0 where
  pub session_id : ℕ
  pub ackd : ℕ
  pub init : Bool
