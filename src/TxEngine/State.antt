-- ===== src/TxEngine/State.antt =====
-- The static variables of `TxEngTcpFsm` of hls/toe/tx_engine/tx_engine.cpp, and what it writes.
use tcp_offload_engine_shell.Prelude.{
  ℕ, ◌+◌, ◌^◌, Bool, true, false, Option, none, some, List, ◌==◌, if◌then◌else◌,
}
use tcp_offload_engine_shell.Conn.Tables.{RxSarLookupRsp, TxSarToTxEngRsp, TxEngToTxSarReq}
use tcp_offload_engine_shell.Conn.Messages.{
  FourTuple, EventType, EventWithTuple, TxEngToRetransTimerReq, MemBufferRwCmd, mem_buffer_rw_cmd,
}
use tcp_offload_engine_shell.RxEngine.Segment.{get_session_mem_addr}

-- `length` is the length of the payload and the header's options.
pub record TxEngFsmMetaData : Type 0 where
  pub seq_number : ℕ
  pub ack_number : ℕ
  pub win_size : ℕ
  pub win_scale : ℕ
  pub length : ℕ
  pub ack : Bool
  pub rst : Bool
  pub syn : Bool
  pub fin : Bool
  pub role_id : ℕ

pub data FsmState : Type 0 where
  load transition : FsmState

-- `usable_window` and `ackd_eq_not_ackd` are left out: the first is never used, the second never
-- read.
pub record Regs : Type 0 where
  pub fsm_state : FsmState
  pub tx_rx_sar_loaded : Bool
  pub event_reg : EventWithTuple
  pub retrans_seg_cnt : ℕ
  pub rx_sar : RxSarLookupRsp
  pub tx_sar : TxSarToTxEngRsp
  pub meta : TxEngFsmMetaData
  pub curr_length : ℕ
  pub used_length : ℕ
  pub remaining_window : ℕ

pub record Ins : Type 0 where
  pub events : List EventWithTuple
  pub rx_sar_rsp : List RxSarLookupRsp
  pub tx_sar_rsp : List TxSarToTxEngRsp

-- What one call writes: at most one item to each stream. `read_count` tells whether the event
-- engine's count stream gets an item.
pub record Outs : Type 0 where
  pub read_count : Bool
  pub rx_sar_lup_req : Option ℕ
  pub tx_sar_req : Option TxEngToTxSarReq
  pub set_rtimer : Option TxEngToRetransTimerReq
  pub set_ptimer : Option ℕ
  pub rev_table_req : Option ℕ
  pub payload_length : Option ℕ
  pub meta_out : Option TxEngFsmMetaData
  pub mem_cmd : Option MemBufferRwCmd
  pub tuple_from_slookup : Option Bool
  pub four_tuple_out : Option FourTuple

abbrev pub nothing : Outs
nothing = record {
  read_count = false;
  rx_sar_lup_req = none;
  tx_sar_req = none;
  set_rtimer = none;
  set_ptimer = none;
  rev_table_req = none;
  payload_length = none;
  meta_out = none;
  mem_cmd = none;
  tuple_from_slookup = none;
  four_tuple_out = none;
}

-- The constructors of `TxEngToTxSarReq`: a read, and a write.
abbrev pub tx_sar_read : ℕ → TxEngToTxSarReq
tx_sar_read id = record {
  session_id = id;
  not_ackd = 0;
  write = false;
  init = false;
  fin_is_ready = false;
  fin_is_sent = false;
  retrans_req = false;
}

abbrev pub tx_sar_write : ℕ → ℕ → TxEngToTxSarReq
tx_sar_write id not_ackd = record (tx_sar_read id) { not_ackd = not_ackd; write = true }

-- `has_session_id` of a `RstEvent`.
abbrev pub retransmitted : EventWithTuple → Bool
retransmitted e = if e.event.retrans_cnt == 0 then false else true

-- The segment goes out along the tuple of its session.
abbrev pub send : ℕ → TxEngFsmMetaData → Outs → Outs
send id m o = record o {
  rev_table_req = some id;
  payload_length = some m.length;
  meta_out = some m;
  tuple_from_slookup = some true;
}

-- "Only send a packet if there is data": with its payload read from memory, from where `ptr` points
-- in the session's half of the buffers (`GetSessionMemAddr<0>` sets the top bit), and the
-- retransmit timer set.
abbrev pub send_data : ℕ → ℕ → TxEngFsmMetaData → Outs → Outs
send_data id ptr m o =
    if m.length == 0
    then o
    else send id m (record o {
      mem_cmd = some (mem_buffer_rw_cmd (2 ^ 31 + get_session_mem_addr id ptr) m.length);
      set_rtimer = some (record { session_id = id; kind = EventType.rt });
    })

-- The flags of a segment that carries data.
abbrev pub ack_meta : Regs → RxSarLookupRsp → ℕ → TxEngFsmMetaData
ack_meta r a seq = record r.meta {
  seq_number = seq;
  ack_number = a.recvd;
  win_size = a.win_size;
  ack = true;
  rst = false;
  syn = false;
  fin = false;
}
