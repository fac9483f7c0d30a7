-- ===== src/Conn/Sessions.antt =====
-- Of hls/toe/toe_conn.hpp and hls/toe/session_lookup_controller/session_lookup_controller.hpp: the
-- messages of the session lookup and of the CAM behind it. The key is the four tuple
-- (MULTI_IP_ADDR).
use tcp_offload_engine_shell.Prelude.{ℕ, Bool}
use tcp_offload_engine_shell.Conn.Messages.{FourTuple}

pub record RxEngToSlookupReq : Type 0 where
  pub four_tuple : FourTuple
  pub allow_creation : Bool
  pub role_id : ℕ

pub record TxAppToSlookupReq : Type 0 where
  pub four_tuple : FourTuple
  pub role_id : ℕ

pub record ReverseTableToTxEngRsp : Type 0 where
  pub four_tuple : FourTuple
  pub role_id : ℕ

pub record SessionLookupRsp : Type 0 where
  pub session_id : ℕ
  pub hit : Bool
  pub role_id : ℕ

pub data SlookupSource : Type 0 where
  rx tx_app : SlookupSource

pub data SlookupOp : Type 0 where
  insert delete : SlookupOp

pub record RtlSlookupToCamLupReq : Type 0 where
  pub key : FourTuple
  pub source : SlookupSource

pub record RtlSlookupToCamUpdReq : Type 0 where
  pub op : SlookupOp
  pub key : FourTuple
  pub value : ℕ
  pub source : SlookupSource

pub record RtlCamToSlookupLupRsp : Type 0 where
  pub session_id : ℕ
  pub hit : Bool
  pub source : SlookupSource

pub record RtlCamToSlookupUpdRsp : Type 0 where
  pub op : SlookupOp
  pub key : FourTuple
  pub session_id : ℕ
  pub success : Bool
  pub source : SlookupSource

pub record RevTableEntry : Type 0 where
  pub tuple : FourTuple
  pub role_id : ℕ

pub record SlookupReqInternal : Type 0 where
  pub tuple : FourTuple
  pub allow_creation : Bool
  pub source : SlookupSource
  pub role_id : ℕ

pub record SlookupToRevTableUpdReq : Type 0 where
  pub key : ℕ
  pub tuple_value : FourTuple
  pub role_value : ℕ
