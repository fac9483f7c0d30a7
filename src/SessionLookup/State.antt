-- ===== src/SessionLookup/State.antt =====
-- The static variables of the five processes of hls/toe/session_lookup_controller and their
-- streams, those from and to other modules included.
use tcp_offload_engine_shell.Prelude.{ℕ, Bool, List}
use tcp_offload_engine_shell.Conn.Sessions.{
  RxEngToSlookupReq, TxAppToSlookupReq, ReverseTableToTxEngRsp, SessionLookupRsp,
  RtlSlookupToCamLupReq, RtlSlookupToCamUpdReq, RtlCamToSlookupLupRsp, RtlCamToSlookupUpdRsp,
  RevTableEntry, SlookupReqInternal, SlookupToRevTableUpdReq,
}

pub data SlookupFsmState : Type 0 where
  lup_req lup_rsp upd_rsp : SlookupFsmState

pub record State : Type 0 where
  -- GetNewAvailableSessionId
  pub cur_session_id : ℕ
  pub released_id : List ℕ
  pub available_id : List ℕ
  -- CamLookupRspHandler
  pub slc_fsm_state : SlookupFsmState
  pub to_cam_req_cache : SlookupReqInternal
  pub to_cam_req_cache_valid : Bool
  pub to_rev_table_req_cache : RevTableEntry
  pub to_rev_table_req_cache_valid : Bool
  pub rx_eng_req : List RxEngToSlookupReq
  pub rx_eng_rsp : List SessionLookupRsp
  pub tx_app_req : List TxAppToSlookupReq
  pub tx_app_rsp : List SessionLookupRsp
  pub cam_lookup_req : List RtlSlookupToCamLupReq
  pub cam_lookup_rsp : List RtlCamToSlookupLupRsp
  pub cam_insert_req : List RtlSlookupToCamUpdReq
  pub cam_insert_rsp : List RtlCamToSlookupUpdRsp
  pub rev_table_insert_req : List SlookupToRevTableUpdReq
  -- CamUpdateReqSender and CamUpdateRspHandler
  pub used_session_id_cnt : ℕ
  pub reg_session_cnt : ℕ
  pub cam_delete_req : List RtlSlookupToCamUpdReq
  pub cam_update_req : List RtlSlookupToCamUpdReq
  pub cam_update_rsp : List RtlCamToSlookupUpdRsp
  -- SlookupReverseTableInterface
  pub slookup_rev_table : ℕ → RevTableEntry
  pub valid_tuple : ℕ → Bool
  pub release_req : List ℕ
  pub rx_app_tdest_req : List ℕ
  pub rx_app_tdest_rsp : List ℕ
  pub tx_app_tdest_req : List ℕ
  pub tx_app_tdest_rsp : List ℕ
  pub tx_eng_rev_req : List ℕ
  pub tx_eng_rev_rsp : List ReverseTableToTxEngRsp
  pub release_port_req : List ℕ
