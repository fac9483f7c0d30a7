-- ===== src/SessionLookup/Lookup.antt =====
-- `GetNewAvailableSessionId`, `CamLookupRspHandler`, `CamUpdateReqSender` and `CamUpdateRspHandler`
-- of hls/toe/session_lookup_controller/session_lookup_controller.cpp.
use tcp_offload_engine_shell.Prelude.{
  ◌+◌, ◌-◌, ◌%◌, ◌^◌, Bool, true, false, not, ◌&&◌, none, some, [], ◌∷◌, ◌++◌, ltb, if◌then◌else◌,
  read, read_if,
}
use tcp_offload_engine_shell.Conn.Tables.{tcp_max_sessions}
use tcp_offload_engine_shell.Conn.Sessions.{
  RxEngToSlookupReq, TxAppToSlookupReq, SessionLookupRsp, SlookupSource, SlookupOp,
  RtlCamToSlookupLupRsp, RtlCamToSlookupUpdRsp, SlookupReqInternal,
}
use tcp_offload_engine_shell.SessionLookup.State.{State, SlookupFsmState}

-- `GetNewAvailableSessionId`: a released id goes first; new ones end at TCP_MAX_SESSIONS.
unfoldable pub get_new_available_session_id : State → State
get_new_available_session_id s = elim (read s.released_id) [
  | some (id, rest) ↦ record s { released_id = rest; available_id = s.available_id ++ (id ∷ []) }
  | none ↦
      if ltb s.cur_session_id tcp_max_sessions
      then record s {
        available_id = s.available_id ++ (s.cur_session_id ∷ []);
        cur_session_id = (s.cur_session_id + 1) % 2 ^ 14;
      }
      else s
]

-- The request goes to the CAM and is kept until the answer comes.
ask_cam : State → SlookupReqInternal → State
ask_cam s q = record s {
  to_cam_req_cache = q;
  cam_lookup_req = s.cam_lookup_req ++ (record { key = q.tuple; source = q.source } ∷ []);
  to_cam_req_cache_valid = true;
  slc_fsm_state = SlookupFsmState.lup_rsp;
}

-- The tx app's tuple is the CAM's key; a received segment's is turned round.
from_tx_app : TxAppToSlookupReq → SlookupReqInternal
from_tx_app q = record {
  tuple = q.four_tuple;
  allow_creation = true;
  source = SlookupSource.tx_app;
  role_id = q.role_id;
}

from_rx_eng : RxEngToSlookupReq → SlookupReqInternal
from_rx_eng q = record {
  tuple = record {
    src_ip_addr = q.four_tuple.dst_ip_addr;
    dst_ip_addr = q.four_tuple.src_ip_addr;
    src_tcp_port = q.four_tuple.dst_tcp_port;
    dst_tcp_port = q.four_tuple.src_tcp_port;
  };
  allow_creation = q.allow_creation;
  source = SlookupSource.rx;
  role_id = q.role_id;
}

reply : SlookupSource → SessionLookupRsp → State → State
reply SlookupSource.rx a s = record s {
  rx_eng_rsp = s.rx_eng_rsp ++ (a ∷ []);
  slc_fsm_state = SlookupFsmState.lup_req;
}
reply SlookupSource.tx_app a s = record s {
  tx_app_rsp = s.tx_app_rsp ++ (a ∷ []);
  slc_fsm_state = SlookupFsmState.lup_req;
}

-- `case LUP_RSP`, with the CAM's answer.
lookup_answered : State → RtlCamToSlookupLupRsp → State
unfolding reply
lookup_answered s a =
    let q = s.to_cam_req_cache in
    let found =
      reply a.source (record { session_id = a.session_id; hit = a.hit; role_id = q.role_id }) s in
    elim (read_if (not a.hit && q.allow_creation) s.available_id) [
      | some (id, rest) ↦ record s {
        available_id = rest;
        cam_insert_req =
            s.cam_insert_req
            ++ (record { op = SlookupOp.insert; key = q.tuple; value = id; source = a.source }
                ∷ []);
        to_rev_table_req_cache = record { tuple = q.tuple; role_id = q.role_id };
        to_rev_table_req_cache_valid = true;
        slc_fsm_state = SlookupFsmState.upd_rsp;
      }
      | none ↦ found
    ]

-- `case UPD_RSP`, with the CAM's confirmation.
insert_answered : State → RtlCamToSlookupUpdRsp → State
unfolding reply
insert_answered s a =
    let e = s.to_rev_table_req_cache in
    reply a.source (record { session_id = a.session_id; hit = true; role_id = e.role_id })
      (record s {
        rev_table_insert_req =
            s.rev_table_insert_req
            ++ (record { key = a.session_id; tuple_value = e.tuple; role_value = e.role_id } ∷ []);
      })

handler_by : SlookupFsmState → State → State
unfolding ask_cam from_tx_app from_rx_eng lookup_answered insert_answered
handler_by SlookupFsmState.lup_req s = elim (read s.tx_app_req) [
  | some (q, rest) ↦ ask_cam (record s { tx_app_req = rest }) (from_tx_app q)
  | none ↦ elim (read s.rx_eng_req) [
    | some (q, rest) ↦ ask_cam (record s { rx_eng_req = rest }) (from_rx_eng q)
    | none ↦ s
  ]
]
handler_by SlookupFsmState.lup_rsp s = elim (read_if s.to_cam_req_cache_valid s.cam_lookup_rsp) [
  | some (a, rest) ↦
      lookup_answered (record s { cam_lookup_rsp = rest; to_cam_req_cache_valid = false }) a
  | none ↦ s
]
handler_by SlookupFsmState.upd_rsp s =
    elim (read_if s.to_rev_table_req_cache_valid s.cam_insert_rsp) [
      | some (a, rest) ↦
          insert_answered (record s { cam_insert_rsp = rest; to_rev_table_req_cache_valid = false })
            a
      | none ↦ s
    ]

-- `CamLookupRspHandler`.
unfoldable pub cam_lookup_rsp_handler : State → State
unfolding handler_by
cam_lookup_rsp_handler s = handler_by s.slc_fsm_state s

-- `CamUpdateReqSender`: inserts go before deletes, and a deleted id is released.
unfoldable pub cam_update_req_sender : State → State
cam_update_req_sender s = elim (read s.cam_insert_req) [
  | some (q, rest) ↦
      let n = (s.used_session_id_cnt + 1) % 2 ^ 16 in
      record s {
        cam_insert_req = rest;
        cam_update_req = s.cam_update_req ++ (q ∷ []);
        used_session_id_cnt = n;
        reg_session_cnt = n;
      }
  | none ↦ elim (read s.cam_delete_req) [
    | some (q, rest) ↦
        let n = (s.used_session_id_cnt + 2 ^ 16 - 1) % 2 ^ 16 in
        record s {
          cam_delete_req = rest;
          cam_update_req = s.cam_update_req ++ (q ∷ []);
          released_id = s.released_id ++ ((q.value % 2 ^ 14) ∷ []);
          used_session_id_cnt = n;
          reg_session_cnt = n;
        }
    | none ↦ s
  ]
]

abbrev is_insert : SlookupOp → Bool
is_insert SlookupOp.insert = true
is_insert SlookupOp.delete = false

-- `CamUpdateRspHandler`: only the confirmation of an insert is waited for.
unfoldable pub cam_update_rsp_handler : State → State
cam_update_rsp_handler s = elim (read s.cam_update_rsp) [
  | some (a, rest) ↦ record s {
    cam_update_rsp = rest;
    cam_insert_rsp = if is_insert a.op then s.cam_insert_rsp ++ (a ∷ []) else s.cam_insert_rsp;
  }
  | none ↦ s
]
