-- ===== src/Tests/Lookups.antt =====
-- The session lookup of hls/toe/session_lookup_controller on concrete requests.
use tcp_offload_engine_shell.Prelude.{◌^◌, ◌≤◌, ◌<◌, ◌≡◌, ◌==◌, refl, true, false, [], ◌∷◌, arith}
use tcp_offload_engine_shell.Conn.Tables.{tcp_max_sessions}
use tcp_offload_engine_shell.Conn.Messages.{FourTuple, no_tuple}
use tcp_offload_engine_shell.Conn.Sessions.{
  SlookupToRevTableUpdReq, RtlCamToSlookupLupRsp, rx, tx_app,
}
use tcp_offload_engine_shell.SessionLookup.State.{State, lup_req, lup_rsp}
use tcp_offload_engine_shell.SessionLookup.Reverse.{session_lookup_controller}
use tcp_offload_engine_shell.SessionLookup.Ids.{placed, Conserved, Step, Reach, sessions_bounded}
use tcp_offload_engine_shell.SessionLookup.Answers.{lookups, lookups_answered_once}

abbrev client : FourTuple
client = record {
  src_ip_addr = 0x0500a8c0;
  dst_ip_addr = 0x0900a8c0;
  src_tcp_port = 0x0180;
  dst_tcp_port = 0x5000;
}

-- Nothing has happened yet.
abbrev start : State
start = record {
  cur_session_id = 0;
  released_id = [];
  available_id = [];
  slc_fsm_state = lup_req;
  to_cam_req_cache = record { tuple = no_tuple; allow_creation = false; source = rx; role_id = 0 };
  to_cam_req_cache_valid = false;
  to_rev_table_req_cache = record { tuple = no_tuple; role_id = 0 };
  to_rev_table_req_cache_valid = false;
  rx_eng_req = [];
  rx_eng_rsp = [];
  tx_app_req = record { four_tuple = client; role_id = 2 } ∷ [];
  tx_app_rsp = [];
  cam_lookup_req = [];
  cam_lookup_rsp = [];
  cam_insert_req = [];
  cam_insert_rsp = [];
  rev_table_insert_req = [];
  used_session_id_cnt = 0;
  reg_session_cnt = 0;
  cam_delete_req = [];
  cam_update_req = [];
  cam_update_rsp = [];
  slookup_rev_table = λ id. record { tuple = no_tuple; role_id = 0 };
  valid_tuple = λ id. false;
  release_req = [];
  rx_app_tdest_req = [];
  rx_app_tdest_rsp = [];
  tx_app_tdest_req = [];
  tx_app_tdest_rsp = [];
  tx_eng_rev_req = [];
  tx_eng_rev_rsp = [];
  release_port_req = [];
}

-- The CAM's answer to the tx app's lookup has come: no such session.
abbrev miss : RtlCamToSlookupLupRsp
miss = record { session_id = 0; hit = false; source = tx_app }

abbrev missed : State
missed = record start {
  tx_app_req = [];
  available_id = 9 ∷ 10 ∷ [];
  slc_fsm_state = lup_rsp;
  to_cam_req_cache = record { tuple = client; allow_creation = true; source = tx_app; role_id = 2 };
  to_cam_req_cache_valid = true;
  cam_lookup_rsp = miss ∷ [];
}

lookups_answered_once_example : lookups (session_lookup_controller missed) ≡ 1
lookups_answered_once_example = lookups_answered_once missed

start-Conserved : Conserved start
start-Conserved = record { made = omega arith; all_placed = refl }

-- Two calls: two ids have been made.
abbrev called : State
called = session_lookup_controller (session_lookup_controller start)

called-Reach : Reach start called
called-Reach = Reach.next (Reach.next Reach.here (Step.call refl)) (Step.call refl)

sessions_bounded_example :
    Conserved called × (placed called < 2 ^ 16 → called.used_session_id_cnt ≤ tcp_max_sessions)
sessions_bounded_example = sessions_bounded start start-Conserved called-Reach

abbrev entry : SlookupToRevTableUpdReq
entry = record { key = 9; tuple_value = client; role_value = 2 }

abbrev entering : State
entering = record start { rev_table_insert_req = entry ∷ [] }

-- Session 9 is entered, and released by two sides.
abbrev releasing : State
releasing = record start {
  slookup_rev_table = λ id. record { tuple = client; role_id = 2 };
  valid_tuple = λ id. id == 9;
  release_req = 9 ∷ 9 ∷ [];
}
