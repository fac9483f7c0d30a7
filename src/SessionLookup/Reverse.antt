-- ===== src/SessionLookup/Reverse.antt =====
-- `SlookupReverseTableInterface` of
-- hls/toe/session_lookup_controller/session_lookup_controller.cpp, and the whole
-- `session_lookup_controller`.
use tcp_offload_engine_shell.Prelude.{
  ℕ, true, false, none, some, [], ◌∷◌, ◌++◌, if◌then◌else◌, read, update,
}
use tcp_offload_engine_shell.Conn.Tables.{swap_byte16}
use tcp_offload_engine_shell.Conn.Sessions.{SlookupSource, SlookupOp, SlookupToRevTableUpdReq}
use tcp_offload_engine_shell.SessionLookup.State.{State}
use tcp_offload_engine_shell.SessionLookup.Lookup.{
  get_new_available_session_id, cam_lookup_rsp_handler, cam_update_req_sender,
  cam_update_rsp_handler,
}

-- INVALID_TDEST of hls/utils/axi_intf.hpp.
abbrev pub invalid_tdest : ℕ
invalid_tdest = 0xf

abbrev pub role_of : State → ℕ → ℕ
role_of s id = if s.valid_tuple id then (s.slookup_rev_table id).role_id else invalid_tdest

insert_entry : State → SlookupToRevTableUpdReq → State
insert_entry s q = record s {
  slookup_rev_table =
      update s.slookup_rev_table q.key (record { tuple = q.tuple_value; role_id = q.role_value });
  valid_tuple = update s.valid_tuple q.key true;
}

-- A session that has an entry gives back its port and its place in the CAM.
release_entry : State → ℕ → State
release_entry s id =
    let t = (s.slookup_rev_table id).tuple in
    record s {
      release_port_req =
          if s.valid_tuple id
          then s.release_port_req ++ (swap_byte16 t.src_tcp_port ∷ [])
          else s.release_port_req;
      cam_delete_req =
          if s.valid_tuple id
          then s.cam_delete_req
            ++ (record { op = SlookupOp.delete; key = t; value = id; source = SlookupSource.rx }
                ∷ [])
          else s.cam_delete_req;
      valid_tuple = update s.valid_tuple id false;
    }

-- `SlookupReverseTableInterface`.
unfoldable pub reverse_table_interface : State → State
unfolding insert_entry release_entry
reverse_table_interface s = elim (read s.rev_table_insert_req) [
  | some (q, rest) ↦ insert_entry (record s { rev_table_insert_req = rest }) q
  | none ↦ elim (read s.tx_eng_rev_req) [
    | some (id, rest) ↦
        let e = s.slookup_rev_table id in
        record s {
          tx_eng_rev_req = rest;
          tx_eng_rev_rsp =
              s.tx_eng_rev_rsp ++ (record { four_tuple = e.tuple; role_id = e.role_id } ∷ []);
        }
    | none ↦ elim (read s.rx_app_tdest_req) [
      | some (id, rest) ↦ record s {
        rx_app_tdest_req = rest;
        rx_app_tdest_rsp = s.rx_app_tdest_rsp ++ (role_of s id ∷ []);
      }
      | none ↦ elim (read s.tx_app_tdest_req) [
        | some (id, rest) ↦ record s {
          tx_app_tdest_req = rest;
          tx_app_tdest_rsp = s.tx_app_tdest_rsp ++ (role_of s id ∷ []);
        }
        | none ↦ elim (read s.release_req) [
          | some (id, rest) ↦ release_entry (record s { release_req = rest }) id
          | none ↦ s
        ]
      ]
    ]
  ]
]

-- One call of `session_lookup_controller`.
unfoldable pub session_lookup_controller : State → State
session_lookup_controller s = reverse_table_interface (
    cam_update_rsp_handler
      (cam_update_req_sender (cam_lookup_rsp_handler (get_new_available_session_id s))))
