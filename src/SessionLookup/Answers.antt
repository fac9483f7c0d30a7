-- ===== src/SessionLookup/Answers.antt =====
-- Each lookup request gets one answer, and what the answer says.
use tcp_offload_engine_shell.Prelude.{
  ℕ, ◌+◌, ◌≡◌, ◌⊎◌, true, false, List, [], ◌∷◌, ◌++◌, arith, length, length-append, ◌∙◌,
}
use tcp_offload_engine_shell.Conn.Sessions.{
  RtlCamToSlookupLupRsp, SessionLookupRsp, SlookupSource, insert,
}
use tcp_offload_engine_shell.SessionLookup.State.{State, SlookupFsmState, lup_rsp, upd_rsp, lup_req}
use tcp_offload_engine_shell.SessionLookup.Lookup.{
  get_new_available_session_id, cam_lookup_rsp_handler, cam_update_req_sender,
  cam_update_rsp_handler,
}
use tcp_offload_engine_shell.SessionLookup.Reverse.{
  reverse_table_interface, session_lookup_controller,
}

abbrev under_way : SlookupFsmState → ℕ
under_way SlookupFsmState.lup_req = 0
under_way _ = 1

-- Requests waiting, one under way, and answers given.
abbrev pub lookups : State → ℕ
lookups s =
    length s.rx_eng_req
    + length s.tx_app_req
    + under_way s.slc_fsm_state
    + length s.rx_eng_rsp
    + length s.tx_app_rsp

get_new-lookups : (s : State) → lookups (get_new_available_session_id s) ≡ lookups s
unfolding get_new_available_session_id
get_new-lookups s = ground arith

handler-lookups : (s : State) → lookups (cam_lookup_rsp_handler s) ≡ lookups s
unfolding cam_lookup_rsp_handler
handler-lookups s = grind (arith, length-append)

sender-lookups : (s : State) → lookups (cam_update_req_sender s) ≡ lookups s
unfolding cam_update_req_sender
sender-lookups s = ground arith

rsp_handler-lookups : (s : State) → lookups (cam_update_rsp_handler s) ≡ lookups s
unfolding cam_update_rsp_handler
rsp_handler-lookups s = ground arith

reverse-lookups : (s : State) → lookups (reverse_table_interface s) ≡ lookups s
unfolding reverse_table_interface
reverse-lookups s = ground arith

-- A call neither loses nor adds a lookup: the requests waiting, the one under way and the answers
-- given are as many after it as before.
pub lookups_answered_once : (s : State) → lookups (session_lookup_controller s) ≡ lookups s
unfolding session_lookup_controller
lookups_answered_once s =
    reverse-lookups _
    ∙ rsp_handler-lookups _
    ∙ sender-lookups _
    ∙ handler-lookups _
    ∙ get_new-lookups s

-- The answers to the side that asked.
abbrev pub answers_to : SlookupSource → State → List SessionLookupRsp
answers_to SlookupSource.rx s = s.rx_eng_rsp
answers_to SlookupSource.tx_app s = s.tx_app_rsp

-- When the CAM answers the lookup under way: a miss that may create a session takes the oldest free
-- id, if there is one, and asks the CAM to insert the tuple under it, with no answer yet; in every
-- other case the CAM's answer goes, with the role of the request, to the side that asked.
pub cam_answer_handled :
    (s : State) (a : RtlCamToSlookupLupRsp) (rest : List RtlCamToSlookupLupRsp)
    → s.slc_fsm_state ≡ lup_rsp
    → s.to_cam_req_cache_valid ≡ true
    → s.cam_lookup_rsp ≡ a ∷ rest
    → let s' = cam_lookup_rsp_handler s in
      ((id : ℕ) (ids : List ℕ)
        → a.hit ≡ false
        → s.to_cam_req_cache.allow_creation ≡ true
        → s.available_id ≡ id ∷ ids
        → (s'.available_id ≡ ids)
          × (s'.cam_insert_req
              ≡ s.cam_insert_req
                ++ (record {
                  op = insert;
                  key = s.to_cam_req_cache.tuple;
                  value = id;
                  source = a.source;
                }
                    ∷ []))
          × (s'.slc_fsm_state ≡ upd_rsp)
          × (s'.rx_eng_rsp ≡ s.rx_eng_rsp)
          × (s'.tx_app_rsp ≡ s.tx_app_rsp))
      × ((a.hit ≡ true) ⊎ (s.to_cam_req_cache.allow_creation ≡ false) ⊎ (s.available_id ≡ [])
          → (answers_to a.source s'
              ≡ answers_to a.source s
                ++ (record {
                  session_id = a.session_id;
                  hit = a.hit;
                  role_id = s.to_cam_req_cache.role_id;
                }
                    ∷ []))
            × (s'.cam_insert_req ≡ s.cam_insert_req)
            × (s'.available_id ≡ s.available_id)
            × (s'.slc_fsm_state ≡ lup_req))
unfolding cam_lookup_rsp_handler
cam_answer_handled s a rest f v q = (
  λ id ids h c e. (ground arith, ground arith, ground arith, ground arith, ground arith),
  λ h. (ground arith, ground arith, ground arith, ground arith),
)
