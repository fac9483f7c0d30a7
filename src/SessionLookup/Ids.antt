-- ===== src/SessionLookup/Ids.antt =====
-- Where the session ids are: each id handed out once is in one place, and no more than
-- TCP_MAX_SESSIONS are handed out.
use tcp_offload_engine_shell.Prelude.{ℕ, ◌+◌, ◌%◌, ◌^◌, ◌≤◌, ◌<◌, ◌≡◌, arith, length, length-append}
use tcp_offload_engine_shell.Conn.Tables.{tcp_max_sessions}
use tcp_offload_engine_shell.SessionLookup.State.{State}
use tcp_offload_engine_shell.SessionLookup.Lookup.{
  get_new_available_session_id, cam_lookup_rsp_handler, cam_update_req_sender,
  cam_update_rsp_handler,
}
use tcp_offload_engine_shell.SessionLookup.Reverse.{
  reverse_table_interface, session_lookup_controller,
}

-- The ids that are free, on their way back, on their way to the CAM, and in the CAM.
abbrev pub placed : State → ℕ
placed s =
    length s.available_id + length s.released_id + length s.cam_insert_req + s.used_session_id_cnt

-- As many ids are placed as were made, modulo the 16 bits of the counter.
pub record Conserved (s : State) : Type 0 where
  pub made : s.cur_session_id ≤ tcp_max_sessions
  pub all_placed : placed s % 2 ^ 16 ≡ s.cur_session_id

get_new-Conserved : (s : State) → Conserved s → Conserved (get_new_available_session_id s)
unfolding get_new_available_session_id
get_new-Conserved s h = grind (arith, length-append)

handler-Conserved : (s : State) → Conserved s → Conserved (cam_lookup_rsp_handler s)
unfolding cam_lookup_rsp_handler
handler-Conserved s h = grind (arith, length-append)

sender-Conserved : (s : State) → Conserved s → Conserved (cam_update_req_sender s)
unfolding cam_update_req_sender
sender-Conserved s h = grind (arith, length-append)

rsp_handler-Conserved : (s : State) → Conserved s → Conserved (cam_update_rsp_handler s)
unfolding cam_update_rsp_handler
rsp_handler-Conserved s h = ground arith

reverse-Conserved : (s : State) → Conserved s → Conserved (reverse_table_interface s)
unfolding reverse_table_interface
reverse-Conserved s h = ground arith

call-Conserved : (s : State) → Conserved s → Conserved (session_lookup_controller s)
unfolding session_lookup_controller
call-Conserved s h =
    reverse-Conserved _
      (rsp_handler-Conserved _ (sender-Conserved _ (handler-Conserved _ (get_new-Conserved s h))))

-- What other modules do between two calls: they write to and read from their own streams.
abbrev pub SameInside : State → State → Type 0
SameInside s s' =
    (s'.cur_session_id ≡ s.cur_session_id)
    × (s'.available_id ≡ s.available_id)
    × (s'.released_id ≡ s.released_id)
    × (s'.cam_insert_req ≡ s.cam_insert_req)
    × (s'.used_session_id_cnt ≡ s.used_session_id_cnt)

pub data Step (s s' : State) : Type 0 where
  call : s' ≡ session_lookup_controller s → Step s s'
  outside : SameInside s s' → Step s s'

pub data Reach (s : State) : State → Type 0 where
  here : Reach s s
  next : {t u : State} → Reach s t → Step t u → Reach s u

Step-Conserved : (s s' : State) → Step s s' → Conserved s → Conserved s'
Step-Conserved s s' (Step.call e) h = rw e (call-Conserved s h)
Step-Conserved s s' (Step.outside e) h = ground arith

Reach-Conserved : (s : State) {t : State} → Conserved s → Reach s t → Conserved t
Reach-Conserved s h here = h
Reach-Conserved s h (next {t = t} {u = u} r st) = Step-Conserved t u st (Reach-Conserved s h r)

-- From a state where it holds, every state that is reached has it that as many ids are free, on
-- their way or counted as in use as were made, modulo 2 ^ 16, and that at most 128 were made; so if
-- all of them together are fewer than 2 ^ 16, then at most 128 sessions count as in use.
pub sessions_bounded :
    (s : State) {t : State}
    → Conserved s
    → Reach s t
    → Conserved t × (placed t < 2 ^ 16 → t.used_session_id_cnt ≤ tcp_max_sessions)
sessions_bounded s {t} h r =
    let c = Reach-Conserved s h r in (c, λ b. omega (arith, c.made, c.all_placed))
