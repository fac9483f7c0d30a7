-- ===== src/RxApp/Data/Reads.antt =====
-- A whole read of received data.
use tcp_offload_engine_shell.Words.Cut.{IsPacket}
use tcp_offload_engine_shell.Prelude.{
  ℕ, zero, suc, ◌+◌, ◌%◌, ◌≡◌, ◌≢◌, true, false, some, List, [], ◌∷◌, ◌++◌, length, map, arith,
}
use tcp_offload_engine_shell.Conn.Tables.{RxSarAppReqRsp, buffer_size}
use tcp_offload_engine_shell.Conn.Messages.{mem_buffer_rw_cmd}
use tcp_offload_engine_shell.RxEngine.Segment.{get_session_mem_addr}
use tcp_offload_engine_shell.Words.{NetAxisWord}
use tcp_offload_engine_shell.RxEngine.Dropper.Packets.{to_role}
use tcp_offload_engine_shell.RxApp.Data.{
  AppReadReq, Regs, Ins, Outs, nothing, wait_net_app_data_req, wait_data, rx_app_data_handler,
}

-- The variables, what the calls write, and the streams after `n` calls.
unfoldable pub calls : ℕ → Regs → Ins → Regs × List Outs × Ins
calls zero r i = (r, [], i)
calls (suc n) r i =
    let (r', o, i') = rx_app_data_handler r i in
    let (r'', os, i'') = calls n r' i' in (r'', o ∷ os, i'')

abbrev pub regs : ℕ → ℕ → Regs
regs len role = record {
  fsm_state = wait_net_app_data_req;
  rx_app_read_length = len;
  rx_app_role_id = role;
  net_app_data_lock = false;
}

abbrev pub sent : NetAxisWord → Outs
sent w = record nothing { recv_data = some w }

words_pass :
    (ws rest : List NetAxisWord) (len role : ℕ) (i : Ins)
    → IsPacket ws
    → calls
        (length ws)
        (record (regs len role) { fsm_state = wait_data; net_app_data_lock = true })
        (record i { mem_data = ws ++ rest })
      ≡ (regs len role, map (λ w. sent (to_role role w)) ws, record i { mem_data = rest })
unfolding calls rx_app_data_handler
words_pass [] rest len role i h = absurd h
words_pass (w ∷ []) rest len role i h = ground arith
words_pass (w ∷ v ∷ ws) rest len role i h = ground (arith, words_pass (v ∷ ws) rest len role i h.1)

-- A read of more than 0 bytes, with the SAR table's answer and a packet from memory waiting: two
-- calls and one for each word ask for the session's read pointer, answer the application, write
-- the pointer moved by the length, within the buffer, read the memory at the old pointer, and pass
-- on every word of the packet, in order, to the role that asked. Other requests wait until then.
pub read_delivers :
    (q : AppReadReq) (qs : List AppReadReq) (a : RxSarAppReqRsp) (as' : List RxSarAppReqRsp)
    (ws rest : List NetAxisWord) (len role : ℕ)
    → q.read_length ≢ 0
    → IsPacket ws
    → calls
        (suc (suc (length ws)))
        (regs len role)
        (record { recv_data_req = q ∷ qs; rx_sar_rsp = a ∷ as'; mem_data = ws ++ rest })
      ≡ (
        regs q.read_length q.dest,
        record nothing {
          rx_sar_req = some (record { session_id = q.session_id; app_read = 0; write = false });
        }
            ∷ record nothing {
              recv_data_rsp = some (a.session_id, q.dest);
              rx_sar_req = some (record {
                session_id = a.session_id;
                app_read = (a.app_read + q.read_length) % buffer_size;
                write = true;
              });
              mem_read_cmd =
                  some (
                    mem_buffer_rw_cmd (get_session_mem_addr a.session_id a.app_read) q.read_length);
            }
            ∷ map (λ w. sent (to_role q.dest w)) ws,
        record { recv_data_req = qs; rx_sar_rsp = as'; mem_data = rest },
      )
unfolding calls rx_app_data_handler
read_delivers q qs a as' ws rest len role h p = ground (
  arith,
  words_pass ws rest q.read_length q.dest
      (record { recv_data_req = qs; rx_sar_rsp = as'; mem_data = [] }) p,
)
