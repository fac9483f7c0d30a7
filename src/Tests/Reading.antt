-- ===== src/Tests/Reading.antt =====
-- Concrete reads of an application at hls/toe/rx_app_intf.
use tcp_offload_engine_shell.Prelude.{
  ℕ, ◌+◌, ◌-◌, ◌*◌, ◌≡◌, ◌^◌, refl, Bool, true, false, some, none, [], ◌∷◌, arith,
}
use tcp_offload_engine_shell.Conn.Tables.{buffer_size}
use tcp_offload_engine_shell.Conn.Messages.{AppNotification}
use tcp_offload_engine_shell.Words.{NetAxisWord}
use tcp_offload_engine_shell.RxApp.Data.{nothing}
use tcp_offload_engine_shell.RxApp.Data.Reads.{calls, regs, sent, read_delivers}
use tcp_offload_engine_shell.RxApp.Requests.{net_app_notification_tdest_handler}

abbrev word : ℕ → ℕ → Bool → NetAxisWord
word n role last = record { word = n; keep = 2 ^ 64 - 1; last = last; dest = role }

-- 100 bytes of session 5 for role 2, of which the last 40 stand at the start of the buffer.
read_delivers_example :
    calls 4 (regs 7 1) (record {
      recv_data_req = record { session_id = 5; read_length = 100; dest = 2 } ∷ [];
      rx_sar_rsp = record { session_id = 5; app_read = buffer_size - 60; write = false } ∷ [];
      mem_data = word 11 0 false ∷ word 12 0 true ∷ word 13 0 true ∷ [];
    })
    ≡ (
      regs 100 2,
      record nothing { rx_sar_req = some (record { session_id = 5; app_read = 0; write = false }) }
          ∷ record nothing {
            recv_data_rsp = some (5, 2);
            rx_sar_req = some (record { session_id = 5; app_read = 40; write = true });
            mem_read_cmd = some (record {
              addr = 6 * buffer_size - 60;
              length = 100;
              next_addr = buffer_size + 40;
            });
          }
          ∷ sent (word 11 2 false)
          ∷ sent (word 12 2 true)
          ∷ [],
      record { recv_data_req = []; rx_sar_rsp = []; mem_data = word 13 0 true ∷ [] },
    )
read_delivers_example =
    read_delivers (record { session_id = 5; read_length = 100; dest = 2 }) []
      (record { session_id = 5; app_read = buffer_size - 60; write = false }) []
      (word 11 0 false ∷ word 12 0 true ∷ []) (word 13 0 true ∷ []) 7 1 (omega arith) (refl, refl)

abbrev notice : AppNotification
notice = record { session_id = 5; length = 100; ip_addr = 1; dst_tcp_port = 80; closed = false }

-- The next notification waits until the role of this one is known.
tdest_handler_run :
    net_app_notification_tdest_handler
      (record { tdest_req_lock = true; notify_reg = notice })
      (record { app_notification_no_tdest = notice ∷ []; tdest_lookup_rsp = 2 ∷ [] })
    ≡ (
      record { tdest_req_lock = false; notify_reg = notice },
      record { tdest_lookup_req = none; net_app_notification = some (notice, 2) },
      record { app_notification_no_tdest = notice ∷ []; tdest_lookup_rsp = [] },
    )
unfolding net_app_notification_tdest_handler
tdest_handler_run = refl
