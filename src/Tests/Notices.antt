-- ===== src/Tests/Notices.antt =====
-- Concrete notifications and statuses at the rx engine's notification handler.
use tcp_offload_engine_shell.Prelude.{ℕ, ◌≡◌, refl, true, false, some, List, [], ◌∷◌, arith}
use tcp_offload_engine_shell.Conn.Messages.{AppNotification, EventType, event, with_no_tuple}
use tcp_offload_engine_shell.RxEngine.Notify.{read_notify, rx_eng_event_merger}
use tcp_offload_engine_shell.RxEngine.Notify.Statuses.{
  Access, calls, ready, streams, notified_in_order, failed_write_shifts_statuses,
}

abbrev notice : ℕ → ℕ → AppNotification
notice id length = record {
  session_id = id;
  length = length;
  ip_addr = 1;
  dst_tcp_port = 80;
  closed = false;
}

-- One write, two writes, and the end of a connection.
abbrev accesses : List Access
accesses = (notice 1 100, false) ∷ (notice 2 1460, true) ∷ (notice 1 0, false) ∷ []

notified_in_order_example :
    let (r, ns, i) = calls 6 (ready (notice 0 0) (notice 0 0)) (record {
      write_status = true ∷ true ∷ true ∷ [];
      double_access_flag = false ∷ true ∷ [];
      notification_cache = notice 1 100 ∷ notice 2 1460 ∷ notice 1 0 ∷ [];
    }) in
    (r.fsm_state ≡ read_notify)
    × (ns ≡ notice 1 100 ∷ notice 2 1460 ∷ notice 1 0 ∷ [])
    × (i ≡ streams [])
notified_in_order_example = notified_in_order accesses (notice 0 0) (notice 0 0)

-- The second write of session 2's data succeeds, and that of session 1 fails: session 1 is told of
-- its data all the same.
failed_write_shifts_statuses_example :
    let (r, ns, i) = calls 4 (ready (notice 0 0) (notice 0 0)) (record {
      write_status = false ∷ true ∷ false ∷ [];
      double_access_flag = true ∷ false ∷ [];
      notification_cache = notice 2 1460 ∷ notice 1 100 ∷ [];
    }) in
    (r.fsm_state ≡ read_notify)
    × (ns ≡ notice 1 100 ∷ [])
    × (i ≡ record { write_status = false ∷ []; double_access_flag = []; notification_cache = [] })
failed_write_shifts_statuses_example =
    failed_write_shifts_statuses (notice 2 1460) (notice 1 100) true false [] [] []
      (ready (notice 0 0) (notice 0 0)) refl (omega arith) (omega arith)

-- The events of the meta handler, which have a tuple, come first.
merger_order :
    rx_eng_event_merger (with_no_tuple (event EventType.rst 1) ∷ []) (event EventType.ack 2 ∷ [])
    ≡ (some (with_no_tuple (event EventType.rst 1)), [], event EventType.ack 2 ∷ [])
unfolding rx_eng_event_merger
merger_order = refl
