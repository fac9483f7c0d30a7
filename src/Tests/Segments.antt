-- ===== src/Tests/Segments.antt =====
-- Concrete segments on their way through the rx engine of hls/toe/rx_engine.
use tcp_offload_engine_shell.Prelude.{
  ℕ, ◌+◌, ◌-◌, ◌*◌, ◌%◌, ◌^◌, ◌≤◌, ◌<◌, ◌≡◌, ◌≢◌, ◌⊎◌, ◌↔◌, ◌++◌, refl, Bool, true, false, some,
  none, List, [], ◌∷◌, arith, map,
}
use tcp_offload_engine_shell.Conn.Tables.{
  StateTableReq, RxSarTableEntry, TxSarToRxEngRsp, RxEngToTxSarReq, PtableToRxEngRsp, established,
}
use tcp_offload_engine_shell.Conn.Messages.{Event, rt, mem_buffer_rw_cmd}
use tcp_offload_engine_shell.RxSar.{free_space}
use tcp_offload_engine_shell.RxEngine.Segment.{TcpHeaderMeta, TcpPseudoHeaderMeta, RxEngFsmMetaData}
use tcp_offload_engine_shell.RxEngine.Options
use tcp_offload_engine_shell.RxEngine.Options.{
  parse_tcp_header_options, read_meta, window_scale_bounded, zero_length_option_hangs,
}
use tcp_offload_engine_shell.RxEngine.Verify.{
  VerifyRegs, VerifyIns, MetaRegs, MetaIns, read_checksum, meta, lookup,
}
use tcp_offload_engine_shell.RxEngine.Dropper
use tcp_offload_engine_shell.Words.{NetAxisWord}
use tcp_offload_engine_shell.RxEngine.Dropper.Packets.{calls, waiting, to_role, payload_forwarded}
use tcp_offload_engine_shell.RxEngine.Ack.{on_ack}
use tcp_offload_engine_shell.RxEngine.Fsm
use tcp_offload_engine_shell.RxEngine.Fsm.{handle, read_answers, rx_eng_tcp_fsm, transition, load}
use tcp_offload_engine_shell.RxEngine.Fsm.Transitions.{Move, written_state, rx_eng_tcp_fsm-Move}
use tcp_offload_engine_shell.RxEngine.Fsm.Transitions.Handled.{
  IsStrayAck, lock_released_unless_stray, payload_undecided,
}
use tcp_offload_engine_shell.RxEngine.Fsm.Windows.{
  ahead, payload_in_order, ack_taken_in_range, no_fast_retransmit,
}

-- 100 bytes, in order, that acknowledge 600 bytes around the end of the 32-bit numbers.
abbrev header : TcpHeaderMeta
header = record {
  src_port = 0x0180;
  dest_port = 0x5000;
  seq_number = 5000;
  ack_number = 100;
  win_size = 1000;
  data_offset = 5;
  ack = true;
  rst = false;
  syn = false;
  fin = false;
  win_scale = 0;
  payload_length = 100;
}

abbrev segment : RxEngFsmMetaData
segment = record {
  session_id = 3;
  src_ip = 0x0500a8c0;
  dst_port = 0x5000;
  header = header;
  role_id = 2;
}

abbrev rx_sar : RxSarTableEntry
rx_sar = record { recvd = 5000; app_read = 4000; win_shift = 2 }

abbrev tx_sar : TxSarToRxEngRsp
tx_sar = record {
  perv_ack = 2 ^ 32 - 500;
  next_byte = 100;
  cong_window = 14600;
  slowstart_threshold = 100000;
  retrans_count = 0;
  fast_retrans = false;
  win_shift = 2;
}

payload_in_order_example :
    let o = (on_ack segment established rx_sar tx_sar).1 in
    (o.payload_dropped ≡ some false
      → (header.seq_number ≡ rx_sar.recvd)
        × (header.payload_length < free_space rx_sar)
        × (o.rx_sar_req
            ≡ some (record {
              session_id = 3;
              recvd = (rx_sar.recvd + header.payload_length) % 2 ^ 32;
              win_shift = 0;
              write = true;
              init = false;
            }))
        × (o.mem_cmd
            ≡ some (
                mem_buffer_rw_cmd
                  (3 % 2 ^ 13 * 2 ^ 18 + rx_sar.recvd % 2 ^ 18)
                  header.payload_length))
        × (o.rx_app_notification
            ≡ some (record {
              session_id = 3;
              length = header.payload_length;
              ip_addr = 0x0500a8c0;
              dst_tcp_port = 0x5000;
              closed = false;
            })))
    × (o.payload_dropped ≢ some false
        → (o.rx_sar_req ≡ none) × (o.mem_cmd ≡ none) × (o.rx_app_notification ≡ none))
    × (o.tx_sar_req ≢ none
        → header.payload_length ≢ 0
        → header.seq_number ≡ rx_sar.recvd
        → header.payload_length < free_space rx_sar
        → o.payload_dropped ≡ some false)
payload_in_order_example = payload_in_order segment established rx_sar tx_sar

payload_kept : (on_ack segment established rx_sar tx_sar).1.payload_dropped ≡ some false
unfolding on_ack
payload_kept = ground arith

ack_taken_in_range_example :
    ((on_ack segment established rx_sar tx_sar).1.tx_sar_req ≢ none)
    ↔ (ahead tx_sar.perv_ack header.ack_number ≤ ahead tx_sar.perv_ack tx_sar.next_byte)
ack_taken_in_range_example =
    ack_taken_in_range segment established rx_sar tx_sar refl (omega arith) (omega arith)
      (omega arith)

-- The third acknowledgment of the same number.
abbrev repeated : TxSarToRxEngRsp
repeated = record tx_sar { perv_ack = 100; next_byte = 700; retrans_count = 2 }

abbrev bare_ack : RxEngFsmMetaData
bare_ack = record segment { header = record header { payload_length = 0 } }

no_fast_retransmit_example :
    ((e : Event) → (on_ack bare_ack established rx_sar repeated).1.event_out ≡ some e → e.kind ≢ rt)
    × ((q : RxEngToTxSarReq)
        → (on_ack bare_ack established rx_sar repeated).1.tx_sar_req ≡ some q
        → q.retrans_count ≡ 3
        → q.fast_retrans ≡ true)
no_fast_retransmit_example =
    no_fast_retransmit bare_ack established rx_sar repeated (λ e. absurd (omega (arith, e)))

-- A FIN that acknowledges; the tables' answers are there.
abbrev fin_regs : Fsm.Regs
fin_regs = record {
  fsm_state = transition;
  meta = record segment { header = record header { fin = true } };
  sent_tx_sar_req = true;
  ctrl_bits = 5;
  session_state = established;
  rx_sar = record { recvd = 0; app_read = 0; win_shift = 0 };
  tx_sar = repeated;
}

abbrev fin_ins : Fsm.Ins
fin_ins = record {
  meta_in = [];
  sttable_rsp = established ∷ [];
  rx_sar_rsp = rx_sar ∷ [];
  tx_sar_rsp = tx_sar ∷ [];
}

rx_eng_tcp_fsm-Move_example :
    Move 5 false established (written_state (rx_eng_tcp_fsm fin_regs fin_ins).1 established)
unfolding read_answers
rx_eng_tcp_fsm-Move_example =
    rx_eng_tcp_fsm-Move fin_regs fin_ins
      {r' = record fin_regs {
        fsm_state = load;
        sent_tx_sar_req = false;
        rx_sar = rx_sar;
        tx_sar = tx_sar;
      }}
      {i' = record { meta_in = []; sttable_rsp = []; rx_sar_rsp = []; tx_sar_rsp = [] }} refl refl

-- An ACK of data that was never sent.
abbrev stray : Fsm.Regs
stray = record {
  fsm_state = load;
  meta = record segment { header = record header { ack_number = 90000 } };
  sent_tx_sar_req = false;
  ctrl_bits = 1;
  session_state = established;
  rx_sar = rx_sar;
  tx_sar = repeated;
}

lock_released_unless_stray_example :
    (((handle stray).1.sttable_req ≡ none) ↔ IsStrayAck stray)
    × ((q : StateTableReq)
        → (handle stray).1.sttable_req ≡ some q
        → (q.write ≡ true) × (q.session_id ≡ 3))
lock_released_unless_stray_example = lock_released_unless_stray stray

stray-IsStrayAck : IsStrayAck stray
unfolding on_ack
stray-IsStrayAck = ground arith

payload_undecided_example :
    ((handle stray).1.payload_dropped ≡ none)
    ↔ (IsStrayAck stray ⊎ ((stray.ctrl_bits ≢ 1) × (stray.ctrl_bits ≢ 5)))
payload_undecided_example = payload_undecided stray (λ e. absurd (omega (arith, e)))

-- A segment before its session is known.
abbrev pseudo : TcpPseudoHeaderMeta
pseudo = record { src_ip = 0x0500a8c0; dest_ip = 0x0900a8c0; header = header; tcp_options = 0 }

abbrev verifying : VerifyRegs
verifying = record { fsm_state = read_checksum; meta = pseudo }

abbrev sum : ℕ
sum = 0xbeef

abbrev wrong_sum : VerifyIns
wrong_sum = record { checksum = sum ∷ []; meta_in = [] }

abbrev port_answer : Bool → PtableToRxEngRsp
port_answer b = record { is_open = b; role_id = 2 }

abbrev meta_regs : MetaRegs
meta_regs = record { fsm_state = meta; meta_reg = pseudo; ptable_rsp = port_answer false }

abbrev meta_ins : Bool → MetaIns
meta_ins b = record { meta_in = pseudo ∷ []; check_rsp = port_answer b ∷ []; slookup_rsp = [] }

abbrev looked_up : MetaRegs
looked_up = record { fsm_state = lookup; meta_reg = pseudo; ptable_rsp = port_answer true }

abbrev found : MetaIns
found = record {
  meta_in = [];
  check_rsp = [];
  slookup_rsp = record { session_id = 3; hit = true; role_id = 2 } ∷ [];
}

-- The options of a SYN: window scale 7.
abbrev with_scale : Options.Regs
with_scale = record {
  fsm_state = Options.parse_options;
  meta = record pseudo { tcp_options = 0x070303 };
  options_length = 3;
  options_index = 0;
}

abbrev scaled : TcpPseudoHeaderMeta
scaled = record pseudo { header = record header { win_scale = 2 } }

-- An option of kind 2 with the length byte 0.
abbrev with_zero : Options.Regs
with_zero = record with_scale { meta = record pseudo { tcp_options = 2 }; options_length = 4 }

abbrev word : ℕ → Bool → NetAxisWord
word n last = record { word = n; keep = 2 ^ 64 - 1; last = last; dest = 0 }

payload_forwarded_example :
    calls 5 (waiting 0) (record {
      payload = (word 1 false ∷ word 2 true ∷ []) ++ (word 3 true ∷ []);
      by_checksum = false ∷ [];
      by_port_or_session = false ∷ [];
      tdest = 2 ∷ [];
      by_rx_fsm = false ∷ [];
    })
    ≡ (
      waiting 2,
      map (to_role 2) (word 1 false ∷ word 2 true ∷ []),
      record {
        payload = word 3 true ∷ [];
        by_checksum = [];
        by_port_or_session = [];
        tdest = [];
        by_rx_fsm = [];
      },
    )
payload_forwarded_example =
    payload_forwarded (word 1 false ∷ word 2 true ∷ []) (word 3 true ∷ []) 0 2 [] [] [] []
      (refl, refl)

abbrev decided : List Bool → List Bool → List ℕ → List Bool → Dropper.Ins
decided c p d f = record {
  payload = (word 1 false ∷ word 2 true ∷ []) ++ (word 3 true ∷ []);
  by_checksum = c;
  by_port_or_session = p;
  tdest = d;
  by_rx_fsm = f;
}

abbrev next_payload : Dropper.Ins
next_payload = record {
  payload = word 3 true ∷ [];
  by_checksum = [];
  by_port_or_session = [];
  tdest = [];
  by_rx_fsm = [];
}
