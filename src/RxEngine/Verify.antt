-- ===== src/RxEngine/Verify.antt =====
-- `RxEngVerifyChecksumAndPort` and `RxEngTcpMetaHandler` of hls/toe/rx_engine/rx_engine.cpp: a
-- segment goes on to the state machine only with a right checksum, an open port and a session.
pub mod Decisions
use tcp_offload_engine_shell.Prelude.{
  ℕ, ◌+◌, ◌*◌, ◌/◌, ◌%◌, ◌^◌, Bool, true, false, not, ◌&&◌, Option, none, some, List, ◌∷◌, ◌==◌,
  if◌then◌else◌, read,
}
use tcp_offload_engine_shell.Conn.Tables.{PtableToRxEngRsp, swap_byte16}
use tcp_offload_engine_shell.Conn.Messages.{EventWithTuple, FourTuple, rst_event}
use tcp_offload_engine_shell.Conn.Sessions.{RxEngToSlookupReq, SessionLookupRsp}
use tcp_offload_engine_shell.RxEngine.Segment.{
  TcpPseudoHeaderMeta, RxEngFsmMetaData, get_payload_length,
}

pub data VerifyFsmState : Type 0 where
  read_meta_info read_checksum : VerifyFsmState

pub record VerifyRegs : Type 0 where
  pub fsm_state : VerifyFsmState
  pub meta : TcpPseudoHeaderMeta

pub record VerifyIns : Type 0 where
  pub checksum : List ℕ
  pub meta_in : List TcpPseudoHeaderMeta

pub record VerifyOuts : Type 0 where
  pub meta_out : Option TcpPseudoHeaderMeta
  pub check_port : Option ℕ
  pub dropped_by_checksum : Option Bool

abbrev pub no_verify_outs : VerifyOuts
no_verify_outs = record { meta_out = none; check_port = none; dropped_by_checksum = none }

verify_by : VerifyFsmState → VerifyRegs → VerifyIns → VerifyRegs × VerifyOuts × VerifyIns
verify_by VerifyFsmState.read_meta_info r i = elim (read i.meta_in) [
  | some (m, rest) ↦ (
    record { fsm_state = VerifyFsmState.read_checksum; meta = m },
    no_verify_outs,
    record i { meta_in = rest },
  )
  | none ↦ (r, no_verify_outs, i)
]
verify_by VerifyFsmState.read_checksum r i = elim (read i.checksum) [
  | some (sum, rest) ↦
      let valid = sum == 0 in
      (
        record r { fsm_state = VerifyFsmState.read_meta_info },
        record {
          meta_out = if valid then some r.meta else none;
          check_port = if valid then some (swap_byte16 r.meta.header.dest_port) else none;
          dropped_by_checksum =
              if r.meta.header.payload_length == 0 then none else some (not valid);
        },
        record i { checksum = rest },
      )
  | none ↦ (r, no_verify_outs, i)
]

-- One call of `RxEngVerifyChecksumAndPort`.
unfoldable pub verify_checksum_and_port :
    VerifyRegs → VerifyIns → VerifyRegs × VerifyOuts × VerifyIns
unfolding verify_by
verify_checksum_and_port r i = verify_by r.fsm_state r i

pub data MetaFsmState : Type 0 where
  meta lookup : MetaFsmState

-- The registers that are read again.
pub record MetaRegs : Type 0 where
  pub fsm_state : MetaFsmState
  pub meta_reg : TcpPseudoHeaderMeta
  pub ptable_rsp : PtableToRxEngRsp

pub record MetaIns : Type 0 where
  pub meta_in : List TcpPseudoHeaderMeta
  pub check_rsp : List PtableToRxEngRsp
  pub slookup_rsp : List SessionLookupRsp

pub record MetaOuts : Type 0 where
  pub slookup_req : Option RxEngToSlookupReq
  pub fsm_meta : Option RxEngFsmMetaData
  pub dropped : Option Bool
  pub tdest : Option ℕ
  pub event_out : Option EventWithTuple

abbrev pub no_meta_outs : MetaOuts
no_meta_outs = record {
  slookup_req = none;
  fsm_meta = none;
  dropped = none;
  tdest = none;
  event_out = none;
}

-- The way back: source and destination of the segment exchanged.
abbrev pub reverse_tuple : TcpPseudoHeaderMeta → FourTuple
reverse_tuple m = record {
  src_ip_addr = m.dest_ip;
  dst_ip_addr = m.src_ip;
  src_tcp_port = m.header.dest_port;
  dst_tcp_port = m.header.src_port;
}

-- The decision on the payload, if there is one, goes with the role.
abbrev pub decide : TcpPseudoHeaderMeta → Bool → ℕ → MetaOuts → MetaOuts
decide m drop role o =
    if m.header.payload_length == 0 then o else record o { dropped = some drop; tdest = some role }

check_port : TcpPseudoHeaderMeta → PtableToRxEngRsp → MetaFsmState × MetaOuts
check_port m a =
    if not a.is_open
    then (
      MetaFsmState.meta,
      decide m true a.role_id (record no_meta_outs {
        event_out =
            if m.header.rst
            then none
            else some (record {
              event =
                  rst_event 0 ((m.header.seq_number + get_payload_length m.header) % 2 ^ 32) false;
              four_tuple = reverse_tuple m;
            });
      }),
    )
    else (
      MetaFsmState.lookup,
      record no_meta_outs {
        slookup_req = some (record {
          four_tuple = record {
            src_ip_addr = m.src_ip;
            dst_ip_addr = m.dest_ip;
            src_tcp_port = m.header.src_port;
            dst_tcp_port = m.header.dest_port;
          };
          allow_creation = m.header.syn && not m.header.rst && not m.header.fin;
          role_id = a.role_id;
        });
      },
    )

meta_by : MetaFsmState → MetaRegs → MetaIns → MetaRegs × MetaOuts × MetaIns
unfolding check_port
meta_by MetaFsmState.meta r i = elim (read i.meta_in) [
  | some (m, rest) ↦ elim (read i.check_rsp) [
    | some (a, rest') ↦
        let (s, o) = check_port m a in
        (
          record { fsm_state = s; meta_reg = m; ptable_rsp = a },
          o,
          record i { meta_in = rest; check_rsp = rest' },
        )
    | none ↦ (r, no_meta_outs, i)
  ]
  | none ↦ (r, no_meta_outs, i)
]
meta_by MetaFsmState.lookup r i = elim (read i.slookup_rsp) [
  | some (a, rest) ↦
      let m = r.meta_reg in
      (
        record r { fsm_state = MetaFsmState.meta },
        decide m (not a.hit) r.ptable_rsp.role_id (record no_meta_outs {
          fsm_meta =
              if a.hit
              then some (record {
                session_id = a.session_id;
                src_ip = m.src_ip;
                dst_port = m.header.dest_port;
                header = m.header;
                role_id = r.ptable_rsp.role_id;
              })
              else none;
        }),
        record i { slookup_rsp = rest },
      )
  | none ↦ (r, no_meta_outs, i)
]

-- One call of `RxEngTcpMetaHandler`.
unfoldable pub tcp_meta_handler : MetaRegs → MetaIns → MetaRegs × MetaOuts × MetaIns
unfolding meta_by
tcp_meta_handler r i = meta_by r.fsm_state r i
