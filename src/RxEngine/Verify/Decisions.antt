-- ===== src/RxEngine/Verify/Decisions.antt =====
-- What becomes of a segment before the state machine sees it.
use tcp_offload_engine_shell.Prelude.{
  ℕ, ◌+◌, ◌%◌, ◌^◌, ◌≡◌, ◌≢◌, ◌↔◌, true, false, not, ◌&&◌, none, some, List, ◌∷◌, ◌==◌, arith,
  if◌then◌else◌,
}
use tcp_offload_engine_shell.Conn.Tables.{PtableToRxEngRsp, swap_byte16}
use tcp_offload_engine_shell.Conn.Messages.{EventWithTuple, get_ack_number, rst}
use tcp_offload_engine_shell.Conn.Sessions.{RxEngToSlookupReq, SessionLookupRsp}
use tcp_offload_engine_shell.RxEngine.Segment.{TcpPseudoHeaderMeta, get_payload_length}
use tcp_offload_engine_shell.RxEngine.Verify.{
  VerifyRegs, VerifyIns, read_checksum, verify_checksum_and_port, MetaRegs, MetaIns, meta, lookup,
  tcp_meta_handler, reverse_tuple,
}

-- When the checksum of a segment is read, the segment is passed on, and its port looked up, exactly
-- when it is 0; a payload gets exactly one decision, to drop it exactly when the checksum is not 0.
pub checksum_decides :
    (r : VerifyRegs) (i : VerifyIns) (sum : ℕ) (rest : List ℕ)
    → r.fsm_state ≡ read_checksum
    → i.checksum ≡ sum ∷ rest
    → let o = (verify_checksum_and_port r i).1 in
      ((o.meta_out ≡ some r.meta) ↔ (sum ≡ 0))
      × ((o.check_port ≡ some (swap_byte16 r.meta.header.dest_port)) ↔ (sum ≡ 0))
      × ((o.dropped_by_checksum ≡ some false) ↔ ((sum ≡ 0) × (r.meta.header.payload_length ≢ 0)))
      × ((o.dropped_by_checksum ≡ some true) ↔ ((sum ≢ 0) × (r.meta.header.payload_length ≢ 0)))
unfolding verify_checksum_and_port
checksum_decides r i sum rest f q = (
  (ground arith, ground arith),
  (ground arith, ground arith),
  (ground arith, ground arith),
  (ground arith, ground arith),
)

-- What the reset answers, read back from the event's fields.
abbrev pub Acknowledges : TcpPseudoHeaderMeta → EventWithTuple → Type 0
Acknowledges m e =
    (e.event.kind ≡ rst)
    × (e.four_tuple ≡ reverse_tuple m)
    × (get_ack_number e.event ≡ (m.header.seq_number + get_payload_length m.header) % 2 ^ 32)

-- When a segment and the answer on its port are there, a segment to a closed port is answered with
-- a reset along the way back, which acknowledges all of it, unless it is itself a reset; no session
-- is looked up, nothing reaches the state machine, and a payload is dropped.
pub closed_port_resets :
    (r : MetaRegs) (i : MetaIns) (m : TcpPseudoHeaderMeta) (a : PtableToRxEngRsp)
    (ms : List TcpPseudoHeaderMeta) (answers : List PtableToRxEngRsp)
    → r.fsm_state ≡ meta
    → i.meta_in ≡ m ∷ ms
    → i.check_rsp ≡ a ∷ answers
    → a.is_open ≡ false
    → let o = (tcp_meta_handler r i).1 in
      (o.slookup_req ≡ none)
      × (o.fsm_meta ≡ none)
      × (o.dropped ≡ (if m.header.payload_length == 0 then none else some true))
      × ((o.event_out ≡ none) ↔ (m.header.rst ≡ true))
      × ((e : EventWithTuple) → o.event_out ≡ some e → Acknowledges m e)
unfolding tcp_meta_handler
closed_port_resets r i m a ms answers f q s c = (
  ground arith,
  ground arith,
  ground arith,
  (ground arith, ground arith),
  λ e h. (ground arith, ground arith, ground arith),
)

-- When a segment and the answer on its port are there, then for an open port the session is looked
-- up, and may be created only for a SYN that is neither a reset nor a FIN.
pub open_port_looks_up :
    (r : MetaRegs) (i : MetaIns) (m : TcpPseudoHeaderMeta) (a : PtableToRxEngRsp)
    (ms : List TcpPseudoHeaderMeta) (answers : List PtableToRxEngRsp)
    → r.fsm_state ≡ meta
    → i.meta_in ≡ m ∷ ms
    → i.check_rsp ≡ a ∷ answers
    → a.is_open ≡ true
    → (q : RxEngToSlookupReq) × ((tcp_meta_handler r i).1.slookup_req ≡ some q)
      × ((q.allow_creation ≡ true)
          ↔ ((m.header.syn ≡ true) × (m.header.rst ≡ false) × (m.header.fin ≡ false)))
      × (q.role_id ≡ a.role_id)
      × ((tcp_meta_handler r i).0.fsm_state ≡ lookup)
unfolding tcp_meta_handler
open_port_looks_up r i m a ms answers f q s c = (
  record {
    four_tuple = record {
      src_ip_addr = m.src_ip;
      dst_ip_addr = m.dest_ip;
      src_tcp_port = m.header.src_port;
      dst_tcp_port = m.header.dest_port;
    };
    allow_creation = m.header.syn && not m.header.rst && not m.header.fin;
    role_id = a.role_id;
  },
  ground arith,
  (ground arith, ground arith),
  ground arith,
  ground arith,
)

-- When the answer on its session is there, a segment reaches the state machine exactly if a session
-- was found, with that session and the port's role; its payload is dropped exactly if none was
-- found.
pub session_decides :
    (r : MetaRegs) (i : MetaIns) (a : SessionLookupRsp) (rest : List SessionLookupRsp)
    → r.fsm_state ≡ lookup
    → i.slookup_rsp ≡ a ∷ rest
    → let o = (tcp_meta_handler r i).1 in
      (o.fsm_meta ≡ (
        if a.hit
        then some (record {
          session_id = a.session_id;
          src_ip = r.meta_reg.src_ip;
          dst_port = r.meta_reg.header.dest_port;
          header = r.meta_reg.header;
          role_id = r.ptable_rsp.role_id;
        })
        else none))
      × (r.meta_reg.header.payload_length ≢ 0
          → (o.dropped ≡ some (not a.hit)) × (o.tdest ≡ some r.ptable_rsp.role_id))
unfolding tcp_meta_handler
session_decides r i a rest f q = (ground arith, ground arith)
