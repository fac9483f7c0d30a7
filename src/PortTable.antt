-- ===== src/PortTable.antt =====
-- hls/toe/port_table/port_table.cpp: which ports are listened on (below 32768) and which were given
-- to active connections (from 32768). Four processes over five internal streams.
pub mod Ports
pub mod Order
pub mod Checks
use tcp_offload_engine_shell.Prelude.{
  ℕ, ◌+◌, ◌/◌, ◌%◌, ◌^◌, Bool, true, false, not, ◌&&◌, none, some, List, [], ◌∷◌, ◌++◌, ◌==◌,
  if◌then◌else◌, read, update,
}
use tcp_offload_engine_shell.Conn.Tables.{
  PortTableEntry, ListenPortReq, ListenPortRsp, PtableToRxEngRsp,
}

pub data CmFsmState : Type 0 where
  read_dst read_listening read_used : CmFsmState

-- The static variables and the streams, those from and to other modules included. A bool in
-- `check_dst` is `dst_is_listening_table`.
pub record State : Type 0 where
  pub listening_port_table : ℕ → PortTableEntry
  pub free_port_table : ℕ → PortTableEntry
  pub pt_cursor : ℕ
  pub cm_fsm_state : CmFsmState
  pub release_port_req : List ℕ
  pub listen_port_req : List ListenPortReq
  pub listen_port_rsp : List ListenPortRsp
  pub check_req : List ℕ
  pub check_rsp : List PtableToRxEngRsp
  pub tx_app_req : List ℕ
  pub tx_app_rsp : List ℕ
  pub check_listening_req : List ℕ
  pub check_used_req : List ℕ
  pub check_listening_rsp : List PtableToRxEngRsp
  pub check_used_rsp : List PtableToRxEngRsp
  pub check_dst : List Bool

-- The bit that tells the two halves of the port numbers apart.
abbrev pub bit15 : ℕ → Bool
bit15 p = p / 2 ^ 15 % 2 == 1

abbrev pub low15 : ℕ → ℕ
low15 p = p % 2 ^ 15

abbrev pub entry_rsp : PortTableEntry → PtableToRxEngRsp
entry_rsp e = record { is_open = e.is_open; role_id = e.role_id }

accept_listen : State → ListenPortReq → State
accept_listen s q =
    let wrong = bit15 q.port in
    let ok = not (s.listening_port_table (low15 q.port)).is_open && not wrong in
    record s {
      listening_port_table =
          if ok
          then update s.listening_port_table (low15 q.port)
              (record { is_open = true; role_id = q.dest })
          else s.listening_port_table;
      listen_port_rsp =
          s.listen_port_rsp
          ++ (record {
            port_number = q.port;
            open_successfully = ok;
            wrong_port_number = wrong;
            already_open = not ok;
            dest = q.dest;
          }
              ∷ []);
    }

-- `ListeningPortTable`.
unfoldable pub listening_port_table : State → State
unfolding accept_listen
listening_port_table s = elim (read s.listen_port_req) [
  | some (q, rest) ↦ accept_listen (record s { listen_port_req = rest }) q
  | none ↦ elim (read s.check_listening_req) [
    | some (p, rest) ↦ record s {
      check_listening_req = rest;
      check_listening_rsp = s.check_listening_rsp ++ (entry_rsp (s.listening_port_table p) ∷ []);
    }
    | none ↦ s
  ]
]

-- A request of the tx app: the port under the cursor, if it is free and `ptable_to_tx_app_rsp` is
-- not full (`full`). The cursor moves on in any case.
accept_free_port : Bool → State → ℕ → State
accept_free_port full s role =
    let ok = not (s.free_port_table s.pt_cursor).is_open && not full in
    record s {
      free_port_table =
          if ok
          then update s.free_port_table s.pt_cursor (record { is_open = true; role_id = role })
          else s.free_port_table;
      tx_app_rsp = if ok then s.tx_app_rsp ++ ((2 ^ 15 + s.pt_cursor) ∷ []) else s.tx_app_rsp;
      pt_cursor = (s.pt_cursor + 1) % 2 ^ 15;
    }

release_port : State → ℕ → State
release_port s p =
    if bit15 p
    then record s {
      free_port_table =
          update s.free_port_table (low15 p)
            (record { is_open = false; role_id = (s.free_port_table (low15 p)).role_id });
    }
    else s

-- `FreePortTable`.
unfoldable pub free_port_table : Bool → State → State
unfolding accept_free_port release_port
free_port_table full s = elim (read s.release_port_req) [
  | some (p, rest) ↦ release_port (record s { release_port_req = rest }) p
  | none ↦ elim (read s.check_used_req) [
    | some (p, rest) ↦ record s {
      check_used_req = rest;
      check_used_rsp = s.check_used_rsp ++ (entry_rsp (s.free_port_table p) ∷ []);
    }
    | none ↦ elim (read s.tx_app_req) [
      | some (role, rest) ↦ accept_free_port full (record s { tx_app_req = rest }) role
      | none ↦ s
    ]
  ]
]

-- `CheckInMultiplexer`: the request goes to one table, and which one is noted in `check_dst`.
unfoldable pub check_in_multiplexer : State → State
check_in_multiplexer s = elim (read s.check_req) [
  | some (p, rest) ↦
      if not (bit15 p)
      then record s {
        check_req = rest;
        check_listening_req = s.check_listening_req ++ (low15 p ∷ []);
        check_dst = s.check_dst ++ (true ∷ []);
      }
      else record s {
        check_req = rest;
        check_used_req = s.check_used_req ++ (low15 p ∷ []);
        check_dst = s.check_dst ++ (false ∷ []);
      }
  | none ↦ s
]

merge_rsp : CmFsmState → State → State
merge_rsp CmFsmState.read_dst s = elim (read s.check_dst) [
  | some (dst, rest) ↦ record s {
    check_dst = rest;
    cm_fsm_state = if dst then CmFsmState.read_listening else CmFsmState.read_used;
  }
  | none ↦ s
]
merge_rsp CmFsmState.read_listening s = elim (read s.check_listening_rsp) [
  | some (a, rest) ↦ record s {
    check_listening_rsp = rest;
    check_rsp = s.check_rsp ++ (a ∷ []);
    cm_fsm_state = CmFsmState.read_dst;
  }
  | none ↦ s
]
merge_rsp CmFsmState.read_used s = elim (read s.check_used_rsp) [
  | some (a, rest) ↦ record s {
    check_used_rsp = rest;
    check_rsp = s.check_rsp ++ (a ∷ []);
    cm_fsm_state = CmFsmState.read_dst;
  }
  | none ↦ s
]

-- `CheckOutMultiplexer`.
unfoldable pub check_out_multiplexer : State → State
unfolding merge_rsp
check_out_multiplexer s = merge_rsp s.cm_fsm_state s

-- One call of `port_table`.
unfoldable pub port_table : Bool → State → State
port_table full s =
    check_out_multiplexer (check_in_multiplexer (free_port_table full (listening_port_table s)))
