-- ===== src/Tests/Ports.antt =====
-- The port table of hls/toe/port_table on concrete requests.
use tcp_offload_engine_shell.Prelude.{◌≡◌, ◌==◌, refl, true, false, [], ◌∷◌, arith, if◌then◌else◌}
use tcp_offload_engine_shell.Conn.Tables.{PortTableEntry}
use tcp_offload_engine_shell.PortTable.{
  State, read_dst, port_table, listening_port_table, free_port_table, check_in_multiplexer,
  check_out_multiplexer,
}
use tcp_offload_engine_shell.PortTable.Ports.{Arrivals, run, Given, free_ports_are_distinct}
use tcp_offload_engine_shell.PortTable.Checks.{calls, checks_answered_in_order}

abbrev no_port : PortTableEntry
no_port = record { is_open = false; role_id = 0 }

-- Port 80 is listened on by role 1, and port 32769 was given to role 2.
abbrev start : State
start = record {
  listening_port_table = λ p. if p == 80 then record { is_open = true; role_id = 1 } else no_port;
  free_port_table = λ p. if p == 1 then record { is_open = true; role_id = 2 } else no_port;
  pt_cursor = 0;
  cm_fsm_state = read_dst;
  release_port_req = [];
  listen_port_req = [];
  listen_port_rsp = [];
  check_req = [];
  check_rsp = [];
  tx_app_req = [];
  tx_app_rsp = [];
  check_listening_req = [];
  check_used_req = [];
  check_listening_rsp = [];
  check_used_rsp = [];
  check_dst = [];
}

abbrev checking : State
checking = record start { check_req = 80 ∷ 32769 ∷ 81 ∷ [] }

checks_answered_in_order_example :
    (calls 12 false checking).check_rsp
    ≡ record { is_open = true; role_id = 1 }
      ∷ record { is_open = true; role_id = 2 }
      ∷ record { is_open = false; role_id = 0 }
      ∷ []
checks_answered_in_order_example =
    checks_answered_in_order 12 false checking (refl, refl, refl)
      (refl, refl, refl, refl, refl, refl) (omega arith)

abbrev wants_port : Arrivals
wants_port = record { listen = []; check = []; tx_app = 4 ∷ []; full = false }

start-Given : Given start
start-Given = record { distinct = tt; used = tt; cursor = omega arith; unreleased = refl }

free_ports_are_distinct_example : Given (run start (wants_port ∷ wants_port ∷ wants_port ∷ []))
free_ports_are_distinct_example =
    free_ports_are_distinct start (wants_port ∷ wants_port ∷ wants_port ∷ []) start-Given

-- Of the first three requests two get a port: 32769 is taken.
ports_given :
    (run start (wants_port ∷ wants_port ∷ wants_port ∷ [])).tx_app_rsp ≡ 32768 ∷ 32770 ∷ []
unfolding run port_table listening_port_table free_port_table check_in_multiplexer
    check_out_multiplexer
ports_given = refl

abbrev listening : State
listening = record start { listen_port_req = record { port = 443; dest = 7 } ∷ [] }

abbrev releasing : State
releasing = record start { release_port_req = 32769 ∷ [] }
