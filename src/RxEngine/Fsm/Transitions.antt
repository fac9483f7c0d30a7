-- ===== src/RxEngine/Fsm/Transitions.antt =====
-- The connection states that a segment leads to, and what is always written for a segment.
pub mod Handled
use tcp_offload_engine_shell.Prelude.{ℕ, ◌≡◌, ◌⊎◌, ◌≢◌, Bool, true, some, none, arith}
use tcp_offload_engine_shell.Conn.Tables.{
  SessionState, closed, syn_sent, syn_received, established, fin_wait_1, fin_wait_2, closing,
  time_wait, last_ack,
}
use tcp_offload_engine_shell.RxEngine.Segment.{Outs}
use tcp_offload_engine_shell.RxEngine.Ack.{on_ack}
use tcp_offload_engine_shell.RxEngine.Control.{on_syn, on_syn_ack, on_fin_ack, on_other}
use tcp_offload_engine_shell.RxEngine.Fsm.{
  Regs, Ins, transition, handle, read_answers, rx_eng_tcp_fsm,
}

-- The state diagram: from a state to the next, for a segment with the control bits `b` (ACK 1, SYN
-- 2, FIN 4) and the flag RST.
pub data Move (b : ℕ) (rst : Bool) : SessionState → SessionState → Type 0 where
  stay : {s : SessionState} → Move b rst s s
  open_passively : b ≡ 2 → Move b rst closed syn_received
  open_simultaneously : b ≡ 2 → Move b rst syn_sent syn_received
  refuse_syn : b ≡ 2 → Move b rst syn_received closed
  open_actively : b ≡ 3 → Move b rst syn_sent established
  refuse_syn_ack : b ≡ 3 → Move b rst syn_sent closed
  finish_open : b ≡ 1 → Move b rst syn_received established
  close_passively : b ≡ 5 → Move b rst established last_ack
  cross_fin :
      {s : SessionState} → b ≡ 5 → (s ≡ fin_wait_1) ⊎ (s ≡ fin_wait_2) → Move b rst s closing
  end_fin :
      {s : SessionState} → b ≡ 5 → (s ≡ fin_wait_1) ⊎ (s ≡ fin_wait_2) → Move b rst s time_wait
  end_closing : b ≡ 1 → Move b rst closing time_wait
  end_last_ack : b ≡ 1 → Move b rst last_ack closed
  reset : {s : SessionState} → rst ≡ true → Move b rst s closed

-- The state that a call writes to the state table, if it writes one.
abbrev pub written_state : Outs → SessionState → SessionState
written_state o s = elim o.sttable_req [ none ↦ s | some q ↦ q.state ]

module _ (b : ℕ) (rst : Bool) (r : Regs) where
  on_ack-Move :
      b ≡ 1
      → Move b rst r.session_state
          (written_state (on_ack r.meta r.session_state r.rx_sar r.tx_sar).1 r.session_state)
  unfolding on_ack
  on_ack-Move e = grind (arith, stay, finish_open, end_closing, end_last_ack)

  on_syn-Move :
      b ≡ 2
      → Move b rst r.session_state
          (written_state (on_syn r.meta r.session_state r.rx_sar r.tx_sar) r.session_state)
  unfolding on_syn
  on_syn-Move e = grind (arith, stay, open_passively, open_simultaneously, refuse_syn)

  on_syn_ack-Move :
      b ≡ 3
      → Move b rst r.session_state
          (written_state (on_syn_ack r.meta r.session_state r.tx_sar) r.session_state)
  unfolding on_syn_ack
  on_syn_ack-Move e = grind (arith, stay, open_actively, refuse_syn_ack)

  on_fin_ack-Move :
      b ≡ 5
      → Move b rst r.session_state
          (written_state (on_fin_ack r.meta r.session_state r.rx_sar r.tx_sar) r.session_state)
  unfolding on_fin_ack
  on_fin_ack-Move e = grind (arith, stay, close_passively, cross_fin, end_fin)

  on_other-Move :
      r.meta.header.rst ≡ rst
      → Move b rst r.session_state
          (written_state (on_other r.meta r.session_state r.rx_sar r.tx_sar) r.session_state)
  unfolding on_other
  on_other-Move e = grind (arith, stay, reset)

handle-Move :
    (r : Regs)
    → Move r.ctrl_bits r.meta.header.rst r.session_state
        (written_state (handle r).1 r.session_state)
unfolding handle
handle-Move r =
    let b = r.ctrl_bits in
    let rst = r.meta.header.rst in
    ground (
      arith,
      on_ack-Move b rst r,
      on_syn-Move b rst r,
      on_syn_ack-Move b rst r,
      on_fin_ack-Move b rst r,
      on_other-Move b rst r,
    )

-- Once every answer that was asked for is there, the segment is handled by its flags.
pub answered :
    (r : Regs) (i : Ins) {r' : Regs} {i' : Ins}
    → r.fsm_state ≡ transition
    → read_answers r i ≡ some (r', i')
    → rx_eng_tcp_fsm r i ≡ ((handle r').0, (handle r').1, i')
unfolding rx_eng_tcp_fsm
answered r i f e = ground arith

-- If all answers asked for are there, the state that is written for a segment follows the diagram
-- from the session's state and the segment's flags; without a written state the session stays as it
-- is.
pub rx_eng_tcp_fsm-Move :
    (r : Regs) (i : Ins) {r' : Regs} {i' : Ins}
    → r.fsm_state ≡ transition
    → read_answers r i ≡ some (r', i')
    → Move r'.ctrl_bits r'.meta.header.rst r'.session_state
        (written_state (rx_eng_tcp_fsm r i).1 r'.session_state)
rx_eng_tcp_fsm-Move r i {r'} f e = rw (answered r i f e) (handle-Move r')
