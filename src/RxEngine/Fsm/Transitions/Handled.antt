-- ===== src/RxEngine/Fsm/Transitions/Handled.antt =====
-- What every handled segment gets: the state table's lock released, and its payload kept or
-- dropped.
use tcp_offload_engine_shell.Prelude.{◌≡◌, ◌≢◌, ◌⊎◌, ◌↔◌, true, false, some, none, arith}
use tcp_offload_engine_shell.Conn.Tables.{
  SessionState, StateTableReq, RxSarTableEntry, TxSarToRxEngRsp,
}
use tcp_offload_engine_shell.RxEngine.Segment.{RxEngFsmMetaData, Outs}
use tcp_offload_engine_shell.RxEngine.Ack.{on_ack, note_ack, is_valid_ack, takes_ack}
use tcp_offload_engine_shell.RxEngine.Control.{on_syn, on_syn_ack, on_fin_ack, on_other}
use tcp_offload_engine_shell.RxEngine.Fsm.{Regs, handle}

-- What is written to the state table is a write for the segment's session.
abbrev Releases : RxEngFsmMetaData → Outs → Type 0
Releases m o =
    (q : StateTableReq) → o.sttable_req ≡ some q → (q.write ≡ true) × (q.session_id ≡ m.session_id)

module _ (m : RxEngFsmMetaData) (s : SessionState) (r : RxSarTableEntry) (t : TxSarToRxEngRsp) where
  on_ack-Releases : Releases m (on_ack m s r t).1
  unfolding on_ack
  on_ack-Releases q h = ground arith

  on_ack-locked :
      ((on_ack m s r t).1.sttable_req ≡ none)
      ↔ ((takes_ack s ≡ true) × (is_valid_ack m (note_ack m t) ≡ false))
  unfolding on_ack
  on_ack-locked = (λ h. ground arith, λ h. ground arith)

  on_ack-undecided :
      m.header.payload_length ≢ 0
      → ((on_ack m s r t).1.payload_dropped ≡ none)
        ↔ ((takes_ack s ≡ true) × (is_valid_ack m (note_ack m t) ≡ false))
  unfolding on_ack
  on_ack-undecided n = (λ h. ground arith, λ h. ground arith)

  on_syn-Releases :
      Releases m (on_syn m s r t)
      × ((on_syn m s r t).sttable_req ≢ none)
      × ((on_syn m s r t).payload_dropped ≡ none)
  unfolding on_syn
  on_syn-Releases = (λ q h. ground arith, λ h. ground arith, ground arith)

  on_syn_ack-Releases :
      Releases m (on_syn_ack m s t)
      × ((on_syn_ack m s t).sttable_req ≢ none)
      × ((on_syn_ack m s t).payload_dropped ≡ none)
  unfolding on_syn_ack
  on_syn_ack-Releases = (λ q h. ground arith, λ h. ground arith, ground arith)

  on_fin_ack-Releases :
      Releases m (on_fin_ack m s r t)
      × ((on_fin_ack m s r t).sttable_req ≢ none)
      × (m.header.payload_length ≢ 0 → (on_fin_ack m s r t).payload_dropped ≢ none)
  unfolding on_fin_ack
  on_fin_ack-Releases = (λ q h. ground arith, λ h. ground arith, λ n h. ground arith)

  on_other-Releases :
      Releases m (on_other m s r t)
      × ((on_other m s r t).sttable_req ≢ none)
      × ((on_other m s r t).payload_dropped ≡ none)
  unfolding on_other
  on_other-Releases = (λ q h. ground arith, λ h. ground arith, ground arith)

-- A lone ACK, in a state that takes acknowledgments, whose number lies outside what may be
-- acknowledged.
abbrev pub IsStrayAck : Regs → Type 0
IsStrayAck r =
    (r.ctrl_bits ≡ 1)
    × (takes_ack r.session_state ≡ true)
    × (is_valid_ack r.meta (note_ack r.meta r.tx_sar) ≡ false)

-- The state table gets a write for the segment's session, which releases its lock, from every
-- segment but a stray ACK, for which nothing is written.
pub lock_released_unless_stray :
    (r : Regs) → (((handle r).1.sttable_req ≡ none) ↔ IsStrayAck r) × Releases r.meta (handle r).1
unfolding handle
lock_released_unless_stray r =
    let locked = on_ack-locked r.meta r.session_state r.rx_sar r.tx_sar in
    let on_1 = on_ack-Releases r.meta r.session_state r.rx_sar r.tx_sar in
    let on_2 = on_syn-Releases r.meta r.session_state r.rx_sar r.tx_sar in
    let on_3 = on_syn_ack-Releases r.meta r.session_state r.rx_sar r.tx_sar in
    let on_5 = on_fin_ack-Releases r.meta r.session_state r.rx_sar r.tx_sar in
    let rest = on_other-Releases r.meta r.session_state r.rx_sar r.tx_sar in
    (
      (
        λ h. ground (arith, locked.0, on_2.1, on_3.1, on_5.1, rest.1),
        λ h. ground (arith, locked.1),
      ),
      λ q h. ground (arith, on_1 q, on_2.0 q, on_3.0 q, on_5.0 q, rest.0 q),
    )

-- A segment with payload gets no word on whether its payload is kept exactly when it is a stray ACK
-- or has flags other than ACK alone or FIN and ACK.
pub payload_undecided :
    (r : Regs)
    → r.meta.header.payload_length ≢ 0
    → ((handle r).1.payload_dropped ≡ none)
      ↔ (IsStrayAck r ⊎ ((r.ctrl_bits ≢ 1) × (r.ctrl_bits ≢ 5)))
unfolding handle
payload_undecided r n =
    let acked = on_ack-undecided r.meta r.session_state r.rx_sar r.tx_sar n in
    let on_2 = on_syn-Releases r.meta r.session_state r.rx_sar r.tx_sar in
    let on_3 = on_syn_ack-Releases r.meta r.session_state r.rx_sar r.tx_sar in
    let on_5 = on_fin_ack-Releases r.meta r.session_state r.rx_sar r.tx_sar in
    let rest = on_other-Releases r.meta r.session_state r.rx_sar r.tx_sar in
    (λ h. ground (arith, acked.0, on_5.2 n), λ h. ground (arith, acked.1, on_2.2, on_3.2, rest.2))
