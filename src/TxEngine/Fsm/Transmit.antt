-- ===== src/TxEngine/Fsm/Transmit.antt =====
-- How much a TX event sends: never more than the usable window, and everything that fits.
use tcp_offload_engine_shell.Prelude.{
  ℕ, zero, suc, ◌+◌, ◌*◌, ◌^◌, ◌≤◌, ◌<◌, ◌≡◌, ◌⊎◌, inl, inr, refl, ◌∙◌, true, false, none, some, [],
  ◌∷◌, arith,
}
use tcp_offload_engine_shell.Conn.Tables.{RxSarLookupRsp, TxSarToTxEngRsp, tcp_mss}
use tcp_offload_engine_shell.Conn.Messages.{tx, fin}
use tcp_offload_engine_shell.TxEngine.State.{Regs, Ins, Outs, load, transition}
use tcp_offload_engine_shell.TxEngine.Data.{
  Segment, advance, next_segment, send_segment, on_tx_first, on_tx_again, usable_again,
}
use tcp_offload_engine_shell.TxEngine.Control.{on_fin}
use tcp_offload_engine_shell.TxEngine.Fsm.{tx_eng_tcp_fsm}

-- The length of the segment that a call sends.
abbrev pub sent : Outs → ℕ
sent o = elim o.payload_length [ none ↦ 0 | some n ↦ n ]

-- The bytes that `n` calls send.
unfoldable pub bytes : ℕ → ℕ → Regs → Ins → ℕ
bytes zero isn r i = 0
bytes (suc n) isn r i = let (r', o, i') = tx_eng_tcp_fsm isn r i in sent o + bytes n isn r' i'

-- No event waits and no answer of the tables.
abbrev pub quiet : Ins
quiet = record { events = []; rx_sar_rsp = []; tx_sar_rsp = [] }

-- Nothing is left to send.
abbrev IsDone : Regs → Type 0
IsDone r =
    (r.fsm_state ≡ load)
    ⊎ ((r.fsm_state ≡ transition) × (r.event_reg.event.kind ≡ fin) × (r.tx_rx_sar_loaded ≡ true))

-- A TX event under way, with the 16-bit lengths in range.
record IsSending (r : Regs) : Type 0 where
  state : r.fsm_state ≡ transition
  kind : r.event_reg.event.kind ≡ tx
  loaded : r.tx_rx_sar_loaded ≡ true
  window : usable_again r + r.used_length ≡ r.tx_sar.min_window
  min_window : r.tx_sar.min_window < 2 ^ 16
  curr : r.curr_length < 2 ^ 16

IsDone-tx_eng_tcp_fsm :
    (isn : ℕ) (r : Regs)
    → IsDone r
    → let (r', o, i') = tx_eng_tcp_fsm isn r quiet in IsDone r' × (sent o ≡ 0) × (i' ≡ quiet)
unfolding tx_eng_tcp_fsm on_fin
IsDone-tx_eng_tcp_fsm isn r (inl h) = ground arith
IsDone-tx_eng_tcp_fsm isn r (inr h) = ground arith

IsDone-bytes : (n isn : ℕ) (r : Regs) → IsDone r → bytes n isn r quiet ≡ 0
unfolding bytes
IsDone-bytes zero isn r h = refl
IsDone-bytes (suc n) isn r h =
    let (d, s, q) = IsDone-tx_eng_tcp_fsm isn r h in
    rw q (omega (arith, s, IsDone-bytes n isn (tx_eng_tcp_fsm isn r quiet).0 d))

-- The two kinds of segment: a full one, with more to come, or the last one.
abbrev IsFull : TxSarToTxEngRsp → ℕ → ℕ → ℕ → Segment → Type 0
IsFull t curr used usable g =
    (g ≡ advance t curr used tcp_mss) × (tcp_mss ≤ curr) × (tcp_mss ≤ usable)

abbrev IsLast : ℕ → ℕ → Segment → Type 0
IsLast curr usable g =
    ((g.fsm_state ≡ load) ⊎ ((g.fsm_state ≡ transition) × (g.kind ≡ fin)))
    × (g.length ≤ usable)
    × (g.length ≤ curr)
    × (curr ≤ usable → g.length ≡ curr)

next_segment-cases :
    (t : TxSarToTxEngRsp) (curr used usable : ℕ)
    → IsFull t curr used usable (next_segment t curr used usable)
      ⊎ IsLast curr usable (next_segment t curr used usable)
unfolding next_segment
next_segment-cases t curr used usable = ground arith

sent-send_segment :
    (r : Regs) (t : TxSarToTxEngRsp) (g : Segment) → sent (send_segment r t g).1 ≡ g.length
unfolding send_segment
sent-send_segment r t g = ground arith

send_segment-IsDone :
    (r : Regs) (t : TxSarToTxEngRsp) (g : Segment)
    → (g.fsm_state ≡ load) ⊎ ((g.fsm_state ≡ transition) × (g.kind ≡ fin))
    → IsDone (send_segment r t g).0
unfolding send_segment
send_segment-IsDone r t g h = ground arith

-- After a full segment the window is smaller by as much, and so is what is left to send.
send_segment-IsSending :
    (r : Regs) (t : TxSarToTxEngRsp) (curr used usable : ℕ)
    → r.event_reg.event.kind ≡ tx
    → usable + used ≡ t.min_window
    → t.min_window < 2 ^ 16
    → curr < 2 ^ 16
    → tcp_mss ≤ curr
    → tcp_mss ≤ usable
    → let r' = (send_segment r t (advance t curr used tcp_mss)).0 in
      IsSending r' × (usable_again r' + tcp_mss ≡ usable) × (r'.curr_length + tcp_mss ≡ curr)
unfolding send_segment
send_segment-IsSending r t curr used usable k w m c p q = ground arith

-- What a call does with `curr` bytes to send and a window of `usable`.
abbrev Sends : ℕ → ℕ → Regs × Outs → Type 0
Sends curr usable (r', o) =
    (IsDone r' × (sent o ≤ usable) × (curr ≤ usable → sent o ≡ curr))
    ⊎ (IsSending r'
        × (sent o ≡ tcp_mss)
        × (usable_again r' + tcp_mss ≡ usable)
        × (r'.curr_length + tcp_mss ≡ curr))

send_segment-Sends :
    (r : Regs) (t : TxSarToTxEngRsp) (curr used usable : ℕ)
    → r.event_reg.event.kind ≡ tx
    → usable + used ≡ t.min_window
    → t.min_window < 2 ^ 16
    → curr < 2 ^ 16
    → Sends curr usable (send_segment r t (next_segment t curr used usable))
send_segment-Sends r t curr used usable k w m c =
    let g = next_segment t curr used usable in
    let s = sent-send_segment r t g in
    elim (next_segment-cases t curr used usable) [
      | inl (e, p, q) ↦
          let (next, win, left) = send_segment-IsSending r t curr used usable k w m c p q in
          inr (rw e (next, sent-send_segment r t (advance t curr used tcp_mss), win, left))
      | inr (d, u, v, x) ↦ inl (send_segment-IsDone r t g d, omega (arith, s, u), λ y. s ∙ x y)
    ]

IsSending-tx_eng_tcp_fsm :
    (isn : ℕ) (r : Regs)
    → IsSending r
    → tx_eng_tcp_fsm isn r quiet ≡ ((on_tx_again r).0, (on_tx_again r).1, quiet)
unfolding tx_eng_tcp_fsm
IsSending-tx_eng_tcp_fsm isn r h = ground arith

IsSending-on_tx_again :
    (r : Regs) → IsSending r → Sends r.curr_length (usable_again r) (on_tx_again r)
unfolding on_tx_again
IsSending-on_tx_again r h =
    send_segment-Sends r r.tx_sar r.curr_length r.used_length (usable_again r) h.kind h.window
      h.min_window h.curr

-- Whatever is sent in further calls stays within the window, and is everything if that fits and the
-- calls are enough.
abbrev Bytes : ℕ → ℕ → ℕ → ℕ → Type 0
Bytes n curr usable b = (b ≤ usable) × (curr ≤ usable → curr < n * tcp_mss → b ≡ curr)

Sends-bytes :
    (n isn curr usable : ℕ) (r' : Regs) (o : Outs)
    → ((r : Regs) → IsSending r → Bytes n r.curr_length (usable_again r) (bytes n isn r quiet))
    → Sends curr usable (r', o)
    → Bytes (suc n) curr usable (sent o + bytes n isn r' quiet)
Sends-bytes n isn curr usable r' o ih (inl (d, u, x)) =
    let z = IsDone-bytes n isn r' d in (omega (arith, z, u), λ f e. omega (arith, z, x f))
Sends-bytes n isn curr usable r' o ih (inr (s, e, w, l)) =
    let (u, x) = ih r' s in
    (
      omega (arith, u, e, w),
      λ f c. omega (arith, x (omega (arith, f, w, l)) (omega (arith, c, l)), e, l),
    )

IsSending-bytes :
    (n isn : ℕ) (r : Regs)
    → IsSending r
    → Bytes n r.curr_length (usable_again r) (bytes n isn r quiet)
unfolding bytes
IsSending-bytes zero isn r h = (omega arith, λ f e. absurd (omega (arith, e)))
IsSending-bytes (suc n) isn r h = rw (IsSending-tx_eng_tcp_fsm isn r h) (
    Sends-bytes n isn r.curr_length (usable_again r) (on_tx_again r).0 (on_tx_again r).1
      (IsSending-bytes n isn) (IsSending-on_tx_again r h))

tx_eng_tcp_fsm-first :
    (isn : ℕ) (r : Regs) (a : RxSarLookupRsp) (t : TxSarToTxEngRsp)
    → r.fsm_state ≡ transition
    → r.event_reg.event.kind ≡ tx
    → r.tx_rx_sar_loaded ≡ false
    → tx_eng_tcp_fsm isn r (record { events = []; rx_sar_rsp = a ∷ []; tx_sar_rsp = t ∷ [] })
      ≡ ((on_tx_first r a t).0, (on_tx_first r a t).1, quiet)
unfolding tx_eng_tcp_fsm
tx_eng_tcp_fsm-first isn r a t s k l = ground arith

on_tx_first-Sends :
    (r : Regs) (a : RxSarLookupRsp) (t : TxSarToTxEngRsp)
    → r.event_reg.event.kind ≡ tx
    → t.usable_window + t.used_length ≡ t.min_window
    → t.min_window < 2 ^ 16
    → t.curr_length < 2 ^ 16
    → Sends t.curr_length t.usable_window (on_tx_first r a t)
unfolding on_tx_first
on_tx_first-Sends r a t k w m c =
    send_segment-Sends _ t t.curr_length t.used_length t.usable_window k w m c

-- If the tables have answered a TX event, the usable window and the bytes in flight make up a
-- window below 2 ^ 16 and fewer than 2 ^ 16 bytes wait, then any number of calls sends no more than
-- the usable window allows; and if all that waits fits it, then all of it is sent, by one call for
-- each full segment and one more.
pub data_sent_in_window :
    (n isn : ℕ) (r : Regs) (a : RxSarLookupRsp) (t : TxSarToTxEngRsp)
    → r.fsm_state ≡ transition
    → r.event_reg.event.kind ≡ tx
    → r.tx_rx_sar_loaded ≡ false
    → t.usable_window + t.used_length ≡ t.min_window
    → t.min_window < 2 ^ 16
    → t.curr_length < 2 ^ 16
    → let b = bytes n isn r (record { events = []; rx_sar_rsp = a ∷ []; tx_sar_rsp = t ∷ [] }) in
      (b ≤ t.usable_window)
      × (t.curr_length ≤ t.usable_window → t.curr_length < n * tcp_mss → b ≡ t.curr_length)
unfolding bytes
data_sent_in_window zero isn r a t s k l w m c = (omega arith, λ f e. absurd (omega (arith, e)))
data_sent_in_window (suc n) isn r a t s k l w m c = rw (tx_eng_tcp_fsm-first isn r a t s k l) (
    Sends-bytes n isn t.curr_length t.usable_window (on_tx_first r a t).0 (on_tx_first r a t).1
      (IsSending-bytes n isn) (on_tx_first-Sends r a t k w m c))
