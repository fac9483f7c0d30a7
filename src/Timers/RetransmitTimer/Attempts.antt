-- ===== src/Timers/RetransmitTimer/Attempts.antt =====
-- How often a session is retransmitted before the retransmit timer gives it up.
use tcp_offload_engine_shell.Prelude.{
  ℕ, ◌+◌, ◌≤◌, ◌≡◌, ◌==◌, Bool, false, some, none, Option, List, [], ◌∷◌, arith, if◌then◌else◌,
}
use tcp_offload_engine_shell.Conn.Tables.{tcp_max_retx_attempts}
use tcp_offload_engine_shell.Conn.Messages.{Event}
use tcp_offload_engine_shell.Timers.Sweep.{Times}
use tcp_offload_engine_shell.Timers.RetransmitTimer.{Regs, Ins, retransmit_timer}
use tcp_offload_engine_shell.Timers.RetransmitTimer.Laws.{Attempts, retransmit_timer-Attempts}

abbrev pub sent_for : ℕ → Option Event → ℕ
sent_for id none = 0
sent_for id (some e) = if e.session_id == id then 1 else 0

abbrev pub released : ℕ → Option ℕ → Bool
released id none = false
released id (some j) = j == id

-- The variables after calls with the given inputs, and the retransmissions of `id` that they ask
-- for.
unfoldable pub run : Times → Regs → List Ins → Regs
run c r [] = r
run c r (i ∷ l) = run c (retransmit_timer c r i).0 l

unfoldable pub retransmissions : ℕ → Times → Regs → List Ins → ℕ
retransmissions id c r [] = 0
retransmissions id c r (i ∷ l) =
    sent_for id (retransmit_timer c r i).1.event_out
    + retransmissions id c (retransmit_timer c r i).0 l

-- No call reads a request of the rx engine, and none gives the session up.
abbrev pub Unanswered : ℕ → Times → Regs → List Ins → Type 0
Unanswered id c r [] = Unit
Unanswered id c r (i ∷ l) =
    (i.clear ≡ [])
    × (released id (retransmit_timer c r i).1.release ≡ false)
    × Unanswered id c (retransmit_timer c r i).0 l

step :
    (c : Times) (r : Regs) (i : Ins) (id : ℕ)
    → r.wait_for_write ≡ false
    → i.clear ≡ []
    → (r.retrans_timer_table id).retries ≤ tcp_max_retx_attempts
    → released id (retransmit_timer c r i).1.release ≡ false
    → ((retransmit_timer c r i).0.wait_for_write ≡ false)
      × (((retransmit_timer c r i).0.retrans_timer_table id).retries
          ≡ (r.retrans_timer_table id).retries + sent_for id (retransmit_timer c r i).1.event_out)
unfolding retransmit_timer
step c r i id w q b h = ground arith

retransmissions_counted :
    (c : Times) (r : Regs) (l : List Ins) (id : ℕ)
    → r.wait_for_write ≡ false
    → Attempts r
    → Unanswered id c r l
    → ((run c r l).retrans_timer_table id).retries
      ≡ (r.retrans_timer_table id).retries + retransmissions id c r l
unfolding run retransmissions
retransmissions_counted c r [] id w b h = omega arith
retransmissions_counted c r (i ∷ l) id w b h =
    let s = step c r i id w h.0 (b id) h.1 in
    omega (
      arith,
      s.1,
      retransmissions_counted c (retransmit_timer c r i).0 l id s.0
          (retransmit_timer-Attempts c r i b) h.2,
    )

run-Attempts : (c : Times) (r : Regs) (l : List Ins) → Attempts r → Attempts (run c r l)
unfolding run
run-Attempts c r [] h = h
run-Attempts c r (i ∷ l) h =
    run-Attempts c (retransmit_timer c r i).0 l (retransmit_timer-Attempts c r i h)

-- If the register is free and no session counts more attempts than allowed, then as long as the rx
-- engine sends no request and the session is not given up, each retransmission asked for is one
-- more attempt in the table, and there are at most TCP_MAX_RETX_ATTEMPTS in all.
pub retransmissions_bounded :
    (c : Times) (r : Regs) (l : List Ins) (id : ℕ)
    → r.wait_for_write ≡ false
    → Attempts r
    → Unanswered id c r l
    → (((run c r l).retrans_timer_table id).retries
        ≡ (r.retrans_timer_table id).retries + retransmissions id c r l)
      × (retransmissions id c r l ≤ tcp_max_retx_attempts)
retransmissions_bounded c r l id w b h =
    let e = retransmissions_counted c r l id w b h in (e, omega (arith, e, run-Attempts c r l b id))
