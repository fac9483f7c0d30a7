-- ===== src/PortTable/Checks.antt =====
-- Every check request is answered, in order, within four calls of `port_table` a request.
use tcp_offload_engine_shell.Prelude.{
  ℕ, zero, suc, ◌+◌, ◌-◌, ◌*◌, ◌≤◌, ◌<◌, ◌≡◌, ◌⊎◌, ◌∙◌, sym, inl, inr, refl, Bool, List, [], ◌∷◌,
  ◌++◌, arith, map, length, length-append,
}
use mathlib.Core.List.{append-nil}
use tcp_offload_engine_shell.PortTable.{
  State, CmFsmState, read_dst, listening_port_table, free_port_table, check_in_multiplexer,
  check_out_multiplexer, port_table,
}
use tcp_offload_engine_shell.PortTable.Order.{
  Consistent, Frozen, answer, outcome, listening_port_table-Consistent, free_port_table-Consistent,
  check_in_multiplexer-Consistent, check_out_multiplexer-Consistent, listening_port_table-outcome,
  free_port_table-outcome, check_in_multiplexer-outcome, check_out_multiplexer-outcome,
}

abbrev busy : CmFsmState → ℕ
busy CmFsmState.read_dst = 0
busy _ = 1

-- The steps that the check requests have before them.
abbrev load : State → ℕ
load s =
    4 * length s.check_req
    + length s.check_listening_req
    + length s.check_used_req
    + 2 * length s.check_dst
    + busy s.cm_fsm_state

listening_port_table-Frozen : (s : State) → Frozen s → Frozen (listening_port_table s)
unfolding listening_port_table
listening_port_table-Frozen s f = ground arith

free_port_table-Frozen : (full : Bool) (s : State) → Frozen s → Frozen (free_port_table full s)
unfolding free_port_table
free_port_table-Frozen full s f = ground arith

check_in_multiplexer-Frozen : (s : State) → Frozen s → Frozen (check_in_multiplexer s)
unfolding check_in_multiplexer
check_in_multiplexer-Frozen s f = ground arith

check_out_multiplexer-Frozen : (s : State) → Frozen s → Frozen (check_out_multiplexer s)
unfolding check_out_multiplexer
check_out_multiplexer-Frozen s f = ground arith

listening_port_table-load :
    (s : State)
    → Frozen s
    → (load (listening_port_table s) < load s)
      ⊎ ((listening_port_table s ≡ s) × (s.check_listening_req ≡ []))
unfolding listening_port_table
listening_port_table-load s f = ground arith

free_port_table-load :
    (full : Bool) (s : State)
    → Frozen s
    → (load (free_port_table full s) < load s)
      ⊎ ((free_port_table full s ≡ s) × (s.check_used_req ≡ []))
unfolding free_port_table
free_port_table-load full s f = ground arith

check_in_multiplexer-load :
    (s : State)
    → (load (check_in_multiplexer s) < load s) ⊎ ((check_in_multiplexer s ≡ s) × (s.check_req ≡ []))
unfolding check_in_multiplexer
check_in_multiplexer-load s = grind (arith, length-append)

check_out_multiplexer-load-le : (s : State) → load (check_out_multiplexer s) ≤ load s
unfolding check_out_multiplexer
check_out_multiplexer-load-le s = ground arith

check_out_multiplexer-load :
    (s : State)
    → Consistent s
    → s.check_listening_req ≡ []
    → s.check_used_req ≡ []
    → s.check_req ≡ []
    → (load (check_out_multiplexer s) < load s) ⊎ (load s ≡ 0)
unfolding check_out_multiplexer
check_out_multiplexer-load s c l u r = grind arith

port_table-Frozen : (full : Bool) (s : State) → Frozen s → Frozen (port_table full s)
unfolding port_table
port_table-Frozen full s f = check_out_multiplexer-Frozen _ (
    check_in_multiplexer-Frozen _ (free_port_table-Frozen full _ (listening_port_table-Frozen s f)))

port_table-Consistent : (full : Bool) (s : State) → Consistent s → Consistent (port_table full s)
unfolding port_table
port_table-Consistent full s c = check_out_multiplexer-Consistent _ (
    check_in_multiplexer-Consistent _
      (free_port_table-Consistent full _ (listening_port_table-Consistent s c)))

port_table-outcome :
    (full : Bool) (s : State) → Frozen s → Consistent s → outcome (port_table full s) ≡ outcome s
unfolding port_table
port_table-outcome full s f c =
    check_out_multiplexer-outcome _
    ∙ check_in_multiplexer-outcome _
        (free_port_table-Consistent full _ (listening_port_table-Consistent s c))
    ∙ free_port_table-outcome full _ (listening_port_table-Frozen s f)
    ∙ listening_port_table-outcome s f

check_in_out-load :
    (s : State)
    → Consistent s
    → s.check_listening_req ≡ []
    → s.check_used_req ≡ []
    → (load (check_out_multiplexer (check_in_multiplexer s)) ≤ load s - 1)
check_in_out-load s c l u = elim (check_in_multiplexer-load s) [
  | inl lt ↦ omega (arith, check_out_multiplexer-load-le (check_in_multiplexer s))
  | inr (same, none) ↦
      rw same
        (omega (arith, check_out_multiplexer-load s c l u none, check_out_multiplexer-load-le s))
]

check_in_out-load-le : (s : State) → load (check_out_multiplexer (check_in_multiplexer s)) ≤ load s
check_in_out-load-le s = elim (check_in_multiplexer-load s) [
  | inl lt ↦ omega (arith, check_out_multiplexer-load-le (check_in_multiplexer s))
  | inr (same, none) ↦ rw same (check_out_multiplexer-load-le s)
]

port_table-load :
    (full : Bool) (s : State) → Frozen s → Consistent s → load (port_table full s) ≤ load s - 1
unfolding port_table
port_table-load full s f c = elim (listening_port_table-load s f) [
  | inl lt ↦
      (elim (free_port_table-load full (listening_port_table s) (listening_port_table-Frozen s f)) [
        | inl lt' ↦
            omega (arith, check_in_out-load-le (free_port_table full (listening_port_table s)))
        | inr (same, _) ↦ rw same (omega (arith, check_in_out-load-le (listening_port_table s)))
      ])
  | inr (same, l) ↦ rw same (elim (free_port_table-load full s f) [
    | inl lt' ↦ omega (arith, check_in_out-load-le (free_port_table full s))
    | inr (same', u) ↦ rw same' (check_in_out-load s c l u)
  ])
]

-- `n` calls.
unfoldable pub calls : ℕ → Bool → State → State
calls zero full s = s
calls (suc n) full s = calls n full (port_table full s)

calls-done :
    (n : ℕ) (full : Bool) (s : State)
    → Frozen s
    → Consistent s
    → load s ≤ n
    → (load (calls n full s) ≡ 0) × (outcome (calls n full s) ≡ outcome s)
unfolding calls
calls-done zero full s f c h = (omega arith, refl)
calls-done (suc n) full s f c h =
    let f' = port_table-Frozen full s f in
    let c' = port_table-Consistent full s c in
    let rest =
      calls-done n full (port_table full s) f' c' (omega (arith, port_table-load full s f c)) in
    (rest.0, rest.1 ∙ port_table-outcome full s f c)

nil_of_length {ℓ} : {A : Type ℓ} (xs : List A) → length xs ≡ 0 → xs ≡ []
nil_of_length [] h = refl
nil_of_length (x ∷ xs) h = absurd (omega arith)

calls-Consistent : (n : ℕ) (full : Bool) (s : State) → Consistent s → Consistent (calls n full s)
unfolding calls
calls-Consistent zero full s c = c
calls-Consistent (suc n) full s c =
    calls-Consistent n full (port_table full s) (port_table-Consistent full s c)

outcome_of_no_load : (s : State) → load s ≡ 0 → Consistent s → outcome s ≡ s.check_rsp
outcome_of_no_load s h c =
    let q = nil_of_length s.check_req (omega arith) in
    let l = nil_of_length s.check_listening_req (omega arith) in
    let u = nil_of_length s.check_used_req (omega arith) in
    let d = nil_of_length s.check_dst (omega arith) in ground (arith, append-nil s.check_rsp)

-- The streams between the processes are empty, and no answer is under way.
abbrev pub Quiet : State → Type 0
Quiet s =
    (s.cm_fsm_state ≡ read_dst)
    × (s.check_dst ≡ [])
    × (s.check_listening_req ≡ [])
    × (s.check_used_req ≡ [])
    × (s.check_listening_rsp ≡ [])
    × (s.check_used_rsp ≡ [])

-- If no request that changes a table waits and no check is under way, then after four calls for
-- each waiting check request, or more, all of them are answered, in their order, each from the
-- entry of its port in the table of its half.
pub checks_answered_in_order :
    (n : ℕ) (full : Bool) (s : State)
    → Frozen s
    → Quiet s
    → 4 * length s.check_req ≤ n
    → (calls n full s).check_rsp ≡ s.check_rsp ++ map (answer s) s.check_req
checks_answered_in_order n full s f q h =
    let c : Consistent s = ground arith in
    let d = calls-done n full s f c (ground arith) in
    sym (outcome_of_no_load (calls n full s) d.0 (calls-Consistent n full s c)) ∙ d.1 ∙ ground arith
