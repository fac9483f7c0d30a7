-- ===== src/PortTable/Order.antt =====
-- The check requests of the rx engine: the multiplexers return the answers in the order of the
-- requests, whichever table each one went to.
use mathlib.Core.List.{append_assoc, map-append}
use tcp_offload_engine_shell.Prelude.{
  ℕ, suc, ◌+◌, ◌≡◌, ◌∙◌, sym, ap, refl, Bool, true, false, List, [], ◌∷◌, ◌++◌, arith,
  if◌then◌else◌, map, length, length-append, length-map,
}
use tcp_offload_engine_shell.Conn.Tables.{PtableToRxEngRsp}
use tcp_offload_engine_shell.PortTable.{
  State, CmFsmState, read_dst, read_listening, read_used, bit15, low15, entry_rsp,
  listening_port_table, free_port_table, check_in_multiplexer, check_out_multiplexer,
}

-- The specification: the answer to one request.
abbrev pub answer : State → ℕ → PtableToRxEngRsp
answer s p =
    if bit15 p
    then entry_rsp (s.free_port_table (low15 p))
    else entry_rsp (s.listening_port_table (low15 p))

-- The answers of the two tables, in the order in which the requests were passed on.
abbrev pub merge {ℓ} : {A : Type ℓ} → List Bool → List A → List A → List A
merge [] l u = []
merge (true ∷ d) [] u = []
merge (true ∷ d) (a ∷ l) u = a ∷ merge d l u
merge (false ∷ d) l [] = []
merge (false ∷ d) l (a ∷ u) = a ∷ merge d l u

abbrev pub trues : List Bool → ℕ
trues [] = 0
trues (true ∷ d) = suc (trues d)
trues (false ∷ d) = trues d

abbrev pub falses : List Bool → ℕ
falses [] = 0
falses (true ∷ d) = falses d
falses (false ∷ d) = suc (falses d)

trues-append : (d e : List Bool) → trues (d ++ e) ≡ trues d + trues e
trues-append [] e = omega arith
trues-append (true ∷ d) e = omega (arith, trues-append d e)
trues-append (false ∷ d) e = trues-append d e

falses-append : (d e : List Bool) → falses (d ++ e) ≡ falses d + falses e
falses-append [] e = omega arith
falses-append (true ∷ d) e = falses-append d e
falses-append (false ∷ d) e = omega (arith, falses-append d e)

merge-append_true {ℓ} :
    {A : Type ℓ} (d : List Bool) (l u : List A) (a : A)
    → trues d ≡ length l
    → falses d ≡ length u
    → merge (d ++ (true ∷ [])) (l ++ (a ∷ [])) u ≡ merge d l u ++ (a ∷ [])
merge-append_true [] [] u a p q = refl
merge-append_true [] (b ∷ l) u a p q = absurd (omega arith)
merge-append_true (true ∷ d) [] u a p q = absurd (omega arith)
merge-append_true (true ∷ d) (b ∷ l) u a p q =
    ap (λ r. b ∷ r) (merge-append_true d l u a (omega arith) q)
merge-append_true (false ∷ d) l [] a p q = absurd (omega arith)
merge-append_true (false ∷ d) l (b ∷ u) a p q =
    ap (λ r. b ∷ r) (merge-append_true d l u a p (omega arith))

merge-append_false {ℓ} :
    {A : Type ℓ} (d : List Bool) (l u : List A) (a : A)
    → trues d ≡ length l
    → falses d ≡ length u
    → merge (d ++ (false ∷ [])) l (u ++ (a ∷ [])) ≡ merge d l u ++ (a ∷ [])
merge-append_false [] l [] a p q = refl
merge-append_false [] l (b ∷ u) a p q = absurd (omega arith)
merge-append_false (true ∷ d) [] u a p q = absurd (omega arith)
merge-append_false (true ∷ d) (b ∷ l) u a p q =
    ap (λ r. b ∷ r) (merge-append_false d l u a (omega arith) q)
merge-append_false (false ∷ d) l [] a p q = absurd (omega arith)
merge-append_false (false ∷ d) l (b ∷ u) a p q =
    ap (λ r. b ∷ r) (merge-append_false d l u a p (omega arith))

-- The tables whose answers are still to come, the one the multiplexer waits for included.
abbrev pub pending : CmFsmState → List Bool → List Bool
pending CmFsmState.read_dst d = d
pending CmFsmState.read_listening d = true ∷ d
pending CmFsmState.read_used d = false ∷ d

abbrev pub listening_answers : State → List PtableToRxEngRsp
listening_answers s =
    s.check_listening_rsp ++ map (λ p. entry_rsp (s.listening_port_table p)) s.check_listening_req

abbrev pub used_answers : State → List PtableToRxEngRsp
used_answers s = s.check_used_rsp ++ map (λ p. entry_rsp (s.free_port_table p)) s.check_used_req

-- All answers that the rx engine has or will get, if the tables stay as they are.
abbrev pub outcome : State → List PtableToRxEngRsp
outcome s =
    s.check_rsp
    ++ (merge (pending s.cm_fsm_state s.check_dst) (listening_answers s) (used_answers s)
        ++ map (answer s) s.check_req)

-- Each table owes as many answers as are noted for it.
abbrev pub Consistent : State → Type 0
Consistent s =
    (trues (pending s.cm_fsm_state s.check_dst)
      ≡ length s.check_listening_rsp + length s.check_listening_req)
    × (falses (pending s.cm_fsm_state s.check_dst)
        ≡ length s.check_used_rsp + length s.check_used_req)

-- No request that changes a table waits.
abbrev pub Frozen : State → Type 0
Frozen s = (s.listen_port_req ≡ []) × (s.release_port_req ≡ []) × (s.tx_app_req ≡ [])

pub listening_port_table-Consistent :
    (s : State) → Consistent s → Consistent (listening_port_table s)
unfolding listening_port_table
listening_port_table-Consistent s c = grind (arith, length-append)

pub free_port_table-Consistent :
    (full : Bool) (s : State) → Consistent s → Consistent (free_port_table full s)
unfolding free_port_table
free_port_table-Consistent full s c = grind (arith, length-append)

pub check_out_multiplexer-Consistent :
    (s : State) → Consistent s → Consistent (check_out_multiplexer s)
unfolding check_out_multiplexer
check_out_multiplexer-Consistent s c = ground arith

trues-pending :
    (f : CmFsmState) (d : List Bool) (b : Bool)
    → trues (pending f (d ++ (b ∷ []))) ≡ trues (pending f d) + (if b then 1 else 0)
trues-pending f d b = ground (arith, trues-append d (b ∷ []))

falses-pending :
    (f : CmFsmState) (d : List Bool) (b : Bool)
    → falses (pending f (d ++ (b ∷ []))) ≡ falses (pending f d) + (if b then 0 else 1)
falses-pending f d b = ground (arith, falses-append d (b ∷ []))

pub check_in_multiplexer-Consistent :
    (s : State) → Consistent s → Consistent (check_in_multiplexer s)
unfolding check_in_multiplexer
check_in_multiplexer-Consistent s c = grind (arith, trues-pending, falses-pending, length-append)

-- outcome of parts: the arguments of the outcome
pub listening_port_table-outcome :
    (s : State) → Frozen s → outcome (listening_port_table s) ≡ outcome s
unfolding listening_port_table
listening_port_table-outcome s f = grind (arith, append_assoc)

pub free_port_table-outcome :
    (full : Bool) (s : State) → Frozen s → outcome (free_port_table full s) ≡ outcome s
unfolding free_port_table
free_port_table-outcome full s f = grind (arith, append_assoc)

pub check_out_multiplexer-outcome : (s : State) → outcome (check_out_multiplexer s) ≡ outcome s
unfolding check_out_multiplexer
check_out_multiplexer-outcome s = grind (arith, append_assoc)

length-listening_answers :
    (s : State)
    → length (listening_answers s) ≡ length s.check_listening_rsp + length s.check_listening_req
length-listening_answers s = grind (arith, length-append, length-map)

length-used_answers :
    (s : State) → length (used_answers s) ≡ length s.check_used_rsp + length s.check_used_req
length-used_answers s = grind (arith, length-append, length-map)

pending-append : (f : CmFsmState) (d e : List Bool) → pending f (d ++ e) ≡ pending f d ++ e
pending-append read_dst d e = refl
pending-append read_listening d e = refl
pending-append read_used d e = refl

append-map-snoc {ℓ κ} :
    {A : Type ℓ} {B : Type κ} (f : A → B) (l : List B) (m : List A) (a : A)
    → l ++ map f (m ++ (a ∷ [])) ≡ (l ++ map f m) ++ (f a ∷ [])
append-map-snoc f l m a = rw (map-append, append_assoc)

enqueue_true {ℓ} :
    {A : Type ℓ} (d : List Bool) (l u r : List A) (m : List ℕ) (f : ℕ → A) (p : ℕ)
    → trues d ≡ length (l ++ map f m)
    → falses d ≡ length u
    → merge (d ++ (true ∷ [])) (l ++ map f (m ++ (p ∷ []))) u ++ r
      ≡ merge d (l ++ map f m) u ++ (f p ∷ r)
enqueue_true d l u r m f p h k =
    rw (append-map-snoc f l m p)
      (rw (merge-append_true d (l ++ map f m) u (f p) h k) (rw append_assoc))

enqueue_false {ℓ} :
    {A : Type ℓ} (d : List Bool) (l u r : List A) (m : List ℕ) (f : ℕ → A) (p : ℕ)
    → trues d ≡ length l
    → falses d ≡ length (u ++ map f m)
    → merge (d ++ (false ∷ [])) l (u ++ map f (m ++ (p ∷ []))) ++ r
      ≡ merge d l (u ++ map f m) ++ (f p ∷ r)
enqueue_false d l u r m f p h k =
    rw (append-map-snoc f u m p)
      (rw (merge-append_false d l (u ++ map f m) (f p) h k) (rw append_assoc))

pub check_in_multiplexer-outcome :
    (s : State) → Consistent s → outcome (check_in_multiplexer s) ≡ outcome s
unfolding check_in_multiplexer
check_in_multiplexer-outcome s c = go s.check_req refl
  where
    d : List Bool
    d = pending s.cm_fsm_state s.check_dst

    ends : (trues d ≡ length (listening_answers s)) × (falses d ≡ length (used_answers s))
    ends = (c.0 ∙ sym (length-listening_answers s), c.1 ∙ sym (length-used_answers s))

    go : (l : List ℕ) → s.check_req ≡ l → outcome (check_in_multiplexer s) ≡ outcome s
    go [] e = ground arith
    go (p ∷ l) e = ground (
      arith,
      pending-append s.cm_fsm_state s.check_dst (true ∷ []),
      pending-append s.cm_fsm_state s.check_dst (false ∷ []),
      enqueue_true d s.check_listening_rsp (used_answers s) (map (answer s) l) s.check_listening_req
          (λ p. entry_rsp (s.listening_port_table p)) (low15 p) ends.0 ends.1,
      enqueue_false d (listening_answers s) s.check_used_rsp (map (answer s) l) s.check_used_req
          (λ p. entry_rsp (s.free_port_table p)) (low15 p) ends.0 ends.1,
    )
