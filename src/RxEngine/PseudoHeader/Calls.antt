-- ===== src/RxEngine/PseudoHeader/Calls.antt =====
-- The calls of `RxEngTcpPseudoHeaderInsert` of hls/toe/rx_engine/rx_engine.cpp for a packet.
use tcp_offload_engine_shell.Prelude.{
  ℕ, suc, ◌≡◌, ◌≤◌, ap, refl, ◌∙◌, true, false, Option, none, some, List, [], ◌∷◌, ◌++◌, length,
  length-map, map, arith, calls, calls-suc,
}
use tcp_offload_engine_shell.Words.{NetAxisWord}
use tcp_offload_engine_shell.Words.Bits.{get}
use tcp_offload_engine_shell.Words.Cut.{IsPacket, final_word, take_more}
use tcp_offload_engine_shell.RxEngine.PseudoHeader.Removed.{behind, removed}
use tcp_offload_engine_shell.RxEngine.PseudoHeader.{
  Regs, FsmState, skipped, insert_pseudo_header, read_header, tcp_pseudo_header_insert,
}

abbrev pub on_first : (NetAxisWord → NetAxisWord) → List NetAxisWord → List NetAxisWord
on_first f [] = []
on_first f (w ∷ ws) = f w ∷ ws

-- The words that are sent for a packet whose first word is `p`.
abbrev pub with_pseudo_header : Regs → NetAxisWord → List NetAxisWord → List NetAxisWord
with_pseudo_header r p ws =
    on_first (insert_pseudo_header (read_header r p)) (removed (get 3 0 p.word) p ws)

-- The variables behind the first word.
abbrev reading : Regs → NetAxisWord → Regs
reading r p = record r {
  fsm_state = FsmState.tcp_payload;
  pseudo_header_not_inserted = false;
  prev_word = p;
}

later_words :
    (n : ℕ) (p : NetAxisWord) (ws rest : List NetAxisWord) (r : Regs)
    → r.ip_header_length ≡ n
    → r.keep_extra ≡ skipped n
    → IsPacket ws
    → calls tcp_pseudo_header_insert (length (behind n p ws)) (reading r p) (ws ++ rest) ≡ (
      record (reading r (final_word p ws)) { fsm_state = FsmState.ip_header },
      map some (behind n p ws),
      rest,
    )
unfolding calls tcp_pseudo_header_insert
later_words n p [] rest r e k h = absurd h
later_words n p (w ∷ []) rest r e k h = ground arith
later_words n p (w ∷ v ∷ ws) rest r e k h = ground (arith, later_words n w (v ∷ ws) rest r e k h.1)

first_words :
    (n : ℕ) (p : NetAxisWord) (ws rest : List NetAxisWord) (r : Regs)
    → r.ip_header_length ≡ n
    → r.keep_extra ≡ skipped n
    → IsPacket ws
    → calls tcp_pseudo_header_insert
        (length (behind n p ws))
        (record (reading r p) { pseudo_header_not_inserted = true })
        (ws ++ rest)
      ≡ (
        record (reading r (final_word p ws)) { fsm_state = FsmState.ip_header },
        map some (on_first (insert_pseudo_header r) (behind n p ws)),
        rest,
      )
unfolding calls tcp_pseudo_header_insert insert_pseudo_header
first_words n p [] rest r e k h = absurd h
first_words n p (w ∷ []) rest r e k h = ground arith
first_words n p (w ∷ v ∷ ws) rest r e k h = ground (arith, later_words n w (v ∷ ws) rest r e k h.1)

first_call :
    (p : NetAxisWord) (rest : List NetAxisWord) (r : Regs)
    → r.fsm_state ≡ FsmState.ip_header
    → p.last ≡ false
    → tcp_pseudo_header_insert r (p ∷ rest)
      ≡ (record (reading (read_header r p) p) { pseudo_header_not_inserted = true }, none, rest)
unfolding tcp_pseudo_header_insert
first_call p rest r s l = rw (s, l) refl

pub single_call :
    (p : NetAxisWord) (rest : List NetAxisWord) (r : Regs)
    → r.fsm_state ≡ FsmState.ip_header
    → p.last ≡ true
    → calls tcp_pseudo_header_insert 1 r (p ∷ rest)
      ≡ (read_header r p, map some (with_pseudo_header r p []), rest)
unfolding calls tcp_pseudo_header_insert insert_pseudo_header
single_call p rest r s l = rw (s, l) refl

length-on_first :
    (f : NetAxisWord → NetAxisWord) (ws : List NetAxisWord) → length (on_first f ws) ≡ length ws
length-on_first f [] = refl
length-on_first f (w ∷ ws) = refl

several_calls :
    (p w : NetAxisWord) (ws rest : List NetAxisWord) (r : Regs)
    → r.fsm_state ≡ FsmState.ip_header
    → 5 ≤ get 3 0 p.word
    → get 3 0 p.word ≤ 15
    → IsPacket (p ∷ w ∷ ws)
    → calls tcp_pseudo_header_insert
        (suc (length (behind (get 3 0 p.word) p (w ∷ ws))))
        r
        (p ∷ (w ∷ ws ++ rest))
      ≡ (
        record (reading (read_header r p) (final_word p (w ∷ ws))) {
          fsm_state = FsmState.ip_header;
        },
        none ∷ map some (with_pseudo_header r p (w ∷ ws)),
        rest,
      )
several_calls p w ws rest r s lo hi h =
    let n : ℕ = get 3 0 p.word in
    let started : Regs = read_header r p in
    calls-suc tcp_pseudo_header_insert (length (behind n p (w ∷ ws))) r
      (record (reading started p) { pseudo_header_not_inserted = true }) (p ∷ (w ∷ ws ++ rest))
      (w ∷ ws ++ rest) none (first_call p (w ∷ ws ++ rest) r s h.0)
    ∙ ap (λ (x : Regs × List (Option NetAxisWord) × List NetAxisWord). (x.0, none ∷ x.1, x.2))
        (first_words n p (w ∷ ws) rest started refl (omega (arith, lo, hi)) h.1)

pub inserted_calls :
    (p : NetAxisWord) (ws rest : List NetAxisWord) (r : Regs)
    → r.fsm_state ≡ FsmState.ip_header
    → 5 ≤ get 3 0 p.word
    → get 3 0 p.word ≤ 15
    → IsPacket (p ∷ ws)
    → let os = take_more ws ++ map some (with_pseudo_header r p ws) in
      let (r', os', rest') = calls tcp_pseudo_header_insert (length os) r (p ∷ (ws ++ rest)) in
      (r'.fsm_state ≡ FsmState.ip_header) × (os' ≡ os) × (rest' ≡ rest)
inserted_calls p [] rest r s lo hi h = rw (single_call p rest r s h) (s, refl, refl)
inserted_calls p (w ∷ ws) rest r s lo hi h =
    rw
      (
        length-map some (with_pseudo_header r p (w ∷ ws)),
        length-on_first (insert_pseudo_header (read_header r p))
            (behind (get 3 0 p.word) p (w ∷ ws)),
        several_calls p w ws rest r s lo hi h,
      )
      (refl, refl, refl)
