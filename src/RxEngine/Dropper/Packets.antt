-- ===== src/RxEngine/Dropper/Packets.antt =====
-- What the payload dropper does with a whole payload.
use tcp_offload_engine_shell.Words.Cut.{IsPacket}
use tcp_offload_engine_shell.Prelude.{
  ℕ, zero, suc, ◌≡◌, Bool, true, false, Option, none, some, List, [], ◌∷◌, ◌++◌, length, arith, map,
}
use tcp_offload_engine_shell.Words.{NetAxisWord}
use tcp_offload_engine_shell.RxEngine.Dropper.{
  Regs, Ins, verify_checksum, fwd, drop, tcp_payload_dropper,
}

abbrev push : Option NetAxisWord → List NetAxisWord → List NetAxisWord
push none l = l
push (some w) l = w ∷ l

-- The variables, the streams and the words sent by `n` calls.
unfoldable pub calls : ℕ → Regs → Ins → Regs × List NetAxisWord × Ins
calls zero r i = (r, [], i)
calls (suc n) r i =
    let (r', w, i') = tcp_payload_dropper r i in
    let (r'', ws, i'') = calls n r' i' in (r'', push w ws, i'')

abbrev pub to_role : ℕ → NetAxisWord → NetAxisWord
to_role role w = record w { dest = role }

forward :
    (ws rest : List NetAxisWord) (role : ℕ) (i : Ins)
    → IsPacket ws
    → calls
        (length ws)
        (record { fsm_state = fwd; role_id = role })
        (record i { payload = ws ++ rest })
      ≡ (
        record { fsm_state = verify_checksum; role_id = role },
        map (to_role role) ws,
        record i { payload = rest },
      )
unfolding calls tcp_payload_dropper
forward [] rest role i h = absurd h
forward (w ∷ []) rest role i h = ground arith
forward (w ∷ v ∷ ws) rest role i h = ground (arith, forward (v ∷ ws) rest role i h.1)

discard :
    (ws rest : List NetAxisWord) (role : ℕ) (i : Ins)
    → IsPacket ws
    → calls
        (length ws)
        (record { fsm_state = drop; role_id = role })
        (record i { payload = ws ++ rest })
      ≡ (record { fsm_state = verify_checksum; role_id = role }, [], record i { payload = rest })
unfolding calls tcp_payload_dropper
discard [] rest role i h = absurd h
discard (w ∷ []) rest role i h = ground arith
discard (w ∷ v ∷ ws) rest role i h = ground (arith, discard (v ∷ ws) rest role i h.1)

-- Waiting for the first decision; the role is that of the payload before.
abbrev pub waiting : ℕ → Regs
waiting role = record { fsm_state = verify_checksum; role_id = role }

-- A payload that passes the three checks is sent whole, each word to the role found for its port,
-- by as many calls as it has words and three more; the streams then stand at the next payload.
pub payload_forwarded :
    (ws rest : List NetAxisWord) (old role : ℕ) (c p f : List Bool) (d : List ℕ)
    → IsPacket ws
    → calls (suc (suc (suc (length ws)))) (waiting old) (record {
      payload = ws ++ rest;
      by_checksum = false ∷ c;
      by_port_or_session = false ∷ p;
      tdest = role ∷ d;
      by_rx_fsm = false ∷ f;
    })
      ≡ (
        waiting role,
        map (to_role role) ws,
        record {
          payload = rest;
          by_checksum = c;
          by_port_or_session = p;
          tdest = d;
          by_rx_fsm = f;
        },
      )
unfolding calls tcp_payload_dropper
payload_forwarded ws rest old role c p f d h = ground (
  arith,
  forward ws rest role
      (record { payload = []; by_checksum = c; by_port_or_session = p; tdest = d; by_rx_fsm = f })
      h,
)

-- A payload that a check rejects is dropped whole and sends nothing; a check takes its decision
-- only if those before it passed, so that after a wrong checksum the other two are not asked.
pub payload_dropped :
    (ws rest : List NetAxisWord) (old role : ℕ) (c p f : List Bool) (d : List ℕ)
    → IsPacket ws
    → (calls (suc (length ws)) (waiting old) (record {
      payload = ws ++ rest;
      by_checksum = true ∷ c;
      by_port_or_session = p;
      tdest = d;
      by_rx_fsm = f;
    })
        ≡ (
          waiting old,
          [],
          record {
            payload = rest;
            by_checksum = c;
            by_port_or_session = p;
            tdest = d;
            by_rx_fsm = f;
          },
        ))
      × (calls (suc (suc (length ws))) (waiting old) (record {
        payload = ws ++ rest;
        by_checksum = false ∷ c;
        by_port_or_session = true ∷ p;
        tdest = role ∷ d;
        by_rx_fsm = f;
      })
          ≡ (
            waiting role,
            [],
            record {
              payload = rest;
              by_checksum = c;
              by_port_or_session = p;
              tdest = d;
              by_rx_fsm = f;
            },
          ))
      × (calls (suc (suc (suc (length ws)))) (waiting old) (record {
        payload = ws ++ rest;
        by_checksum = false ∷ c;
        by_port_or_session = false ∷ p;
        tdest = role ∷ d;
        by_rx_fsm = true ∷ f;
      })
          ≡ (
            waiting role,
            [],
            record {
              payload = rest;
              by_checksum = c;
              by_port_or_session = p;
              tdest = d;
              by_rx_fsm = f;
            },
          ))
unfolding calls tcp_payload_dropper
payload_dropped ws rest old role c p f d h =
    let i : Ins = record {
      payload = [];
      by_checksum = c;
      by_port_or_session = p;
      tdest = d;
      by_rx_fsm = f;
    } in
    (
      ground (arith, discard ws rest old i h),
      ground (arith, discard ws rest role i h),
      ground (arith, discard ws rest role i h),
    )
