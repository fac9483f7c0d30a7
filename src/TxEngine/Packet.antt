-- ===== src/TxEngine/Packet.antt =====
-- `TxEngConstructPseudoPacket` and `TxEngRemovePseudoHeader` of hls/toe/tx_engine/tx_engine.cpp:
-- the payload behind the header, for the checksum, and the packet without its pseudo header.
pub mod Payload
pub mod Removed
use tcp_offload_engine_shell.Prelude.{
  ℕ, Bool, true, false, not, Option, none, some, List, if◌then◌else◌, read,
}
use tcp_offload_engine_shell.Words.{
  NetAxisWord, no_word, bit, concat_two_words, merge_two_words_head,
}

pub data PseudoFsmState : Type 0 where
  read_pseudo read_payload extra_word : PseudoFsmState

pub record PseudoRegs : Type 0 where
  pub fsm_state : PseudoFsmState
  pub prev_word : NetAxisWord

pub record PseudoIns : Type 0 where
  pub full_header : List NetAxisWord
  pub contains_payload : List Bool
  pub payload : List NetAxisWord

-- `case READ_PAYLOAD`, which takes the head of the word before whichever word that is.
payload_beat : PseudoRegs → NetAxisWord → PseudoRegs × Option NetAxisWord
payload_beat r w =
    let more = bit w.keep 32 in
    (
      record {
        fsm_state =
            if w.last
            then if more then PseudoFsmState.extra_word else PseudoFsmState.read_pseudo
            else PseudoFsmState.read_payload;
        prev_word = w;
      },
      some (record (merge_two_words_head w r.prev_word 32 no_word) {
        last = if w.last then not more else false;
      }),
    )

pseudo_by : PseudoFsmState → PseudoRegs → PseudoIns → PseudoRegs × Option NetAxisWord × PseudoIns
unfolding payload_beat
pseudo_by PseudoFsmState.read_pseudo r i = elim (read i.full_header) [
  | some (h, rest) ↦ elim (read i.contains_payload) [
    | some (payload, flags) ↦ (
      if payload then record { fsm_state = PseudoFsmState.read_payload; prev_word = h } else r,
      if payload then none else some h,
      record i { full_header = rest; contains_payload = flags },
    )
    | none ↦ (r, none, i)
  ]
  | none ↦ (r, none, i)
]
pseudo_by PseudoFsmState.read_payload r i = elim (read i.payload) [
  | some (w, rest) ↦ let (r', o) = payload_beat r w in (r', o, record i { payload = rest })
  | none ↦ (r, none, i)
]
pseudo_by PseudoFsmState.extra_word r i = (
  record r { fsm_state = PseudoFsmState.read_pseudo },
  some (record (concat_two_words no_word r.prev_word 32 no_word) { last = true }),
  i,
)

-- One call of `TxEngConstructPseudoPacket`: the word goes to both streams.
unfoldable pub construct_pseudo_packet :
    PseudoRegs → PseudoIns → PseudoRegs × Option NetAxisWord × PseudoIns
unfolding pseudo_by
construct_pseudo_packet r i = pseudo_by r.fsm_state r i

pub data RemoverFsmState : Type 0 where
  read_first read_more_payload extra : RemoverFsmState

pub record RemoverRegs : Type 0 where
  pub fsm_state : RemoverFsmState
  pub prev_word : NetAxisWord

first_beat : RemoverRegs → NetAxisWord → RemoverRegs × Option NetAxisWord
first_beat r w =
    if w.last
    then (r, some (record (concat_two_words no_word w 12 no_word) { last = true }))
    else (record { fsm_state = RemoverFsmState.read_more_payload; prev_word = w }, none)

more_beat : RemoverRegs → NetAxisWord → RemoverRegs × Option NetAxisWord
more_beat r w =
    let more = bit w.keep 12 in
    (
      record {
        fsm_state =
            if w.last
            then if more then RemoverFsmState.extra else RemoverFsmState.read_first
            else RemoverFsmState.read_more_payload;
        prev_word = w;
      },
      some (record (concat_two_words w r.prev_word 12 no_word) {
        last = if w.last then not more else false;
      }),
    )

remover_by :
    RemoverFsmState
    → RemoverRegs
    → List NetAxisWord
    → RemoverRegs × Option NetAxisWord × List NetAxisWord
unfolding first_beat more_beat
remover_by RemoverFsmState.read_first r i = elim (read i) [
  | some (w, rest) ↦ let (r', o) = first_beat r w in (r', o, rest)
  | none ↦ (r, none, i)
]
remover_by RemoverFsmState.read_more_payload r i = elim (read i) [
  | some (w, rest) ↦ let (r', o) = more_beat r w in (r', o, rest)
  | none ↦ (r, none, i)
]
remover_by RemoverFsmState.extra r i = (
  record r { fsm_state = RemoverFsmState.read_first },
  some (record (concat_two_words no_word r.prev_word 12 no_word) { last = true }),
  i,
)

-- One call of `TxEngRemovePseudoHeader`.
unfoldable pub remove_pseudo_header :
    RemoverRegs → List NetAxisWord → RemoverRegs × Option NetAxisWord × List NetAxisWord
unfolding remover_by
remove_pseudo_header r i = remover_by r.fsm_state r i
