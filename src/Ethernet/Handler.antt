-- ===== src/Ethernet/Handler.antt =====
-- `PacketIdentify` and `EthernetRemover` of hls/packet_handler/packet_handler.cpp: a received frame
-- is labelled with its kind, and an IP packet loses its Ethernet header.
pub mod Labels
pub mod Removed
use tcp_offload_engine_shell.Prelude.{
  ℕ, ◌+◌, ◌-◌, ◌*◌, ◌/◌, ◌%◌, ◌^◌, ◌==◌, Bool, true, false, not, Option, none, some, List,
  if◌then◌else◌, read,
}
use tcp_offload_engine_shell.Conn.Tables.{swap_byte16}
use tcp_offload_engine_shell.Words.{NetAxisWord, no_word, bit, concat_two_words}
use tcp_offload_engine_shell.Words.Bits.{get}

pub data IdentifyFsmState : Type 0 where
  first_word fwd drop : IdentifyFsmState

pub record IdentifyRegs : Type 0 where
  pub pi_fsm_state : IdentifyFsmState
  pub tdest_r : ℕ

-- The label of a frame by its first word, if it is forwarded. `stray` is what the variable `tdest`
-- holds when nothing is assigned to it: an IPv4 frame whose version is not 4 is forwarded so.
unfoldable pub label : ℕ → ℕ → Option ℕ
label stray x =
    let ethernet_type = swap_byte16 (get 111 96 x) in
    let ip_protocol = get 191 184 x in
    if ethernet_type == 0x0806
    then some 0
    else if ethernet_type == 0x0800
    then if get 119 116 x == 4
      then if ip_protocol == 1
        then some 1
        else if ip_protocol == 6
        then some 2
        else if ip_protocol == 17
        then some 3
        else none
      else some stray
    else none

abbrev pub with_dest : ℕ → NetAxisWord → NetAxisWord
with_dest d w = record w { dest = d }

-- A frame that is dropped leaves `tdest_r` with the variable's old value, which is not read.
identify_first : ℕ → IdentifyRegs → NetAxisWord → IdentifyRegs × Option NetAxisWord
unfolding label
identify_first stray r w = elim (label stray w.word) [
  | some d ↦ (
    record {
      pi_fsm_state = if w.last then IdentifyFsmState.first_word else IdentifyFsmState.fwd;
      tdest_r = d;
    },
    some (with_dest d w),
  )
  | none ↦ (
    record {
      pi_fsm_state = if w.last then IdentifyFsmState.first_word else IdentifyFsmState.drop;
      tdest_r = stray;
    },
    none,
  )
]

identify_by :
    IdentifyFsmState
    → ℕ
    → IdentifyRegs
    → List NetAxisWord
    → IdentifyRegs × Option NetAxisWord × List NetAxisWord
unfolding identify_first
identify_by IdentifyFsmState.first_word stray r i = elim (read i) [
  | some (w, rest) ↦ let (r', o) = identify_first stray r w in (r', o, rest)
  | none ↦ (r, none, i)
]
identify_by IdentifyFsmState.fwd stray r i = elim (read i) [
  | some (w, rest) ↦ (
    record r {
      pi_fsm_state = if w.last then IdentifyFsmState.first_word else IdentifyFsmState.fwd;
    },
    some (with_dest r.tdest_r w),
    rest,
  )
  | none ↦ (r, none, i)
]
identify_by IdentifyFsmState.drop stray r i = elim (read i) [
  | some (w, rest) ↦ (
    record r {
      pi_fsm_state = if w.last then IdentifyFsmState.first_word else IdentifyFsmState.drop;
    },
    none,
    rest,
  )
  | none ↦ (r, none, i)
]

-- One call of `PacketIdentify`.
unfoldable pub packet_identify :
    ℕ → IdentifyRegs → List NetAxisWord → IdentifyRegs × Option NetAxisWord × List NetAxisWord
unfolding identify_by
packet_identify stray r i = identify_by r.pi_fsm_state stray r i

pub data RemoverFsmState : Type 0 where
  first_word fwd removing extra : RemoverFsmState

pub record RemoverRegs : Type 0 where
  pub er_fsm_state : RemoverFsmState
  pub prev_word : NetAxisWord

-- `prev_word` from byte 14 on and the head of `curr_word`: the same as `concat_two_words` at 14,
-- with the label of the word before.
moved : NetAxisWord → NetAxisWord → NetAxisWord
moved w p = record {
  word = w.word % 2 ^ 112 * 2 ^ 400 + p.word / 2 ^ 112;
  keep = w.keep % 2 ^ 14 * 2 ^ 50 + p.keep / 2 ^ 14;
  last = false;
  dest = p.dest;
}

-- The label 0 is that of the ARP packets, which keep their header.
remover_first : RemoverRegs → NetAxisWord → RemoverRegs × Option NetAxisWord
unfolding moved
remover_first r w =
    let arp = w.dest == 0 in
    (
      record {
        er_fsm_state =
            if w.last
            then RemoverFsmState.first_word
            else if arp
            then RemoverFsmState.fwd
            else RemoverFsmState.removing;
        prev_word = w;
      },
      if arp
          then some w
          else if w.last
          then some (record (moved no_word w) { last = true })
          else none,
    )

removing_beat : RemoverRegs → NetAxisWord → RemoverRegs × Option NetAxisWord
unfolding moved
removing_beat r w =
    let more = bit w.keep 14 in
    (
      record {
        er_fsm_state =
            if w.last
            then if more then RemoverFsmState.extra else RemoverFsmState.first_word
            else RemoverFsmState.removing;
        prev_word = w;
      },
      some (record (moved w r.prev_word) { last = if w.last then not more else false }),
    )

remover_by :
    RemoverFsmState
    → RemoverRegs
    → List NetAxisWord
    → RemoverRegs × Option NetAxisWord × List NetAxisWord
unfolding remover_first removing_beat moved
remover_by RemoverFsmState.first_word r i = elim (read i) [
  | some (w, rest) ↦ let (r', o) = remover_first r w in (r', o, rest)
  | none ↦ (r, none, i)
]
remover_by RemoverFsmState.fwd r i = elim (read i) [
  | some (w, rest) ↦ (
    record r { er_fsm_state = if w.last then RemoverFsmState.first_word else RemoverFsmState.fwd },
    some w,
    rest,
  )
  | none ↦ (r, none, i)
]
remover_by RemoverFsmState.removing r i = elim (read i) [
  | some (w, rest) ↦ let (r', o) = removing_beat r w in (r', o, rest)
  | none ↦ (r, none, i)
]
remover_by RemoverFsmState.extra r i = (
  record r { er_fsm_state = RemoverFsmState.first_word },
  some (record (moved no_word r.prev_word) { last = true }),
  i,
)

-- One call of `EthernetRemover`.
unfoldable pub ethernet_remover :
    RemoverRegs → List NetAxisWord → RemoverRegs × Option NetAxisWord × List NetAxisWord
unfolding remover_by
ethernet_remover r i = remover_by r.er_fsm_state r i
