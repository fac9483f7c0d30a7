-- ===== src/Ethernet/Inserter.antt =====
-- hls/ethernet_header_inserter/ethernet_header_inserter.cpp: the Ethernet header in front of an IP
-- packet. The first word of a packet goes one way, where it gets its checksum, and the rest
-- another.
pub mod Frames
pub mod Checksum
use tcp_offload_engine_shell.Prelude.{
  ℕ, zero, suc, ◌+◌, ◌-◌, ◌*◌, ◌/◌, ◌%◌, ◌^◌, ◌==◌, Bool, true, false, not, ◌&&◌, Option, none,
  some, List, [], ◌∷◌, if◌then◌else◌, read, ltb,
}
use tcp_offload_engine_shell.Words.{NetAxisWord, no_word, bit}
use tcp_offload_engine_shell.Words.Bits.{get, build}

-- `x & y` for numbers of so many bits.
and_bits : ℕ → ℕ → ℕ → ℕ
and_bits zero x y = 0
and_bits (suc n) x y = x % 2 * (y % 2) + 2 * and_bits n (x / 2) (y / 2)

pub data BmrFsmState : Type 0 where
  first_word remaining : BmrFsmState

pub record BmrOuts : Type 0 where
  pub arp_table_req : Option ℕ
  pub ip_header_out : Option NetAxisWord
  pub no_ip_header_out : Option NetAxisWord

-- The address that is asked for: that of the gateway for a host in another network.
unfoldable pub next_hop : ℕ → ℕ → ℕ → ℕ
unfolding and_bits
next_hop subnet_mask gateway_ip_addr dst_ip_addr =
    if and_bits 32 dst_ip_addr subnet_mask == and_bits 32 gateway_ip_addr subnet_mask
    then dst_ip_addr
    else gateway_ip_addr

-- One call of `BroadcastMacRequest`.
unfoldable pub broadcast_mac_request :
    ℕ → ℕ → BmrFsmState → List NetAxisWord → BmrFsmState × BmrOuts × List NetAxisWord
unfolding next_hop
broadcast_mac_request mask gateway BmrFsmState.first_word i = elim (read i) [
  | some (w, rest) ↦ (
    if w.last then BmrFsmState.first_word else BmrFsmState.remaining,
    record {
      arp_table_req = some (next_hop mask gateway (get 159 128 w.word));
      ip_header_out = some w;
      no_ip_header_out = none;
    },
    rest,
  )
  | none ↦ (
    BmrFsmState.first_word,
    record { arp_table_req = none; ip_header_out = none; no_ip_header_out = none },
    i,
  )
]
broadcast_mac_request mask gateway BmrFsmState.remaining i = elim (read i) [
  | some (w, rest) ↦ (
    if w.last then BmrFsmState.first_word else BmrFsmState.remaining,
    record { arp_table_req = none; ip_header_out = none; no_ip_header_out = some w },
    rest,
  )
  | none ↦ (
    BmrFsmState.remaining,
    record { arp_table_req = none; ip_header_out = none; no_ip_header_out = none },
    i,
  )
]

-- The first 14 bytes of the next word; `last` is not used.
pub record MacHeader : Type 0 where
  pub word : ℕ
  pub keep : ℕ

pub record ArpTableRsp : Type 0 where
  pub mac_addr : ℕ
  pub hit : Bool

pub data MwState : Type 0 where
  wait_lookup drop_ip drop_no_ip write_first_transaction write_remaining write_extra_last_word :
      MwState

pub record Regs : Type 0 where
  pub mw_state : MwState
  pub previous_word : MacHeader

pub record Ins : Type 0 where
  pub arp_table_rsp : List ArpTableRsp
  pub ip_header_with_checksum : List NetAxisWord
  pub no_ip_header_out : List NetAxisWord

-- The header of the frame, written over the bytes of the word before.
unfoldable pub mac_header : ℕ → ℕ → ℕ → MacHeader
mac_header my_mac_addr mac_addr old = record {
  word = build ((47, 0, mac_addr) ∷ (95, 48, my_mac_addr) ∷ (111, 96, 0x0008) ∷ []) old;
  keep = 0x3FFF;
}

-- The end of a word, for the start of the next.
abbrev pub left_over : NetAxisWord → MacHeader
left_over w = record { word = w.word / 2 ^ 400; keep = w.keep / 2 ^ 50 }

abbrev pub behind : MacHeader → NetAxisWord → NetAxisWord
behind p w = record no_word {
  word = w.word % 2 ^ 400 * 2 ^ 112 + p.word;
  keep = w.keep % 2 ^ 50 * 2 ^ 14 + p.keep;
}

-- The cases WRITE_FIRST_TRANSACTION and WRITE_REMAINING for a word.
write_beat : Regs → NetAxisWord → Regs × Option NetAxisWord
write_beat r w =
    let more = bit w.keep 50 in
    (
      record {
        mw_state =
            if w.last
            then if more then MwState.write_extra_last_word else MwState.wait_lookup
            else MwState.write_remaining;
        previous_word = left_over w;
      },
      some (record (behind r.previous_word w) { last = if w.last then not more else false }),
    )

output_by : MwState → ℕ → Regs → Ins → Regs × Option NetAxisWord × Ins
unfolding mac_header write_beat
output_by MwState.wait_lookup mac r i = elim (read i.arp_table_rsp) [
  | some (reply, rest) ↦ (
    if reply.hit
        then record {
          mw_state = MwState.write_first_transaction;
          previous_word = mac_header mac reply.mac_addr r.previous_word.word;
        }
        else record r { mw_state = MwState.drop_ip },
    none,
    record i { arp_table_rsp = rest },
  )
  | none ↦ (r, none, i)
]
output_by MwState.drop_ip mac r i = elim (read i.ip_header_with_checksum) [
  | some (w, rest) ↦ (
    record r { mw_state = if w.last then MwState.wait_lookup else MwState.drop_no_ip },
    none,
    record i { ip_header_with_checksum = rest },
  )
  | none ↦ (r, none, i)
]
output_by MwState.drop_no_ip mac r i = elim (read i.no_ip_header_out) [
  | some (w, rest) ↦ (
    record r { mw_state = if w.last then MwState.wait_lookup else MwState.drop_no_ip },
    none,
    record i { no_ip_header_out = rest },
  )
  | none ↦ (r, none, i)
]
output_by MwState.write_first_transaction mac r i = elim (read i.ip_header_with_checksum) [
  | some (w, rest) ↦
      let (r', o) = write_beat r w in (r', o, record i { ip_header_with_checksum = rest })
  | none ↦ (r, none, i)
]
output_by MwState.write_remaining mac r i = elim (read i.no_ip_header_out) [
  | some (w, rest) ↦ let (r', o) = write_beat r w in (r', o, record i { no_ip_header_out = rest })
  | none ↦ (r, none, i)
]
output_by MwState.write_extra_last_word mac r i = (
  record r { mw_state = MwState.wait_lookup },
  some (record (behind r.previous_word no_word) { last = true }),
  i,
)

-- One call of `EthernetHandleOutput`.
unfoldable pub ethernet_handle_output : ℕ → Regs → Ins → Regs × Option NetAxisWord × Ins
unfolding output_by
ethernet_handle_output my_mac_addr r i = output_by r.mw_state my_mac_addr r i

-- The 16-bit number `i` of the header, in network byte order. The numbers behind the header and the
-- checksum count as 0.
abbrev pub ip_op : ℕ → ℕ → ℕ
ip_op x i =
    let lane = x / 2 ^ (16 * i) % 2 ^ 16 in
    if ltb i (x % 2 ^ 4 * 2) && not (i == 5) then lane % 2 ^ 8 * 2 ^ 8 + lane / 2 ^ 8 else 0

unfoldable pub ip_ops : ℕ → ℕ → ℕ → List ℕ
ip_ops x i zero = []
ip_ops x i (suc n) = ip_op x i ∷ ip_ops x (suc i) n

-- One level of the adder tree, of so many bits; what is left over goes up as it is.
unfoldable pub level : ℕ → List ℕ → List ℕ
level w [] = []
level w (x ∷ []) = x ∷ []
level w (x ∷ y ∷ xs) = (x + y) % 2 ^ w ∷ level w xs

unfoldable pub first_of : List ℕ → ℕ
first_of [] = 0
first_of (x ∷ xs) = x

unfoldable pub ip_chksum : ℕ → ℕ
unfolding ip_ops level first_of
ip_chksum x =
    let sum = first_of (level 21 (level 20 (level 19 (level 18 (level 17 (ip_ops x 0 30)))))) in
    let once = (sum % 2 ^ 16 + sum / 2 ^ 16) % 2 ^ 17 in
    let final_sum = (once / 2 ^ 16 + once) % 2 ^ 17 in 2 ^ 16 - 1 - final_sum % 2 ^ 16

-- One call of `ComputeAndInsertIpv4Checksum`.
unfoldable pub compute_and_insert_ipv4_checksum :
    List NetAxisWord → Option NetAxisWord × List NetAxisWord
unfolding ip_chksum
compute_and_insert_ipv4_checksum i = elim (read i) [
  | some (w, rest) ↦
      let checksum = ip_chksum w.word in
      (
        some (record w {
          word = build ((95, 88, checksum % 2 ^ 8) ∷ (87, 80, checksum / 2 ^ 8) ∷ []) w.word;
        }),
        rest,
      )
  | none ↦ (none, i)
]
