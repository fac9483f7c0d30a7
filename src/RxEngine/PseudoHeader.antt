-- ===== src/RxEngine/PseudoHeader.antt =====
-- `RxEngTcpPseudoHeaderInsert` of hls/toe/rx_engine/rx_engine.cpp and `RemoveIpHeader` of
-- hls/toe/toe_utils.hpp: the pseudo header in place of the IP header of a received packet.
pub mod Removed
pub mod Calls
pub mod Inserted
use tcp_offload_engine_shell.Prelude.{
  ℕ, ◌+◌, ◌-◌, ◌*◌, ◌/◌, ◌%◌, ◌^◌, ◌==◌, Bool, true, false, not, Option, none, some, List, [], ◌∷◌,
  if◌then◌else◌, read, ltb,
}
use tcp_offload_engine_shell.Conn.Tables.{swap_byte16}
use tcp_offload_engine_shell.Words.{NetAxisWord, no_word, bit}
use tcp_offload_engine_shell.Words.Bits.{get, build}

-- The bytes before the last 12 of the IP header.
abbrev pub skipped : ℕ → ℕ
skipped ip_header_length = 4 * ip_header_length - 12

-- The eleven cases of the switch in one formula, for a length of 5 to 15 words. The case 9 takes
-- the bits of `keep` from another place than those of the data. The default case leaves the word
-- that is written to.
unfoldable pub remove_ip_header : NetAxisWord → NetAxisWord → ℕ → NetAxisWord → NetAxisWord
remove_ip_header cur prev ip_header_length send =
    let s = skipped ip_header_length in
    if ltb ip_header_length 5 then record send { dest = prev.dest } else record send {
      word = cur.word % 2 ^ (8 * s) * 2 ^ (8 * (64 - s)) + prev.word / 2 ^ (8 * s);
      keep =
          cur.keep % 2 ^ s * 2 ^ (64 - s)
          + prev.keep / 2 ^ (if ip_header_length == 9 then 36 else s);
      dest = prev.dest;
    }

pub data FsmState : Type 0 where
  ip_header tcp_payload extra_word : FsmState

pub record Regs : Type 0 where
  pub fsm_state : FsmState
  pub prev_word : NetAxisWord
  pub ip_header_length : ℕ
  pub ip_packet_length : ℕ
  pub keep_extra : ℕ
  pub dest_ip_addr : ℕ
  pub src_ip_addr : ℕ
  pub pseudo_header_not_inserted : Bool

-- The variables that are read from the first word. `keep_extra` has 6 bits.
abbrev pub read_header : Regs → NetAxisWord → Regs
read_header r w = record r {
  ip_header_length = get 3 0 w.word;
  ip_packet_length = swap_byte16 (get 31 16 w.word);
  src_ip_addr = get 127 96 w.word;
  dest_ip_addr = get 159 128 w.word;
  keep_extra = (4 * get 3 0 w.word + 52) % 2 ^ 6;
  prev_word = w;
}

-- The length of the segment, in 16 bits.
abbrev pub segment_length : Regs → ℕ
segment_length r = (r.ip_packet_length + 2 ^ 16 - r.ip_header_length * 4) % 2 ^ 16

abbrev pub pseudo_fields : Regs → List (ℕ × ℕ × ℕ)
pseudo_fields r =
    (63, 0, r.dest_ip_addr * 2 ^ 32 + r.src_ip_addr)
    ∷ (79, 64, 0x0600)
    ∷ (95, 80, swap_byte16 (segment_length r))
    ∷ []

-- The assignments to the first word that is sent.
unfoldable pub insert_pseudo_header : Regs → NetAxisWord → NetAxisWord
insert_pseudo_header r send = record send {
  word = build (pseudo_fields r) send.word;
  keep = send.keep / 2 ^ 12 * 2 ^ 12 + 0xFFF;
}

first_beat : Regs → NetAxisWord → Regs × Option NetAxisWord
unfolding remove_ip_header insert_pseudo_header
first_beat r w =
    let r' = read_header r w in
    if w.last
    then (
      r',
      some
          (record (insert_pseudo_header r'
            (remove_ip_header no_word w r'.ip_header_length no_word)) { last = true }),
    )
    else (record r' { pseudo_header_not_inserted = true; fsm_state = FsmState.tcp_payload }, none)

later_beat : Regs → NetAxisWord → Regs × Option NetAxisWord
unfolding remove_ip_header insert_pseudo_header
later_beat r w =
    let removed = remove_ip_header w r.prev_word r.ip_header_length no_word in
    let send = if r.pseudo_header_not_inserted then insert_pseudo_header r removed else removed in
    let more = bit w.keep r.keep_extra in
    (
      record r {
        pseudo_header_not_inserted = false;
        fsm_state =
            if w.last
            then if more then FsmState.extra_word else FsmState.ip_header
            else FsmState.tcp_payload;
        prev_word = w;
      },
      some (record send { last = if w.last then not more else false }),
    )

step_by : FsmState → Regs → List NetAxisWord → Regs × Option NetAxisWord × List NetAxisWord
unfolding first_beat later_beat remove_ip_header
step_by FsmState.ip_header r i = elim (read i) [
  | some (w, rest) ↦ let (r', o) = first_beat r w in (r', o, rest)
  | none ↦ (r, none, i)
]
step_by FsmState.tcp_payload r i = elim (read i) [
  | some (w, rest) ↦ let (r', o) = later_beat r w in (r', o, rest)
  | none ↦ (r, none, i)
]
step_by FsmState.extra_word r i = (
  record r { fsm_state = FsmState.ip_header },
  some (record (remove_ip_header no_word r.prev_word r.ip_header_length no_word) { last = true }),
  i,
)

-- One call of `RxEngTcpPseudoHeaderInsert`: the word goes to both streams.
unfoldable pub tcp_pseudo_header_insert :
    Regs → List NetAxisWord → Regs × Option NetAxisWord × List NetAxisWord
unfolding step_by
tcp_pseudo_header_insert r i = step_by r.fsm_state r i
