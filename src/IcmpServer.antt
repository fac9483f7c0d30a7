-- ===== src/IcmpServer.antt =====
-- hls/icmp_server/icmp_server.cpp: the answer to an echo request.
pub mod Reply
use tcp_offload_engine_shell.Prelude.{
  ℕ, zero, suc, ◌+◌, ◌-◌, ◌*◌, ◌/◌, ◌%◌, ◌^◌, ◌==◌, Bool, true, false, not, ◌&&◌, Option, none,
  some, List, [], ◌∷◌, if◌then◌else◌, read,
}
use tcp_offload_engine_shell.Words.{NetAxisWord, bit}
use tcp_offload_engine_shell.Words.Bits.{get, build}

-- The first so many bytes in the opposite order.
abbrev pub reverse_bytes : ℕ → ℕ → ℕ
reverse_bytes zero x = 0
reverse_bytes (suc n) x = x % 2 ^ 8 * 2 ^ (8 * n) + reverse_bytes n (x / 2 ^ 8)

-- `ComputeChechkSum20B`, with its adder tree.
unfoldable pub compute_check_sum_20b : ℕ → ℕ
compute_check_sum_20b ip_header =
    let lane = λ (m : ℕ). ip_header / 2 ^ (16 * m) % 2 ^ 16 in
    let pair = λ (m : ℕ). (lane (2 * m) + lane (2 * m + 1)) % 2 ^ 17 in
    let low = (pair 0 + pair 1) % 2 ^ 18 in
    let high = (pair 2 + pair 3) % 2 ^ 18 in
    let sum = (low + high + pair 4) % 2 ^ 20 in
    let r = (sum % 2 ^ 16 + sum / 2 ^ 16) % 2 ^ 17 in
    let o = (sum % 2 ^ 16 + sum / 2 ^ 16 + 1) % 2 ^ 17 in
    2 ^ 16 - 1 - (if bit r 16 then o % 2 ^ 16 else r % 2 ^ 16)

pub data IcmpState : Type 0 where
  read_packet evaluate_conditions send_first_word forward drop_packet : IcmpState

pub record Regs : Type 0 where
  pub fsm_state : IcmpState
  pub prev_word : NetAxisWord
  pub dst_ip : ℕ
  pub icmp_checksum : ℕ
  pub icmp_type : ℕ
  pub icmp_code : ℕ
  pub auxin_checksum_reg : ℕ

-- `case READ_PACKET`.
unfoldable pub take_packet : NetAxisWord → Regs
unfolding compute_check_sum_20b
take_packet w = record {
  fsm_state = IcmpState.evaluate_conditions;
  prev_word = w;
  dst_ip = get 159 128 w.word;
  icmp_checksum = (get 183 176 w.word * 2 ^ 8 + get 191 184 w.word + 0x0800) % 2 ^ 17;
  icmp_type = get 167 160 w.word;
  icmp_code = get 175 168 w.word;
  auxin_checksum_reg = compute_check_sum_20b (reverse_bytes 20 w.word);
}

abbrev pub is_request : ℕ → Regs → Bool
is_request my_ipaddr r =
    r.dst_ip == my_ipaddr && (r.icmp_type == 0x08 && r.icmp_code == 0) && r.auxin_checksum_reg == 0

abbrev pub icmp_checksum_tmp : Regs → ℕ
icmp_checksum_tmp r = (r.icmp_checksum % 2 ^ 16 + r.icmp_checksum / 2 ^ 16) % 2 ^ 17

abbrev pub reply_fields : Regs → List (ℕ × ℕ × ℕ)
reply_fields r =
    (71, 64, 128)
    ∷ (95, 72, 0x01)
    ∷ (95, 80, 0)
    ∷ (127, 96, get 159 128 r.prev_word.word)
    ∷ (159, 128, get 127 96 r.prev_word.word)
    ∷ (167, 160, 0x00)
    ∷ (191, 176, icmp_checksum_tmp r % 2 ^ 8 * 2 ^ 8 + icmp_checksum_tmp r / 2 ^ 8 % 2 ^ 8)
    ∷ []

unfoldable pub reply_word : Regs → NetAxisWord
reply_word r = record r.prev_word { word = build (reply_fields r) r.prev_word.word }

-- `stray` is the `last` of the local word, which EVALUATE_CONDITIONS reads without an assignment.
server_by :
    IcmpState → ℕ → Bool → Regs → List NetAxisWord → Regs × Option NetAxisWord × List NetAxisWord
unfolding take_packet reply_word
server_by IcmpState.read_packet ip stray r i = elim (read i) [
  | some (w, rest) ↦ (take_packet w, none, rest)
  | none ↦ (r, none, i)
]
server_by IcmpState.evaluate_conditions ip stray r i = (
  record r {
    fsm_state =
        if is_request ip r
        then IcmpState.send_first_word
        else if stray
        then IcmpState.read_packet
        else IcmpState.drop_packet;
  },
  none,
  i,
)
server_by IcmpState.send_first_word ip stray r i = (
  record r { fsm_state = if r.prev_word.last then IcmpState.read_packet else IcmpState.forward },
  some (reply_word r),
  i,
)
server_by IcmpState.drop_packet ip stray r i = elim (read i) [
  | some (w, rest) ↦ (
    record r { fsm_state = if w.last then IcmpState.read_packet else IcmpState.drop_packet },
    none,
    rest,
  )
  | none ↦ (r, none, i)
]
server_by IcmpState.forward ip stray r i = elim (read i) [
  | some (w, rest) ↦ (
    record r { fsm_state = if w.last then IcmpState.read_packet else IcmpState.forward },
    some w,
    rest,
  )
  | none ↦ (r, none, i)
]

-- One call of `icmp_server`.
unfoldable pub icmp_server :
    ℕ → Bool → Regs → List NetAxisWord → Regs × Option NetAxisWord × List NetAxisWord
unfolding server_by
icmp_server my_ipaddr stray r i = server_by r.fsm_state my_ipaddr stray r i
