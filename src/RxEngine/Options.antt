-- ===== src/RxEngine/Options.antt =====
-- `RxEngParseTcpHeaderOptions` of hls/toe/rx_engine/rx_engine.cpp: looks through the options of a
-- SYN for the window scale, one option a call.
use tcp_offload_engine_shell.Prelude.{
  ℕ, ◌+◌, ◌-◌, ◌*◌, ◌/◌, ◌%◌, ◌^◌, ◌≤◌, ◌<◌, ◌≡◌, ◌≢◌, ◌&&◌, Option, none, some, List, ◌==◌, ltb,
  if◌then◌else◌, read, arith,
}
use tcp_offload_engine_shell.Conn.Tables.{window_scale_bits}
use tcp_offload_engine_shell.RxEngine.Segment.{TcpPseudoHeaderMeta}

pub data FsmState : Type 0 where
  read_meta parse_options : FsmState

pub record Regs : Type 0 where
  pub fsm_state : FsmState
  pub meta : TcpPseudoHeaderMeta
  pub options_length : ℕ
  pub options_index : ℕ

abbrev pub option_kind : Regs → ℕ
option_kind r = r.meta.tcp_options % 2 ^ 8

abbrev pub option_length : Regs → ℕ
option_length r = r.meta.tcp_options / 2 ^ 8 % 2 ^ 8

-- "choose the min" of `tcp_options(19, 16)` and WINDOW_SCALE_BITS.
abbrev pub scale_option : Regs → ℕ
scale_option r =
    let w = r.meta.tcp_options / 2 ^ 16 % 2 ^ 4 in
    if ltb window_scale_bits w then window_scale_bits else w

-- The segment goes on without its options.
abbrev pub send : Regs → ℕ → Regs × Option TcpPseudoHeaderMeta
send r win_scale =
    let m = record r.meta {
      header = record r.meta.header { win_scale = win_scale };
      tcp_options = 0;
    } in
    (record r { fsm_state = FsmState.read_meta; meta = m }, some m)

-- The next option, `length` bytes further on. The index has 8 bits.
abbrev pub skip : Regs → ℕ → Regs × Option TcpPseudoHeaderMeta
skip r length = (
  record r {
    meta = record r.meta { tcp_options = r.meta.tcp_options / 2 ^ (length * 8) };
    options_index = (r.options_index + length) % 2 ^ 8;
  },
  none,
)

-- `case PARSE_OPTIONS`.
parse : Regs → Regs × Option TcpPseudoHeaderMeta
parse r =
    let old = r.meta.header.win_scale in
    if ltb r.options_index r.options_length
    then if option_kind r == 0
      then send r old
      else if option_kind r == 1
      then skip r 1
      else if option_kind r == 3
      then send r (if option_length r == 3 then scale_option r else old)
      else skip r (option_length r)
    else send r old

-- `case READ_META`.
accept : Regs → TcpPseudoHeaderMeta → Regs × Option TcpPseudoHeaderMeta
accept r m =
    if m.header.syn && ltb 5 m.header.data_offset
    then (
      record {
        fsm_state = FsmState.parse_options;
        meta = m;
        options_length = (m.header.data_offset - 5) * 4;
        options_index = 0;
      },
      none,
    )
    else let m' = record m { tcp_options = 0 } in (record r { meta = m' }, some m')

step_by :
    FsmState
    → Regs
    → List TcpPseudoHeaderMeta
    → Regs × Option TcpPseudoHeaderMeta × List TcpPseudoHeaderMeta
unfolding parse accept
step_by FsmState.read_meta r l = elim (read l) [
  | some (m, rest) ↦ let (r', o) = accept r m in (r', o, rest)
  | none ↦ (r, none, l)
]
step_by FsmState.parse_options r l = let (r', o) = parse r in (r', o, l)

-- One call of `RxEngParseTcpHeaderOptions`.
unfoldable pub parse_tcp_header_options :
    Regs → List TcpPseudoHeaderMeta → Regs × Option TcpPseudoHeaderMeta × List TcpPseudoHeaderMeta
unfolding step_by
parse_tcp_header_options r l = step_by r.fsm_state r l

-- If the options of a segment are being parsed and its window scale is at most WINDOW_SCALE_BITS,
-- then the segment sent on has a scale of at most that, no options, and all else of its header as
-- it was.
pub window_scale_bounded :
    (r : Regs) (l : List TcpPseudoHeaderMeta) {m : TcpPseudoHeaderMeta}
    → r.fsm_state ≡ parse_options
    → r.meta.header.win_scale ≤ window_scale_bits
    → (parse_tcp_header_options r l).1 ≡ some m
    → (m.header.win_scale ≤ window_scale_bits)
      × (m.tcp_options ≡ 0)
      × (m.header ≡ record r.meta.header { win_scale = m.header.win_scale })
      × ((parse_tcp_header_options r l).0.fsm_state ≡ read_meta)
unfolding parse_tcp_header_options
window_scale_bounded r l f h e = ground arith

-- An option of a kind other than 0, 1 and 3 whose length byte is 0 is never left: the call changes
-- nothing and sends nothing, so that the process takes no further segment.
pub zero_length_option_hangs :
    (r : Regs) (l : List TcpPseudoHeaderMeta)
    → r.fsm_state ≡ parse_options
    → r.options_index < r.options_length
    → r.options_index < 2 ^ 8
    → option_length r ≡ 0
    → (option_kind r ≢ 0) × (option_kind r ≢ 1) × (option_kind r ≢ 3)
    → parse_tcp_header_options r l ≡ (r, none, l)
unfolding parse_tcp_header_options
zero_length_option_hangs r l f h b z k = ground arith
