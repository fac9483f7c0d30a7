-- ===== src/MemoryAccess/Read.antt =====
-- `ReadDataSendCmd` and `ReadDataFromMem` of hls/toe/memory_access/memory_access.hpp: the read
-- commands for the data mover, and the words that it returns put together again.
pub mod Commands
pub mod Blocks
pub mod Joined
use tcp_offload_engine_shell.Prelude.{
  ℕ, ◌+◌, ◌-◌, ◌*◌, ◌/◌, ◌%◌, ◌^◌, ◌==◌, Bool, true, false, not, Option, none, some, List,
  if◌then◌else◌, read, read_if,
}
use tcp_offload_engine_shell.Conn.Tables.{buffer_size}
use tcp_offload_engine_shell.Conn.Messages.{MemBufferRwCmd}
use tcp_offload_engine_shell.Words.{
  NetAxisWord, no_word, bit, concat_two_words, merge_two_words_head,
}
use tcp_offload_engine_shell.MemoryAccess.{DataMoverCmd, data_mover_cmd}

pub record MemBufferRwCmdDoubleAccess : Type 0 where
  pub double_access : Bool
  pub byte_offset : ℕ

pub record CmdRegs : Type 0 where
  pub read_cmd_is_breakdown : Bool
  pub inner_cmd : MemBufferRwCmd
  pub first_cmd_bbt : ℕ

pub record CmdOuts : Type 0 where
  pub mover_cmd : Option DataMoverCmd
  pub double_access : Option MemBufferRwCmdDoubleAccess

-- One call of `ReadDataSendCmd`: what is written, and the commands that still wait.
unfoldable pub read_data_send_cmd :
    CmdRegs → List MemBufferRwCmd → CmdRegs × CmdOuts × List MemBufferRwCmd
read_data_send_cmd r cmds =
    if r.read_cmd_is_breakdown
    then (let start = r.inner_cmd.addr / buffer_size * buffer_size in
        (
          record r {
            inner_cmd = record r.inner_cmd { addr = start };
            read_cmd_is_breakdown = false;
          },
          record {
            mover_cmd = some (data_mover_cmd start (r.inner_cmd.length + 2 ^ 23 - r.first_cmd_bbt));
            double_access = none;
          },
          cmds,
        ))
    else elim (read cmds) [
      | some (q, rest) ↦
          let bbt = (buffer_size - q.addr % buffer_size) % 2 ^ 16 in
          if bit q.next_addr 18
          then (
            record { read_cmd_is_breakdown = true; inner_cmd = q; first_cmd_bbt = bbt },
            record {
              mover_cmd = some (data_mover_cmd q.addr bbt);
              double_access = some (record { double_access = true; byte_offset = bbt % 64 });
            },
            rest,
          )
          else (
            record r { inner_cmd = q },
            record {
              mover_cmd = some (data_mover_cmd q.addr q.length);
              double_access = some (record { double_access = false; byte_offset = 0 });
            },
            rest,
          )
      | none ↦ (r, record { mover_cmd = none; double_access = none }, cmds)
    ]

pub data FsmState : Type 0 where
  read_access no_breakdown breakdown_block_0 breakdown_aligned first_merge : FsmState
  breakdown_block_1 extra_data : FsmState

pub record Regs : Type 0 where
  pub fsm_state : FsmState
  pub offset_block0 : ℕ
  pub offset_block1 : ℕ
  pub prev_beat_word : NetAxisWord

-- `full` is that of the stream written to.
pub record Ins : Type 0 where
  pub read_data : List NetAxisWord
  pub double_access : List MemBufferRwCmdDoubleAccess
  pub full : Bool

-- `case NO_BREAKDOWN` and `case BREAKDOWN_ALIGNED`.
forward_beat : Regs → NetAxisWord → Regs × Option NetAxisWord
forward_beat r w = (if w.last then record r { fsm_state = FsmState.read_access } else r, some w)

-- `case BREAKDOWN_BLOCK_0`. The flag that lets a word through is a local variable, which every call
-- sets to hold the word back.
block_0_beat : Regs → NetAxisWord → Regs × Option NetAxisWord
block_0_beat r w =
    let aligned = r.offset_block0 == 0 in
    let send = record no_word { word = w.word; keep = w.keep } in
    (
      record r {
        fsm_state =
            if w.last
            then if aligned then FsmState.breakdown_aligned else FsmState.first_merge
            else FsmState.breakdown_block_0;
        prev_beat_word = w;
      },
      if w.last then if aligned then some send else none else none,
    )

-- `case FIRST_MERGE` and `case BREAKDOWN_BLOCK_1`, which differ in how `send` is put together.
join_beat : NetAxisWord → Regs → NetAxisWord → Regs × Option NetAxisWord
join_beat send r w =
    let more = bit w.keep r.offset_block1 in
    (
      record r {
        fsm_state =
            if w.last
            then if more then FsmState.extra_data else FsmState.read_access
            else FsmState.breakdown_block_1;
        prev_beat_word = w;
      },
      some (record send { last = if w.last then not more else false }),
    )

step_by : FsmState → Regs → Ins → Regs × Option NetAxisWord × Ins
unfolding forward_beat block_0_beat join_beat
step_by FsmState.read_access r i = elim (read i.double_access) [
  | some (d, rest) ↦ (
    record r {
      offset_block0 = d.byte_offset;
      offset_block1 = (64 - d.byte_offset) % 64;
      fsm_state = if d.double_access then FsmState.breakdown_block_0 else FsmState.no_breakdown;
    },
    none,
    record i { double_access = rest },
  )
  | none ↦ (r, none, i)
]
step_by FsmState.no_breakdown r i = elim (read_if (not i.full) i.read_data) [
  | some (w, rest) ↦ let (r', o) = forward_beat r w in (r', o, record i { read_data = rest })
  | none ↦ (r, none, i)
]
step_by FsmState.breakdown_aligned r i = elim (read_if (not i.full) i.read_data) [
  | some (w, rest) ↦ let (r', o) = forward_beat r w in (r', o, record i { read_data = rest })
  | none ↦ (r, none, i)
]
step_by FsmState.breakdown_block_0 r i = elim (read_if (not i.full) i.read_data) [
  | some (w, rest) ↦ let (r', o) = block_0_beat r w in (r', o, record i { read_data = rest })
  | none ↦ (r, none, i)
]
step_by FsmState.first_merge r i = elim (read_if (not i.full) i.read_data) [
  | some (w, rest) ↦
      let send = merge_two_words_head w r.prev_beat_word r.offset_block0 no_word in
      let (r', o) = join_beat send r w in (r', o, record i { read_data = rest })
  | none ↦ (r, none, i)
]
step_by FsmState.breakdown_block_1 r i = elim (read_if (not i.full) i.read_data) [
  | some (w, rest) ↦
      let send = concat_two_words w r.prev_beat_word r.offset_block1 no_word in
      let (r', o) = join_beat send r w in (r', o, record i { read_data = rest })
  | none ↦ (r, none, i)
]
step_by FsmState.extra_data r i = if i.full then (r, none, i) else (
  record r { fsm_state = FsmState.read_access },
  some (record (concat_two_words no_word r.prev_beat_word r.offset_block1 no_word) { last = true }),
  i,
)

-- One call of `ReadDataFromMem`.
unfoldable pub read_data_from_mem : Regs → Ins → Regs × Option NetAxisWord × Ins
unfolding step_by
read_data_from_mem r i = step_by r.fsm_state r i
