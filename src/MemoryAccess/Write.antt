-- ===== src/MemoryAccess/Write.antt =====
-- `WriteDataToMem` of hls/toe/memory_access/memory_access.hpp: the write commands for the data
-- mover and the words behind each.
pub mod Beats
pub mod Split
pub mod Bytes
pub mod ExactFit
use tcp_offload_engine_shell.Prelude.{
  ℕ, ◌+◌, ◌-◌, ◌*◌, ◌/◌, ◌%◌, ◌^◌, ◌==◌, Bool, true, false, not, ◌&&◌, Option, none, some, List,
  if◌then◌else◌, read,
}
use tcp_offload_engine_shell.Conn.Tables.{buffer_size}
use tcp_offload_engine_shell.Conn.Messages.{MemBufferRwCmd}
use tcp_offload_engine_shell.Words.{
  NetAxisWord, no_word, bit, concat_two_words, data_length_to_axis_keep,
}
use tcp_offload_engine_shell.MemoryAccess.{DataMoverCmd, data_mover_cmd}

pub data FsmState : Type 0 where
  wait_cmd fwd_no_breakdown fwd_breakdown_0 fwd_breakdown_1 fwd_extra : FsmState

pub record Regs : Type 0 where
  pub fsm_state : FsmState
  pub first_cmd_bbt : ℕ
  pub byte_offset : ℕ
  pub first_cmd_last_beat_keep : ℕ
  pub first_cmd_trans_beats : ℕ
  pub first_cmd_trans_beats_cnt : ℕ
  pub inner_cmd : MemBufferRwCmd
  pub data_mver_cmd : DataMoverCmd
  pub prev_beat_word : NetAxisWord

pub record Ins : Type 0 where
  pub write_cmd : List MemBufferRwCmd
  pub write_data : List NetAxisWord

pub record Outs : Type 0 where
  pub mover_cmd : Option DataMoverCmd
  pub mover_data : Option NetAxisWord
  pub double_access_flag : Option Bool

abbrev pub nothing : Outs
nothing = record { mover_cmd = none; mover_data = none; double_access_flag = none }

-- `case WAIT_CMD`: how many bytes and words the first command takes if there are two.
-- `first_cmd_trans_beats` has 10 bits.
take_cmd : Regs → MemBufferRwCmd → Regs × Outs
take_cmd r q =
    let bbt = buffer_size - q.addr % buffer_size in
    let byte_offset = bbt % 64 in
    let cmd = data_mover_cmd q.addr q.length in
    let two = bit q.next_addr 18 in
    let first = if two then record cmd { bbt = bbt } else cmd in
    (
      if two
          then record r {
            fsm_state = FsmState.fwd_breakdown_0;
            inner_cmd = q;
            data_mver_cmd = first;
            byte_offset = byte_offset;
            first_cmd_bbt = bbt;
            first_cmd_last_beat_keep = data_length_to_axis_keep byte_offset;
            first_cmd_trans_beats =
                if byte_offset == 0
                then bbt / 64 % 2 ^ 12 % 2 ^ 10
                else (bbt / 64 % 2 ^ 12 + 1) % 2 ^ 10;
            first_cmd_trans_beats_cnt = 1;
          }
          else record r {
            fsm_state = FsmState.fwd_no_breakdown;
            inner_cmd = q;
            data_mver_cmd = first;
          },
      record nothing { mover_cmd = some first; double_access_flag = some two },
    )

-- The second command: the rest of the bytes, at the start of the buffer.
abbrev second_cmd : Regs → DataMoverCmd
second_cmd r = record {
  bbt = (r.inner_cmd.length + 2 ^ 23 - r.first_cmd_bbt) % 2 ^ 23;
  saddr =
      r.data_mver_cmd.saddr / 2 ^ 32 * 2 ^ 32
      + r.inner_cmd.addr % 2 ^ 32 / buffer_size * buffer_size;
}

-- `case FWD_BREAKDOWN_0`: a word of the first command, and with its last one the second command.
first_beat : Regs → NetAxisWord → Regs × Outs
first_beat r w =
    let r' = record r {
      first_cmd_trans_beats_cnt = (r.first_cmd_trans_beats_cnt + 1) % 2 ^ 10;
      prev_beat_word = w;
    } in
    if r.first_cmd_trans_beats_cnt == r.first_cmd_trans_beats
    then (
      record r' {
        data_mver_cmd = second_cmd r;
        fsm_state = if w.last then FsmState.fwd_extra else FsmState.fwd_breakdown_1;
      },
      record nothing {
        mover_cmd = some (second_cmd r);
        mover_data =
            some (record no_word { word = w.word; keep = r.first_cmd_last_beat_keep; last = true });
      },
    )
    else (r', record nothing { mover_data = some w })

-- `case FWD_BREAKDOWN_1`: a word of the second command.
second_beat : Regs → NetAxisWord → Regs × Outs
second_beat r w =
    let send = concat_two_words w r.prev_beat_word r.byte_offset no_word in
    let more = bit w.keep r.byte_offset && not (r.byte_offset == 0) in
    (
      record r {
        prev_beat_word = w;
        fsm_state =
            if w.last
            then if more then FsmState.fwd_extra else FsmState.wait_cmd
            else FsmState.fwd_breakdown_1;
      },
      record nothing {
        mover_data = some (record send { last = if w.last then not more else false });
      },
    )

step_by : FsmState → Regs → Ins → Regs × Outs × Ins
unfolding take_cmd first_beat second_beat
step_by FsmState.wait_cmd r i = elim (read i.write_cmd) [
  | some (q, rest) ↦ let (r', o) = take_cmd r q in (r', o, record i { write_cmd = rest })
  | none ↦ (r, nothing, i)
]
step_by FsmState.fwd_no_breakdown r i = elim (read i.write_data) [
  | some (w, rest) ↦ (
    record r { fsm_state = if w.last then FsmState.wait_cmd else FsmState.fwd_no_breakdown },
    record nothing { mover_data = some w },
    record i { write_data = rest },
  )
  | none ↦ (r, nothing, i)
]
step_by FsmState.fwd_breakdown_0 r i = elim (read i.write_data) [
  | some (w, rest) ↦ let (r', o) = first_beat r w in (r', o, record i { write_data = rest })
  | none ↦ (r, nothing, i)
]
step_by FsmState.fwd_breakdown_1 r i = elim (read i.write_data) [
  | some (w, rest) ↦ let (r', o) = second_beat r w in (r', o, record i { write_data = rest })
  | none ↦ (r, nothing, i)
]
step_by FsmState.fwd_extra r i = (
  record r { fsm_state = FsmState.wait_cmd },
  record nothing {
    mover_data =
        some (record (concat_two_words no_word r.prev_beat_word r.byte_offset no_word) {
          last = true;
        });
  },
  i,
)

-- One call of `WriteDataToMem`.
unfoldable pub write_data_to_mem : Regs → Ins → Regs × Outs × Ins
unfolding step_by
write_data_to_mem r i = step_by r.fsm_state r i
