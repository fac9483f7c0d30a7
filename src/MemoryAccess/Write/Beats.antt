-- ===== src/MemoryAccess/Write/Beats.antt =====
-- The calls of `WriteDataToMem` for the words of one payload.
use tcp_offload_engine_shell.Words.Cut.{IsPacket, final_word, second_words}
use tcp_offload_engine_shell.Prelude.{
  ℕ, suc, ◌+◌, ◌-◌, ◌*◌, ◌%◌, ◌^◌, ◌≡◌, ◌≢◌, ◌<◌, ◌≤◌, true, false, some, List, [], ◌∷◌, ◌++◌,
  length, map, arith, calls, calls-zero, calls-suc,
}
use tcp_offload_engine_shell.Conn.Tables.{buffer_size}
use tcp_offload_engine_shell.Conn.Messages.{MemBufferRwCmd}
use tcp_offload_engine_shell.MemoryAccess.{data_mover_cmd}
use tcp_offload_engine_shell.Words.{NetAxisWord, no_word, bit, data_length_to_axis_keep}
use tcp_offload_engine_shell.MemoryAccess.Write.{
  Regs, Ins, Outs, nothing, wait_cmd, fwd_breakdown_0, fwd_breakdown_1, second_cmd,
  write_data_to_mem,
}

abbrev pub sent : NetAxisWord → Outs
sent w = record nothing { mover_data = some w }

pub second_half :
    (ws rest : List NetAxisWord) (r : Regs) (i : Ins)
    → IsPacket ws
    → calls write_data_to_mem
        (length (second_words r.byte_offset r.prev_beat_word ws))
        (record r { fsm_state = fwd_breakdown_1 })
        (record i { write_data = ws ++ rest })
      ≡ (
        record r { fsm_state = wait_cmd; prev_beat_word = final_word r.prev_beat_word ws },
        map sent (second_words r.byte_offset r.prev_beat_word ws),
        record i { write_data = rest },
      )
unfolding calls write_data_to_mem second_words
second_half [] rest r i h = absurd h
second_half (w ∷ []) rest r i h = ground arith
second_half (w ∷ v ∷ ws) rest r i h = ground (
  arith,
  second_half (v ∷ ws) rest (record r { fsm_state = fwd_breakdown_1; prev_beat_word = w }) i h.1,
)

front_beat :
    (w : NetAxisWord) (rest : List NetAxisWord) (r : Regs) (i : Ins)
    → r.fsm_state ≡ fwd_breakdown_0
    → r.first_cmd_trans_beats_cnt ≢ r.first_cmd_trans_beats
    → write_data_to_mem r (record i { write_data = w ∷ rest }) ≡ (
      record r {
        prev_beat_word = w;
        first_cmd_trans_beats_cnt = (r.first_cmd_trans_beats_cnt + 1) % 2 ^ 10;
      },
      sent w,
      record i { write_data = rest },
    )
unfolding write_data_to_mem
front_beat w rest r i s d = ground arith

-- The words before the last one of the first command.
pub front_passes :
    (front rest : List NetAxisWord) (r : Regs) (i : Ins)
    → r.fsm_state ≡ fwd_breakdown_0
    → 0 < r.first_cmd_trans_beats_cnt
    → r.first_cmd_trans_beats_cnt < 2 ^ 10
    → r.first_cmd_trans_beats_cnt + length front ≤ 2 ^ 10
    → r.first_cmd_trans_beats ≡ (r.first_cmd_trans_beats_cnt + length front) % 2 ^ 10
    → calls write_data_to_mem (length front) r (record i { write_data = front ++ rest }) ≡ (
      record r {
        prev_beat_word = final_word r.prev_beat_word front;
        first_cmd_trans_beats_cnt = (r.first_cmd_trans_beats_cnt + length front) % 2 ^ 10;
      },
      map sent front,
      record i { write_data = rest },
    )
front_passes [] rest r i s c d h e =
    ground (arith, calls-zero write_data_to_mem r (record i { write_data = rest }))
front_passes (w ∷ []) rest r i s c d h e =
    let r' = record r {
      prev_beat_word = w;
      first_cmd_trans_beats_cnt = (r.first_cmd_trans_beats_cnt + 1) % 2 ^ 10;
    } in
    let i' = record i { write_data = rest } in
    ground (
      arith,
      front_beat w rest r i,
      calls-suc write_data_to_mem 0 r r' (record i { write_data = w ∷ rest }) i' (sent w),
      calls-zero write_data_to_mem r' i',
    )
front_passes (w ∷ v ∷ ws) rest r i s c d h e =
    let r' = record r {
      prev_beat_word = w;
      first_cmd_trans_beats_cnt = (r.first_cmd_trans_beats_cnt + 1) % 2 ^ 10;
    } in
    let i' = record i { write_data = (v ∷ ws) ++ rest } in
    ground (
      arith,
      front_beat w ((v ∷ ws) ++ rest) r i,
      calls-suc write_data_to_mem (length (v ∷ ws)) r r'
          (record i { write_data = w ∷ v ∷ ws ++ rest }) i' (sent w),
      front_passes (v ∷ ws) rest r' i,
    )

-- The bytes from an address to the end of the buffer.
abbrev pub room : ℕ → ℕ
room addr = buffer_size - addr % buffer_size

-- The variables after a command that is split.
abbrev pub split_regs : Regs → MemBufferRwCmd → ℕ → Regs
split_regs r q beats = record r {
  fsm_state = fwd_breakdown_0;
  inner_cmd = q;
  data_mver_cmd = record (data_mover_cmd q.addr q.length) { bbt = room q.addr };
  byte_offset = room q.addr % 64;
  first_cmd_bbt = room q.addr;
  first_cmd_last_beat_keep = data_length_to_axis_keep (room q.addr % 64);
  first_cmd_trans_beats = suc beats % 2 ^ 10;
  first_cmd_trans_beats_cnt = 1;
}

abbrev pub first_out : MemBufferRwCmd → Outs
first_out q = record nothing {
  mover_cmd = some (record (data_mover_cmd q.addr q.length) { bbt = room q.addr });
  double_access_flag = some true;
}

pub split_cmd :
    (q : MemBufferRwCmd) (qs : List MemBufferRwCmd) (k : ℕ) (r : Regs) (i : Ins)
    → r.fsm_state ≡ wait_cmd
    → bit q.next_addr 18 ≡ true
    → 64 * k < room q.addr
    → room q.addr ≤ 64 * suc k
    → k < 2 ^ 10
    → write_data_to_mem r (record i { write_cmd = q ∷ qs })
      ≡ (split_regs r q k, first_out q, record i { write_cmd = qs })
unfolding write_data_to_mem
split_cmd q qs k r i s h lo hi b = ground arith

abbrev pub last_out : Regs → NetAxisWord → Outs
last_out r p = record nothing {
  mover_cmd = some (second_cmd r);
  mover_data =
      some (record no_word { word = p.word; keep = r.first_cmd_last_beat_keep; last = true });
}

pub last_beat :
    (p : NetAxisWord) (rest : List NetAxisWord) (r : Regs) (i : Ins)
    → r.fsm_state ≡ fwd_breakdown_0
    → r.first_cmd_trans_beats_cnt ≡ r.first_cmd_trans_beats
    → p.last ≡ false
    → write_data_to_mem r (record i { write_data = p ∷ rest }) ≡ (
      record r {
        fsm_state = fwd_breakdown_1;
        first_cmd_trans_beats_cnt = (r.first_cmd_trans_beats_cnt + 1) % 2 ^ 10;
        prev_beat_word = p;
        data_mver_cmd = second_cmd r;
      },
      last_out r p,
      record i { write_data = rest },
    )
unfolding write_data_to_mem
last_beat p rest r i s c l = ground arith
