-- ===== src/MemoryAccess/Write/Split.antt =====
-- A whole write that is split: every call from the command to the last word.
use tcp_offload_engine_shell.Words.Cut.{IsPacket, final_word, second_words}
use tcp_offload_engine_shell.Prelude.{
  ℕ, suc, ◌+◌, ◌*◌, ◌%◌, ◌^◌, ◌≡◌, ◌<◌, ◌≤◌, true, false, List, [], ◌∷◌, ◌++◌, length, map, arith,
  calls, calls-suc, calls-add,
}
use tcp_offload_engine_shell.Conn.Messages.{MemBufferRwCmd}
use tcp_offload_engine_shell.Words.{NetAxisWord, bit}
use tcp_offload_engine_shell.MemoryAccess.Write.{
  Regs, Ins, wait_cmd, fwd_breakdown_1, second_cmd, write_data_to_mem,
}
use tcp_offload_engine_shell.MemoryAccess.Write.Beats.{
  sent, second_half, front_passes, room, split_regs, first_out, split_cmd, last_out, last_beat,
}

module _ (q : MemBufferRwCmd) (qs : List MemBufferRwCmd) (front : List NetAxisWord)
    (p : NetAxisWord) (ws rest : List NetAxisWord) (r : Regs) where
  abbrev k : ℕ
  k = length front

  abbrev later : List NetAxisWord
  later = p ∷ ws ++ rest

  abbrev r1 : Regs
  r1 = split_regs r q k

  abbrev r2 : Regs
  r2 = record r1 {
    prev_beat_word = final_word r1.prev_beat_word front;
    first_cmd_trans_beats_cnt = (1 + k) % 2 ^ 10;
  }

  abbrev r3 : Regs
  r3 = record r2 {
    fsm_state = fwd_breakdown_1;
    first_cmd_trans_beats_cnt = (r2.first_cmd_trans_beats_cnt + 1) % 2 ^ 10;
    prev_beat_word = p;
    data_mver_cmd = second_cmd r2;
  }

  abbrev second : List NetAxisWord
  second = second_words (room q.addr % 64) p ws

  after_front :
      p.last ≡ false
      → IsPacket ws
      → calls write_data_to_mem
          (suc (length second))
          r2
          (record { write_cmd = qs; write_data = later })
        ≡ (
          record r3 { fsm_state = wait_cmd; prev_beat_word = final_word p ws },
          last_out r2 p ∷ map sent second,
          record { write_cmd = qs; write_data = rest },
        )
  after_front l h =
      let i : Ins = record { write_cmd = qs; write_data = ws ++ rest } in
      ground (
        arith,
        last_beat p (ws ++ rest) r2 (record { write_cmd = qs; write_data = [] }),
        calls-suc write_data_to_mem (length second) r2 r3
            (record { write_cmd = qs; write_data = later }) i (last_out r2 p),
        second_half ws rest r3 (record { write_cmd = qs; write_data = [] }) h,
      )

  pub write_split :
      r.fsm_state ≡ wait_cmd
      → bit q.next_addr 18 ≡ true
      → 64 * k < room q.addr
      → room q.addr ≤ 64 * suc k
      → k < 2 ^ 10
      → p.last ≡ false
      → IsPacket ws
      → calls write_data_to_mem
          (suc (k + suc (length second)))
          r
          (record { write_cmd = q ∷ qs; write_data = front ++ later })
        ≡ (
          record r3 { fsm_state = wait_cmd; prev_beat_word = final_word p ws },
          first_out q ∷ (map sent front ++ (last_out r2 p ∷ map sent second)),
          record { write_cmd = qs; write_data = rest },
        )
  write_split s b lo hi m l h =
      let i : Ins = record { write_cmd = qs; write_data = front ++ later } in
      let cmd =
        split_cmd q qs k r (record { write_cmd = []; write_data = front ++ later }) s b lo hi m in
      let passes = front_passes front later r1 (record { write_cmd = qs; write_data = [] }) in
      ground (
        arith,
        calls-suc write_data_to_mem (k + suc (length second)) r r1
            (record { write_cmd = q ∷ qs; write_data = front ++ later }) i (first_out q) cmd,
        calls-add write_data_to_mem k (suc (length second)) r1 i,
        passes,
        after_front l h,
      )
