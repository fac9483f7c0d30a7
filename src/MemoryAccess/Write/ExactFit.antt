-- ===== src/MemoryAccess/Write/ExactFit.antt =====
-- A write that ends where its buffer ends.
use tcp_offload_engine_shell.Words.Cut.{final_word}
use tcp_offload_engine_shell.Prelude.{
  ℕ, suc, ◌+◌, ◌*◌, ◌/◌, ◌%◌, ◌^◌, ◌≡◌, ◌<◌, ◌≤◌, ap, refl, true, some, List, [], ◌∷◌, ◌++◌, length,
  map, arith, calls, calls-zero, calls-suc, calls-add,
}
use tcp_offload_engine_shell.Conn.Tables.{buffer_size}
use tcp_offload_engine_shell.Conn.Messages.{MemBufferRwCmd, mem_buffer_rw_cmd}
use tcp_offload_engine_shell.Words.{
  NetAxisWord, no_word, data_length_to_axis_keep, concat_two_words,
}
use tcp_offload_engine_shell.MemoryAccess.{DataMoverCmd, data_mover_cmd}
use tcp_offload_engine_shell.MemoryAccess.Write.{
  Regs, Ins, Outs, nothing, wait_cmd, fwd_breakdown_0, fwd_extra, second_cmd, write_data_to_mem,
}
use tcp_offload_engine_shell.MemoryAccess.Write.Beats.{
  sent, front_passes, room, split_regs, first_out, split_cmd, last_out,
}

final_beat :
    (p : NetAxisWord) (rest : List NetAxisWord) (r : Regs) (i : Ins)
    → r.fsm_state ≡ fwd_breakdown_0
    → r.first_cmd_trans_beats_cnt ≡ r.first_cmd_trans_beats
    → p.last ≡ true
    → write_data_to_mem r (record i { write_data = p ∷ rest }) ≡ (
      record r {
        fsm_state = fwd_extra;
        first_cmd_trans_beats_cnt = (r.first_cmd_trans_beats_cnt + 1) % 2 ^ 10;
        prev_beat_word = p;
        data_mver_cmd = second_cmd r;
      },
      last_out r p,
      record i { write_data = rest },
    )
unfolding write_data_to_mem
final_beat p rest r i s c l = ground arith

extra_beat :
    (r : Regs) (i : Ins)
    → write_data_to_mem (record r { fsm_state = fwd_extra }) i ≡ (
      record r { fsm_state = wait_cmd },
      sent (record (concat_two_words no_word r.prev_beat_word r.byte_offset no_word) {
        last = true;
      }),
      i,
    )
unfolding write_data_to_mem
extra_beat r i = refl

module _ (addr len : ℕ) (qs : List MemBufferRwCmd) (front : List NetAxisWord) (p : NetAxisWord)
    (rest : List NetAxisWord) (r : Regs) where
  abbrev q : MemBufferRwCmd
  q = mem_buffer_rw_cmd addr len

  abbrev r1 : Regs
  r1 = split_regs r q (length front)

  abbrev r2 : Regs
  r2 = record r1 {
    prev_beat_word = final_word r1.prev_beat_word front;
    first_cmd_trans_beats_cnt = (1 + length front) % 2 ^ 10;
  }

  abbrev r3 : Regs
  r3 = record r2 {
    fsm_state = wait_cmd;
    first_cmd_trans_beats_cnt = (r2.first_cmd_trans_beats_cnt + 1) % 2 ^ 10;
    prev_beat_word = p;
    data_mver_cmd = second_cmd r2;
  }

  abbrev extra : NetAxisWord
  extra = record (concat_two_words no_word p (room addr % 64) no_word) { last = true }

  -- What is written, with the two commands `c` and `d`.
  abbrev pub outs : DataMoverCmd → DataMoverCmd → List Outs
  outs c d =
      record nothing { mover_cmd = some c; double_access_flag = some true } ∷ map sent front
      ++ (record nothing {
        mover_cmd = some d;
        mover_data = some (record no_word {
          word = p.word;
          keep = data_length_to_axis_keep (room addr % 64);
          last = true;
        });
      }
          ∷ sent extra
          ∷ [])

  after_front :
      p.last ≡ true
      → calls write_data_to_mem 2 r2 (record { write_cmd = qs; write_data = p ∷ rest })
        ≡ (r3, last_out r2 p ∷ sent extra ∷ [], record { write_cmd = qs; write_data = rest })
  after_front l =
      let i : Ins = record { write_cmd = qs; write_data = rest } in
      let waiting = record r3 { fsm_state = fwd_extra } in
      ground (
        arith,
        final_beat p rest r2 i,
        calls-suc write_data_to_mem 1 r2 waiting (record i { write_data = p ∷ rest }) i
            (last_out r2 p),
        extra_beat r3 i,
        calls-suc write_data_to_mem 0 waiting r3 i i (sent extra),
        calls-zero write_data_to_mem r3 i,
      )

  -- A write that fits its buffer to the last byte is split as well: the second command moves 0
  -- bytes, to the start of the buffer, and one more word follows the payload.
  pub exact_fit_moves_nothing :
      r.fsm_state ≡ wait_cmd
      → room addr ≡ len
      → len < 2 ^ 16
      → 64 * length front < len
      → len ≤ 64 * suc (length front)
      → p.last ≡ true
      → let (r', os, i') = calls write_data_to_mem (suc (length front + 2)) r (record {
        write_cmd = mem_buffer_rw_cmd addr len ∷ qs;
        write_data = front ++ (p ∷ rest);
      }) in
        (r'.fsm_state ≡ wait_cmd)
        × (i' ≡ record { write_cmd = qs; write_data = rest })
        × (os
            ≡ outs (data_mover_cmd addr len) (data_mover_cmd (addr / buffer_size * buffer_size) 0))
  exact_fit_moves_nothing s fit short lo hi l =
      let i : Ins = record { write_cmd = qs; write_data = front ++ (p ∷ rest) } in
      let cmd =
        split_cmd q qs (length front) r
          (record { write_cmd = []; write_data = front ++ (p ∷ rest) }) s (ground arith)
          (omega (arith, lo, fit)) (omega (arith, hi, fit)) (omega (arith, lo, short)) in
      let whole : calls write_data_to_mem (suc (length front + 2)) r
            (record i { write_cmd = q ∷ qs })
          ≡ (
            r3,
            first_out q ∷ (map sent front ++ (last_out r2 p ∷ sent extra ∷ [])),
            record i { write_data = rest },
          ) =
        ground (
          arith,
          calls-suc write_data_to_mem (length front + 2) r r1 (record i { write_cmd = q ∷ qs }) i
              (first_out q) cmd,
          calls-add write_data_to_mem (length front) 2 r1 i,
          front_passes front (p ∷ rest) r1 (record { write_cmd = qs; write_data = [] }),
          after_front l,
        ) in
      rw whole (refl, refl, ap (λ (c : DataMoverCmd × DataMoverCmd). outs c.0 c.1) (ground arith))
