-- ===== src/Tests/Memory.antt =====
-- Concrete accesses of hls/toe/memory_access that reach the end of a buffer.
use tcp_offload_engine_shell.Prelude.{
  ◌+◌, ◌-◌, ◌*◌, ◌/◌, ◌%◌, ◌^◌, ◌<◌, ◌≤◌, ◌≡◌, refl, true, false, some, none, List, [], ◌∷◌, arith,
  length, map, calls, suc, ℕ,
}
use tcp_offload_engine_shell.Conn.Tables.{buffer_size}
use tcp_offload_engine_shell.Conn.Messages.{mem_buffer_rw_cmd}
use tcp_offload_engine_shell.Words.{NetAxisWord, no_word, concat_two_words}
use tcp_offload_engine_shell.Words.Cut.{IsPacket, words, keeps, second_words}
use tcp_offload_engine_shell.Words.Values.{value}
use tcp_offload_engine_shell.MemoryAccess.{data_mover_cmd}
use tcp_offload_engine_shell.MemoryAccess.Write
use tcp_offload_engine_shell.MemoryAccess.Write.{nothing, wait_cmd, write_data_to_mem}
use tcp_offload_engine_shell.MemoryAccess.Write.Beats.{sent}
use tcp_offload_engine_shell.MemoryAccess.Write.Bytes.{write_keeps_bytes}
use tcp_offload_engine_shell.MemoryAccess.Write.ExactFit.{exact_fit_moves_nothing}
use tcp_offload_engine_shell.MemoryAccess.Read
use tcp_offload_engine_shell.MemoryAccess.Read.{read_access, read_data_from_mem}
use tcp_offload_engine_shell.MemoryAccess.Read.Blocks.{joined}
use tcp_offload_engine_shell.MemoryAccess.Read.Joined.{read_joins_parts}

abbrev full_keep : ℕ
full_keep = 2 ^ 64 - 1

abbrev a_word : ℕ → NetAxisWord
a_word n = record { word = n; keep = full_keep; last = false; dest = 0 }

-- The last word, with 8 bytes.
abbrev end_word : NetAxisWord
end_word = record { word = 77; keep = 255; last = true; dest = 0 }

abbrev start : Write.Regs
start = record {
  fsm_state = wait_cmd;
  first_cmd_bbt = 0;
  byte_offset = 0;
  first_cmd_last_beat_keep = 0;
  first_cmd_trans_beats = 0;
  first_cmd_trans_beats_cnt = 0;
  inner_cmd = mem_buffer_rw_cmd 0 0;
  data_mver_cmd = data_mover_cmd 0 0;
  prev_beat_word = no_word;
}

-- 70 bytes before the end of the second buffer.
abbrev place : ℕ
place = 2 * buffer_size - 70

abbrev rest_words : List NetAxisWord
rest_words = second_words 6 (a_word 12) (a_word 13 ∷ end_word ∷ [])

write_keeps_bytes_example :
    let ws = a_word 11 ∷ a_word 12 ∷ a_word 13 ∷ end_word ∷ [] in
    let (r', os, i') =
      calls write_data_to_mem
        (suc (1 + suc (length rest_words)))
        start
        (record { write_cmd = mem_buffer_rw_cmd place 200 ∷ []; write_data = ws }) in
    (r'.fsm_state ≡ wait_cmd)
    × (i' ≡ record { write_cmd = []; write_data = [] })
    × (os
        ≡ record nothing {
          mover_cmd = some (data_mover_cmd place 70);
          double_access_flag = some true;
        }
          ∷ sent (a_word 11)
          ∷ record nothing {
            mover_cmd = some (data_mover_cmd buffer_size 130);
            mover_data = some (record no_word { word = 12; keep = 63; last = true });
          }
          ∷ map sent rest_words)
    × IsPacket rest_words
    × (value (2 ^ 512) (words rest_words)
        ≡ value (2 ^ 512) (words ws) / 2 ^ 560 % (2 ^ 512) ^ length rest_words)
    × (value (2 ^ 64) (keeps rest_words)
        ≡ value (2 ^ 64) (keeps ws) / 2 ^ 70 % (2 ^ 64) ^ length rest_words)
    × (130 ≤ 64 * length rest_words)
    × (64 * length rest_words < 130 + 64)
write_keeps_bytes_example =
    write_keeps_bytes place 200 [] (a_word 11 ∷ []) (a_word 12) (a_word 13 ∷ end_word ∷ []) [] start
      8 refl (omega arith) (omega arith) (omega arith) (omega arith) refl (refl, refl) refl
      (omega arith) (omega arith) refl (omega arith)

exact_fit_moves_nothing_example :
    let extra = record (concat_two_words no_word end_word 6 no_word) { last = true } in
    let (r', os, i') = calls write_data_to_mem 4 start (record {
      write_cmd = mem_buffer_rw_cmd place 70 ∷ [];
      write_data = a_word 11 ∷ end_word ∷ [];
    }) in
    (r'.fsm_state ≡ wait_cmd)
    × (i' ≡ record { write_cmd = []; write_data = [] })
    × (os
        ≡ record nothing {
          mover_cmd = some (data_mover_cmd place 70);
          double_access_flag = some true;
        }
          ∷ sent (a_word 11)
          ∷ record nothing {
            mover_cmd = some (data_mover_cmd buffer_size 0);
            mover_data = some (record no_word { word = 77; keep = 63; last = true });
          }
          ∷ sent extra
          ∷ [])
exact_fit_moves_nothing_example =
    exact_fit_moves_nothing place 70 [] (a_word 11 ∷ []) end_word [] start refl refl (omega arith)
      (omega arith) (omega arith) refl

abbrev reading : Read.Regs
reading = record {
  fsm_state = read_access;
  offset_block0 = 0;
  offset_block1 = 0;
  prev_beat_word = no_word;
}

-- The last word of the first part has 6 bytes.
abbrev part_end : NetAxisWord
part_end = record { word = 12; keep = 63; last = true; dest = 0 }

abbrev both : List NetAxisWord
both = joined 6 part_end (a_word 13 ∷ end_word ∷ [])

read_joins_parts_example :
    let (r', os, i') = calls read_data_from_mem (suc (2 + length both)) reading (record {
      read_data = a_word 11 ∷ part_end ∷ a_word 13 ∷ end_word ∷ [];
      double_access = record { double_access = true; byte_offset = 6 } ∷ [];
      full = false;
    }) in
    (r'.fsm_state ≡ read_access)
    × (i' ≡ record { read_data = []; double_access = []; full = false })
    × (os ≡ none ∷ none ∷ none ∷ map some both)
    × IsPacket both
    × (value (2 ^ 512) (words both)
        ≡ (12 + 2 ^ 48 * value (2 ^ 512) (words (a_word 13 ∷ end_word ∷ [])))
          % (2 ^ 512) ^ length both)
    × (value (2 ^ 64) (keeps both)
        ≡ (63 + 2 ^ 6 * value (2 ^ 64) (keeps (a_word 13 ∷ end_word ∷ [])))
          % (2 ^ 64) ^ length both)
    × (78 ≤ 64 * length both)
    × (64 * length both < 78 + 64)
read_joins_parts_example =
    read_joins_parts 6 [] (a_word 11 ∷ []) part_end (a_word 13 ∷ end_word ∷ []) [] reading 8 refl
      (omega arith) (omega arith) (refl, tt) refl (refl, refl) (omega arith) refl (omega arith)
      (omega arith)
