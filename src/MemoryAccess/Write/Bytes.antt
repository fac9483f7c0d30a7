-- ===== src/MemoryAccess/Write/Bytes.antt =====
-- What a write that is split leaves in memory.
use tcp_offload_engine_shell.Words.Cut.{
  Fits, IsPacket, final_word, keeps, length-second_words, numbers_cut, second_words,
  second_words-IsPacket, second_words_aligned, second_words-shifted, words,
}
use mathlib.Core.List.{map-append}
use native.Mathlib.Nat.{one-mul}
use tcp_offload_engine_shell.Prelude.{
  ℕ, suc, ◌+◌, ◌-◌, ◌*◌, ◌/◌, ◌%◌, ◌^◌, ◌≡◌, ◌<◌, ◌≤◌, ap, refl, ◌∙◌, true, false, some, List, ◌∷◌,
  ◌++◌, length, map, length-map, arith, calls, ltb,
}
use tcp_offload_engine_shell.Conn.Tables.{buffer_size}
use tcp_offload_engine_shell.Conn.Messages.{MemBufferRwCmd, mem_buffer_rw_cmd}
use tcp_offload_engine_shell.Words.{NetAxisWord, no_word, bit, data_length_to_axis_keep}
use tcp_offload_engine_shell.Words.Values.{value, AllBelow, AllBelow-parts, bit_of_ones}
use tcp_offload_engine_shell.MemoryAccess.{DataMoverCmd, data_mover_cmd}
use tcp_offload_engine_shell.MemoryAccess.Write.{Regs, Outs, nothing, wait_cmd, write_data_to_mem}
use tcp_offload_engine_shell.MemoryAccess.Write.Beats.{room, sent}
use tcp_offload_engine_shell.MemoryAccess.Write.Split.{write_split}

module _ (addr len : ℕ) (qs : List MemBufferRwCmd) (front : List NetAxisWord) (p : NetAxisWord)
    (ws rest : List NetAxisWord) (r : Regs) where
  abbrev second : List NetAxisWord
  second = second_words (room addr % 64) p ws

  abbrev q : MemBufferRwCmd
  q = mem_buffer_rw_cmd addr len

  -- What is written, with the two commands `c` and `d`.
  abbrev pub outs : DataMoverCmd → DataMoverCmd → List Outs
  outs c d =
      record nothing { mover_cmd = some c; double_access_flag = some true } ∷ map sent front
      ++ (record nothing {
        mover_cmd = some d;
        mover_data = some (record no_word {
          word = p.word;
          keep = data_length_to_axis_keep (room addr % 64);
          last = true;
        });
      }
          ∷ map sent second)

  second_data :
      64 * length front < room addr
      → room addr ≤ 64 * suc (length front)
      → IsPacket ws
      → AllBelow (2 ^ 512) (words front)
      → p.word < 2 ^ 512
      → AllBelow (2 ^ 512) (words ws)
      → value (2 ^ 512) (words second)
        ≡ value (2 ^ 512) (words front ++ p.word ∷ words ws)
          / 2 ^ (8 * room addr)
          % (2 ^ 512) ^ length (words second)
  second_data lo hi pk f k a =
      numbers_cut 8 (room addr % 64) (room addr) (words front) p.word (words ws) (final_word p ws)
        (words second) (omega (arith, lo, length-map (λ (w : NetAxisWord). w.word) front))
        (omega (arith, hi, length-map (λ (w : NetAxisWord). w.word) front)) refl
        (λ e. (second_words_aligned (room addr % 64) p ws e pk).0)
        (λ n. (second_words-shifted (room addr % 64) p ws n pk).0) f k a

  second_keeps :
      64 * length front < room addr
      → room addr ≤ 64 * suc (length front)
      → IsPacket ws
      → AllBelow (2 ^ 64) (keeps front)
      → p.keep < 2 ^ 64
      → AllBelow (2 ^ 64) (keeps ws)
      → value (2 ^ 64) (keeps second)
        ≡ value (2 ^ 64) (keeps front ++ p.keep ∷ keeps ws)
          / 2 ^ room addr
          % (2 ^ 64) ^ length (keeps second)
  second_keeps lo hi pk f k a =
      numbers_cut 1 (room addr % 64) (room addr) (keeps front) p.keep (keeps ws) (final_word p ws)
        (keeps second) (omega (arith, lo, length-map (λ (w : NetAxisWord). w.keep) front))
        (omega (arith, hi, length-map (λ (w : NetAxisWord). w.keep) front)) refl
        (λ e. (second_words_aligned (room addr % 64) p ws e pk).1)
        (λ n.
          rw (one-mul (room addr % 64), one-mul (64 - room addr % 64))
            (second_words-shifted (room addr % 64) p ws n pk).1)
        f k a
      ∙ ap
          (λ (t : ℕ).
            value (2 ^ 64) (keeps front ++ p.keep ∷ keeps ws)
            / 2 ^ t
            % (2 ^ 64) ^ length (keeps second))
          (one-mul (room addr))

  -- The second command has as many words as its bytes need.
  second_length :
      (l : ℕ)
      → IsPacket ws
      → (final_word p ws).keep ≡ 2 ^ l - 1
      → 64 * length front < room addr
      → room addr ≤ 64 * suc (length front)
      → 0 < l
      → l ≤ 64
      → len ≡ 64 * (length front + length ws) + l
      → (len - room addr ≤ 64 * length second) × (64 * length second < len - room addr + 64)
  second_length l pk kl lo hi l0 l64 total =
      let more : bit (final_word p ws).keep (room addr % 64) ≡ ltb (room addr % 64) l =
        rw kl (bit_of_ones l (room addr % 64)) in
      ground (arith, length-second_words (room addr % 64) p ws pk, more)

  -- A write that goes beyond the end of its buffer, of fewer than 2 ^ 16 bytes, whose words are
  -- full but for the last, and not all before that end: the first command takes the bytes up to the
  -- end and its words, the second the rest of the bytes from the start of the buffer. The words of
  -- the second are one packet with the bytes, and the bits of `keep`, that are left without those
  -- of the first, in as many words as they need, and the process then waits for the next command.
  pub write_keeps_bytes :
      (l : ℕ)
      → r.fsm_state ≡ wait_cmd
      → room addr < len
      → len < 2 ^ 16
      → 64 * length front < room addr
      → room addr ≤ 64 * suc (length front)
      → p.last ≡ false
      → IsPacket ws
      → (final_word p ws).keep ≡ 2 ^ l - 1
      → 0 < l
      → l ≤ 64
      → len ≡ 64 * (length front + length ws) + l
      → Fits (front ++ p ∷ ws)
      → let (r', os, i') =
          calls write_data_to_mem (suc (length front + suc (length second))) r (record {
            write_cmd = mem_buffer_rw_cmd addr len ∷ qs;
            write_data = front ++ (p ∷ ws ++ rest);
          }) in
        (r'.fsm_state ≡ wait_cmd)
        × (i' ≡ record { write_cmd = qs; write_data = rest })
        × (os
            ≡ outs
                (data_mover_cmd addr (room addr))
                (data_mover_cmd (addr / buffer_size * buffer_size) (len - room addr)))
        × IsPacket second
        × (value (2 ^ 512) (words second)
            ≡ value (2 ^ 512) (words (front ++ p ∷ ws))
              / 2 ^ (8 * room addr)
              % (2 ^ 512) ^ length second)
        × (value (2 ^ 64) (keeps second)
            ≡ value (2 ^ 64) (keeps (front ++ p ∷ ws)) / 2 ^ room addr % (2 ^ 64) ^ length second)
        × (len - room addr ≤ 64 * length second)
        × (64 * length second < len - room addr + 64)
  write_keeps_bytes l s cross short lo hi pl pk kl l0 l64 total fits =
      let (data_front, data_rest) =
        AllBelow-parts (2 ^ 512) (words front) (words (p ∷ ws))
          (rw (← map-append (λ (w : NetAxisWord). w.word) front (p ∷ ws)) fits.0) in
      let (keep_front, keep_rest) =
        AllBelow-parts (2 ^ 64) (keeps front) (keeps (p ∷ ws))
          (rw (← map-append (λ (w : NetAxisWord). w.keep) front (p ∷ ws)) fits.1) in
      let (least, most) = second_length l pk kl lo hi l0 l64 total in
      rw
        (write_split q qs front p ws rest r s (ground arith) lo hi (omega (arith, lo, cross, short))
          pl pk)
        (
          refl,
          refl,
          ap (λ (c : DataMoverCmd × DataMoverCmd). outs c.0 c.1) (ground arith),
          second_words-IsPacket (room addr % 64) p ws pk,
          rw
              (
                map-append (λ (w : NetAxisWord). w.word) front (p ∷ ws),
                ← length-map (λ (w : NetAxisWord). w.word) second,
              )
              (second_data lo hi pk data_front data_rest.0 data_rest.1),
          rw
              (
                map-append (λ (w : NetAxisWord). w.keep) front (p ∷ ws),
                ← length-map (λ (w : NetAxisWord). w.keep) second,
              )
              (second_keeps lo hi pk keep_front keep_rest.0 keep_rest.1),
          least,
          most,
        )
