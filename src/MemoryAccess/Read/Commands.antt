-- ===== src/MemoryAccess/Read/Commands.antt =====
-- The commands of a read.
use tcp_offload_engine_shell.Prelude.{
  ℕ, ◌-◌, ◌*◌, ◌/◌, ◌%◌, ◌^◌, ◌≡◌, ◌<◌, ◌≤◌, true, false, none, some, List, [], ◌∷◌, arith, calls,
}
use tcp_offload_engine_shell.Conn.Tables.{buffer_size}
use tcp_offload_engine_shell.Conn.Messages.{MemBufferRwCmd, mem_buffer_rw_cmd}
use tcp_offload_engine_shell.MemoryAccess.{data_mover_cmd}
use tcp_offload_engine_shell.MemoryAccess.Read.{CmdRegs, read_data_send_cmd}
use tcp_offload_engine_shell.MemoryAccess.Write.Beats.{room}

-- A read of fewer bytes than there are up to the end of its buffer is one command. Any other is
-- two: the first up to the end, the second for the rest of the bytes, if any, from the start; the
-- other process is told how many bytes are in the last word of the first part. The commands behind
-- it wait.
pub read_split :
    (addr len : ℕ) (qs : List MemBufferRwCmd) (r : CmdRegs)
    → r.read_cmd_is_breakdown ≡ false
    → len < 2 ^ 16
    → let q = mem_buffer_rw_cmd addr len in
      (len < room addr
        → let (r', os, qs') = calls read_data_send_cmd 1 r (q ∷ qs) in
          (r'.read_cmd_is_breakdown ≡ false)
          × (qs' ≡ qs)
          × (os
              ≡ record {
                mover_cmd = some (data_mover_cmd addr len);
                double_access = some (record { double_access = false; byte_offset = 0 });
              }
                ∷ []))
      × (room addr ≤ len
          → let (r', os, qs') = calls read_data_send_cmd 2 r (q ∷ qs) in
            (r'.read_cmd_is_breakdown ≡ false)
            × (qs' ≡ qs)
            × (os
                ≡ record {
                  mover_cmd = some (data_mover_cmd addr (room addr));
                  double_access =
                      some (record { double_access = true; byte_offset = room addr % 64 });
                }
                  ∷ record {
                    mover_cmd =
                        some (data_mover_cmd (addr / buffer_size * buffer_size) (len - room addr));
                    double_access = none;
                  }
                  ∷ []))
unfolding calls read_data_send_cmd
read_split addr len qs r s short = (λ h. ground arith, λ h. ground arith)
