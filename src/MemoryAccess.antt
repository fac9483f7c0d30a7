-- ===== src/MemoryAccess.antt =====
-- hls/toe/memory_access/memory_access.hpp: the accesses to the buffers in memory. An access that
-- reaches the end of its buffer is done by two commands of the data mover.
pub mod Write
pub mod Read
use tcp_offload_engine_shell.Prelude.{ℕ, ◌+◌, ◌%◌, ◌^◌}

-- The other fields of the code are constants.
pub record DataMoverCmd : Type 0 where
  pub bbt : ℕ
  pub saddr : ℕ

abbrev pub tcp_ddr_base_addr : ℕ
tcp_ddr_base_addr = 0x4800000000

-- `saddr` has 40 bits and `bbt` 23.
abbrev pub data_mover_cmd : ℕ → ℕ → DataMoverCmd
data_mover_cmd addr len = record {
  bbt = len % 2 ^ 23;
  saddr = (addr % 2 ^ 32 + tcp_ddr_base_addr) % 2 ^ 40;
}
