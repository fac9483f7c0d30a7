-- ===== src/Words.antt =====
-- hls/utils/axi_intf.hpp and hls/utils/axi_utils.cpp: the 64-byte words of a packet, and how two of
-- them are put together. Byte i of a word is the bits 8 i to 8 i + 7 of `word`, and bit i of `keep`
-- says that the byte is there.
pub mod Values
pub mod Bits
pub mod Checksum
pub mod Cut
pub mod Bytes
pub mod Left
use tcp_offload_engine_shell.Prelude.{
  ℕ, ◌+◌, ◌-◌, ◌*◌, ◌/◌, ◌%◌, ◌^◌, ◌==◌, Bool, false, if◌then◌else◌,
}

-- `word` is the field `data`.
pub record NetAxisWord : Type 0 where
  pub word : ℕ
  pub keep : ℕ
  pub last : Bool
  pub dest : ℕ

-- The default constructor.
abbrev pub no_word : NetAxisWord
no_word = record { word = 0; keep = 0; last = false; dest = 0 }

-- The 64 cases of the switch in one formula: `prev_word` from the offset on, and then the head of
-- `cur_word`. The word that is written to keeps its other fields.
unfoldable pub concat_two_words : NetAxisWord → NetAxisWord → ℕ → NetAxisWord → NetAxisWord
concat_two_words cur prev byte_offset send =
    if byte_offset == 0 then record send { word = cur.word; keep = cur.keep } else record send {
      word =
          cur.word % 2 ^ (8 * byte_offset) * 2 ^ (8 * (64 - byte_offset))
          + prev.word / 2 ^ (8 * byte_offset);
      keep = cur.keep % 2 ^ byte_offset * 2 ^ (64 - byte_offset) + prev.keep / 2 ^ byte_offset;
    }

-- `prev_word` up to the offset, and then the head of `cur_word`.
unfoldable pub merge_two_words_head : NetAxisWord → NetAxisWord → ℕ → NetAxisWord → NetAxisWord
merge_two_words_head cur prev byte_offset send =
    if byte_offset == 0 then record send { word = cur.word; keep = cur.keep } else record send {
      word =
          cur.word % 2 ^ (8 * (64 - byte_offset)) * 2 ^ (8 * byte_offset)
          + prev.word % 2 ^ (8 * byte_offset);
      keep = cur.keep % 2 ^ (64 - byte_offset) * 2 ^ byte_offset + prev.keep % 2 ^ byte_offset;
    }

-- Entry `length` of the table: that many ones, and 64 ones for 0.
abbrev pub data_length_to_axis_keep : ℕ → ℕ
data_length_to_axis_keep length = if length == 0 then 2 ^ 64 - 1 else 2 ^ length - 1

-- Bit i of a number.
abbrev pub bit : ℕ → ℕ → Bool
bit n i = n / 2 ^ i % 2 == 1

-- `SwapByte<32>` of hls/utils/axi_utils.hpp.
abbrev pub swap_byte32 : ℕ → ℕ
swap_byte32 w =
    w % 2 ^ 8 * 2 ^ 24 + w / 2 ^ 8 % 2 ^ 8 * 2 ^ 16 + w / 2 ^ 16 % 2 ^ 8 * 2 ^ 8 + w / 2 ^ 24
