-- ===== src/Words/Bytes.antt =====
-- The bytes of the words of hls/utils/axi_intf.hpp, and the 16-bit numbers that they make in
-- network byte order.
use native.Mathlib.Nat.{div-div-eq-div-mul}
use tcp_offload_engine_shell.Prelude.{
  ℕ, zero, suc, ◌+◌, ◌*◌, ◌/◌, ◌%◌, ◌^◌, ◌≡◌, ◌≢◌, sym, ap, ◌∙◌, List, [], ◌∷◌, if◌then◌else◌,
}
use tcp_offload_engine_shell.Words.{NetAxisWord, bit}
use tcp_offload_engine_shell.Words.Values.{pow_add}

-- Byte `i` of a number.
abbrev pub byte_of : ℕ → ℕ → ℕ
byte_of x i = x / 2 ^ (8 * i) % 2 ^ 8

-- The 16-bit number whose higher byte is byte `i`.
abbrev pub number_at : ℕ → ℕ → ℕ
number_at x i = 256 * byte_of x i + byte_of x (suc i)

-- Byte `i` of a word, and 0 if it is not there.
abbrev pub octet : NetAxisWord → ℕ → ℕ
octet w i = if bit w.keep i then byte_of w.word i else 0

-- The sum of `n` 16-bit numbers of a word from number `i` on. The last byte of an odd number of
-- bytes is a higher one.
unfoldable pub octets_sum : ℕ → ℕ → NetAxisWord → ℕ
octets_sum i zero w = 0
octets_sum i (suc n) w = 256 * octet w (2 * i) + octet w (suc (2 * i)) + octets_sum (suc i) n w

-- The sum of the 16-bit numbers of a packet.
unfoldable pub packet_sum : List NetAxisWord → ℕ
unfolding octets_sum
packet_sum [] = 0
packet_sum (w ∷ ws) = octets_sum 0 32 w + packet_sum ws

-- No byte of a word lies behind a missing one with an even number.
abbrev pub NoGaps : List NetAxisWord → Type 0
NoGaps [] = Unit
NoGaps (w ∷ ws) = ((i : ℕ) → w.keep / 2 ^ (2 * i) % 4 ≢ 2) × NoGaps ws

pub div_shifted : (x a b : ℕ) → x / 2 ^ (a + b) ≡ x / 2 ^ a / 2 ^ b
div_shifted x a b =
    ap (λ (t : ℕ). x / t) (pow_add 2 a b) ∙ sym (div-div-eq-div-mul x (2 ^ a) (2 ^ b))
