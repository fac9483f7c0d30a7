-- ===== src/MemoryAccess/Read/Joined.antt =====
-- Which bytes a read that was split returns.
use tcp_offload_engine_shell.Words.Cut.{
  Fits, IsPacket, final_word, keeps, length-second_words, numbers_cut, padding,
  second_words-IsPacket, second_words-shifted, words,
}
use tcp_offload_engine_shell.Prelude.{
  ℕ, suc, ◌+◌, ◌-◌, ◌*◌, ◌/◌, ◌%◌, ◌^◌, ◌≡◌, ◌<◌, ◌≤◌, ap, refl, ◌∙◌, true, false, none, some, List,
  [], ◌∷◌, ◌++◌, length, map, length-map, All, arith, ltb, calls, calls-suc, calls-add,
}
use mathlib.Core.Path.{subst, fun_ext}
use native.Mathlib.Nat.{mod-lt, mul-lt-mul_of_pos_right, mul-div_cancel, one-le-pow, one-mul}
use tcp_offload_engine_shell.Words.{NetAxisWord, bit}
use tcp_offload_engine_shell.Words.Values.{value, shifted, AllBelow, base_parts, bit_of_ones}
use tcp_offload_engine_shell.MemoryAccess.Read.{
  MemBufferRwCmdDoubleAccess, Regs, Ins, read_access, breakdown_block_0, read_data_from_mem,
}
use tcp_offload_engine_shell.MemoryAccess.Read.Blocks.{
  raised, joined, joining, first_join, first_words_lost,
}

-- For either width, as in `numbers_cut`: `low` is what the last word of the first part carries.
pub numbers_joined :
    (u off low : ℕ) (xs : List ℕ) (w : NetAxisWord) (ys : List ℕ)
    → let base = 2 ^ (u * 64) in
      let rest = 64 - off in
      let prev = low % 2 ^ (u * off) * 2 ^ (u * rest) in
      0 < off
      → off < 64
      → ys ≡ shifted (2 ^ (u * rest)) (2 ^ (u * (64 - rest))) prev (xs ++ padding rest w)
      → AllBelow base xs
      → value base ys ≡ (low % 2 ^ (u * off) + 2 ^ (u * off) * value base xs) % base ^ length ys
numbers_joined u off low xs w ys lo hi e a =
    let base : ℕ = 2 ^ (u * 64) in
    let q : ℕ = 2 ^ (u * off) in
    let p : ℕ = 2 ^ (u * (64 - off)) in
    let hp : 0 < p = one-le-pow (u * (64 - off)) 2 (omega arith) in
    let hq : 0 < q = one-le-pow (u * off) 2 (omega arith) in
    let parts : q * p ≡ base = base_parts u off (omega arith) in
    let below : low % q * p < base = rw (← parts) (mul-lt-mul_of_pos_right (mod-lt low hq) hp) in
    let cut =
      numbers_cut u (64 - off) (64 - off) [] (low % q * p) xs w ys (omega arith) (omega arith)
        (omega arith) (λ z. absurd (omega (arith, z, hi))) (λ n. e) tt below a in
    let sum : low % q * p + base * value base xs ≡ (low % q + q * value base xs) * p =
      omega (arith, ap (λ (t : ℕ). t * value base xs) parts) in
    cut
    ∙ ap (λ (t : ℕ). t / p % base ^ length ys) sum
    ∙ ap (λ (t : ℕ). t % base ^ length ys) (mul-div_cancel (low % q + q * value base xs) hp)

pub keeps_joined :
    (off low : ℕ) (xs : List ℕ) (w : NetAxisWord) (ys : List ℕ)
    → let rest = 64 - off in
      let prev = low % 2 ^ off * 2 ^ rest in
      0 < off
      → off < 64
      → ys ≡ shifted (2 ^ rest) (2 ^ (64 - rest)) prev (xs ++ padding rest w)
      → AllBelow (2 ^ 64) xs
      → value (2 ^ 64) ys ≡ (low % 2 ^ off + 2 ^ off * value (2 ^ 64) xs) % (2 ^ 64) ^ length ys
keeps_joined off low xs w ys lo hi e a =
    let rest : ℕ = 64 - off in
    let once : (λ (t : ℕ). 1 * t) ≡ (λ (t : ℕ). t) = fun_ext one-mul in
    subst
      (λ (f : ℕ → ℕ).
        ys
          ≡ shifted (2 ^ f rest) (2 ^ f (64 - rest)) (low % 2 ^ f off * 2 ^ f rest)
              (xs ++ padding rest w)
        → value (2 ^ 64) ys
          ≡ (low % 2 ^ f off + 2 ^ f off * value (2 ^ 64) xs) % (2 ^ 64) ^ length ys)
      once (λ h. numbers_joined 1 off low xs w ys lo hi h a) e

final_word_of_packet :
    (a b : NetAxisWord) (ws : List NetAxisWord) → IsPacket ws → final_word a ws ≡ final_word b ws
final_word_of_packet a b [] h = absurd h
final_word_of_packet a b (w ∷ ws) h = refl

length-packet : (ws : List NetAxisWord) → IsPacket ws → 0 < length ws
length-packet [] h = absurd h
length-packet (w ∷ ws) h = omega arith

module _ (off : ℕ) (ds : List MemBufferRwCmdDoubleAccess) (front : List NetAxisWord)
    (p : NetAxisWord) (ws rest : List NetAxisWord) (r : Regs) where
  abbrev start : Ins
  start = record {
    read_data = front ++ (p ∷ ws ++ rest);
    double_access = record { double_access = true; byte_offset = off } ∷ ds;
    full = false;
  }

  abbrev done : Ins
  done = record { read_data = rest; double_access = ds; full = false }

  first_call :
      r.fsm_state ≡ read_access
      → 0 < off
      → read_data_from_mem r start ≡ (
        record r { offset_block0 = off; offset_block1 = 64 - off; fsm_state = breakdown_block_0 },
        none,
        record start { double_access = ds },
      )
  unfolding read_data_from_mem
  first_call s lo = ground arith

  whole_read :
      r.fsm_state ≡ read_access
      → 0 < off
      → off < 64
      → All (λ w. w.last ≡ false) front
      → p.last ≡ true
      → IsPacket ws
      → calls read_data_from_mem (suc (suc (length front) + length (joined off p ws))) r start ≡ (
        record (joining r off (final_word p ws)) { fsm_state = read_access },
        none ∷ ((none ∷ map (λ w. none) front) ++ map some (joined off p ws)),
        done,
      )
  whole_read s lo hi n l h =
      let later : Ins = record start { double_access = ds } in
      let r1 = record r {
        offset_block0 = off;
        offset_block1 = 64 - off;
        fsm_state = breakdown_block_0;
      } in
      ground (
        arith,
        first_call s lo,
        calls-suc read_data_from_mem (suc (length front) + length (joined off p ws)) r r1 start
            later none,
        calls-add read_data_from_mem (suc (length front)) (length (joined off p ws)) r1 later,
        first_words_lost front p (ws ++ rest) r1 done refl (omega (arith, lo)) n l refl,
        first_join off p ws rest r done lo hi h refl,
      )

  -- For a read of two parts, the first `front ++ p ∷ []` and the second `ws`, where `p` holds
  -- `off` bytes, less than a word: the words of `front` are taken and nothing is written for them,
  -- and then the bytes of `p` and all bytes of the second part follow, as one packet with as many
  -- words as these bytes need.
  pub read_joins_parts :
      (l : ℕ)
      → r.fsm_state ≡ read_access
      → 0 < off
      → off < 64
      → All (λ w. w.last ≡ false) front
      → p.last ≡ true
      → IsPacket ws
      → Fits ws
      → (final_word p ws).keep ≡ 2 ^ l - 1
      → 0 < l
      → l ≤ 64
      → let bytes = off + 64 * (length ws - 1) + l in
        let (r', os, i') =
          calls read_data_from_mem (suc (suc (length front) + length (joined off p ws))) r start in
        (r'.fsm_state ≡ read_access)
        × (i' ≡ done)
        × (os ≡ none ∷ ((none ∷ map (λ w. none) front) ++ map some (joined off p ws)))
        × IsPacket (joined off p ws)
        × (value (2 ^ 512) (words (joined off p ws))
            ≡ (p.word % 2 ^ (8 * off) + 2 ^ (8 * off) * value (2 ^ 512) (words ws))
              % (2 ^ 512) ^ length (joined off p ws))
        × (value (2 ^ 64) (keeps (joined off p ws))
            ≡ (p.keep % 2 ^ off + 2 ^ off * value (2 ^ 64) (keeps ws))
              % (2 ^ 64) ^ length (joined off p ws))
        × (bytes ≤ 64 * length (joined off p ws))
        × (64 * length (joined off p ws) < bytes + 64)
  read_joins_parts l s lo hi n pl pk fits kl l0 l64 =
      let top : NetAxisWord = raised off p in
      let ones : (final_word top ws).keep ≡ 2 ^ l - 1 =
        ap (λ (w : NetAxisWord). w.keep) (final_word_of_packet top p ws pk) ∙ kl in
      let more : bit (final_word top ws).keep (64 - off) ≡ ltb (64 - off) l =
        rw ones (bit_of_ones l (64 - off)) in
      let shift = second_words-shifted (64 - off) top ws (omega (arith, hi)) pk in
      let size = length-second_words (64 - off) top ws pk in
      let some_word = length-packet ws pk in
      rw (whole_read s lo hi n pl pk) (
        refl,
        refl,
        refl,
        second_words-IsPacket (64 - off) top ws pk,
        rw (← length-map (λ (w : NetAxisWord). w.word) (joined off p ws)) (
            numbers_joined 8 off p.word (words ws) (final_word top ws) (words (joined off p ws)) lo
              hi shift.0 fits.0),
        rw (← length-map (λ (w : NetAxisWord). w.keep) (joined off p ws)) (
            keeps_joined off p.keep (keeps ws) (final_word top ws) (keeps (joined off p ws)) lo hi
              shift.1 fits.1),
        ground (arith, size, more, some_word),
        ground (arith, size, more, some_word),
      )
