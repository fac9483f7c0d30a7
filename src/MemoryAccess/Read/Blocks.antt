-- ===== src/MemoryAccess/Read/Blocks.antt =====
-- The words of a read that was split.
use tcp_offload_engine_shell.Words.Cut.{IsPacket, final_word, second_words}
use native.Mathlib.Nat.{mul-div_cancel, one-le-pow}
use tcp_offload_engine_shell.Prelude.{
  ℕ, suc, ◌-◌, ◌*◌, ◌/◌, ◌%◌, ◌^◌, ◌≡◌, ◌≢◌, ◌<◌, true, false, none, some, List, [], ◌∷◌, ◌++◌,
  length, map, All, arith, calls,
}
use tcp_offload_engine_shell.Words.{NetAxisWord, no_word, concat_two_words, merge_two_words_head}
use tcp_offload_engine_shell.MemoryAccess.Read.{
  Regs, Ins, read_access, breakdown_block_0, breakdown_block_1, first_merge, read_data_from_mem,
}

-- No word of the first part but the last is kept: the process takes the words of `front` and
-- writes none of them.
pub first_words_lost :
    (front : List NetAxisWord) (p : NetAxisWord) (rest : List NetAxisWord) (r : Regs) (i : Ins)
    → r.fsm_state ≡ breakdown_block_0
    → r.offset_block0 ≢ 0
    → All (λ w. w.last ≡ false) front
    → p.last ≡ true
    → i.full ≡ false
    → calls read_data_from_mem (suc (length front)) r (record i { read_data = front ++ (p ∷ rest) })
      ≡ (
        record r { fsm_state = first_merge; prev_beat_word = p },
        none ∷ map (λ w. none) front,
        record i { read_data = rest },
      )
unfolding calls read_data_from_mem
first_words_lost [] p rest r i s o n l f = ground arith
first_words_lost (w ∷ ws) p rest r i s o n l f =
    ground (arith, first_words_lost ws p rest (record r { prev_beat_word = w }) i s o n.1 l f)

-- The bytes of a word before the offset, moved to its end.
abbrev pub raised : ℕ → NetAxisWord → NetAxisWord
raised off p = record p {
  word = p.word % 2 ^ (8 * off) * 2 ^ (8 * (64 - off));
  keep = p.keep % 2 ^ off * 2 ^ (64 - off);
}

pub merge_as_concat :
    (w p : NetAxisWord) (off : ℕ)
    → 0 < off
    → off < 64
    → merge_two_words_head w p off no_word ≡ concat_two_words w (raised off p) (64 - off) no_word
unfolding merge_two_words_head concat_two_words
merge_as_concat w p off lo hi =
    let back : 64 - (64 - off) ≡ off = omega arith in
    let word : p.word % 2 ^ (8 * off) * 2 ^ (8 * (64 - off)) / 2 ^ (8 * (64 - off))
        ≡ p.word % 2 ^ (8 * off) =
      mul-div_cancel (p.word % 2 ^ (8 * off)) (one-le-pow (8 * (64 - off)) 2 (omega arith)) in
    let keep : p.keep % 2 ^ off * 2 ^ (64 - off) / 2 ^ (64 - off) ≡ p.keep % 2 ^ off =
      mul-div_cancel (p.keep % 2 ^ off) (one-le-pow (64 - off) 2 (omega arith)) in
    rw (back, word, keep) (ground arith)

-- The words that are written, where `p` is the last word of the first part.
abbrev pub joined : ℕ → NetAxisWord → List NetAxisWord → List NetAxisWord
joined off p ws = second_words (64 - off) (raised off p) ws

abbrev pub joining : Regs → ℕ → NetAxisWord → Regs
joining r off p = record r { offset_block0 = off; offset_block1 = 64 - off; prev_beat_word = p }

later_words :
    (off : ℕ) (p : NetAxisWord) (ws rest : List NetAxisWord) (r : Regs) (i : Ins)
    → 0 < off
    → off < 64
    → IsPacket ws
    → i.full ≡ false
    → calls read_data_from_mem
        (length (second_words (64 - off) p ws))
        (record (joining r off p) { fsm_state = breakdown_block_1 })
        (record i { read_data = ws ++ rest })
      ≡ (
        record (joining r off (final_word p ws)) { fsm_state = read_access },
        map some (second_words (64 - off) p ws),
        record i { read_data = rest },
      )
unfolding calls read_data_from_mem second_words
later_words off p [] rest r i lo hi h f = absurd h
later_words off p (w ∷ []) rest r i lo hi h f = ground arith
later_words off p (w ∷ v ∷ ws) rest r i lo hi h f =
    ground (arith, later_words off w (v ∷ ws) rest r i lo hi h.1 f)

pub first_join :
    (off : ℕ) (p : NetAxisWord) (ws rest : List NetAxisWord) (r : Regs) (i : Ins)
    → 0 < off
    → off < 64
    → IsPacket ws
    → i.full ≡ false
    → calls read_data_from_mem
        (length (joined off p ws))
        (record (joining r off p) { fsm_state = first_merge })
        (record i { read_data = ws ++ rest })
      ≡ (
        record (joining r off (final_word p ws)) { fsm_state = read_access },
        map some (joined off p ws),
        record i { read_data = rest },
      )
unfolding calls read_data_from_mem second_words
first_join off p [] rest r i lo hi h f = absurd h
first_join off p (w ∷ []) rest r i lo hi h f = ground (arith, merge_as_concat w p off lo hi)
first_join off p (w ∷ v ∷ ws) rest r i lo hi h f =
    ground (arith, merge_as_concat w p off lo hi, later_words off w (v ∷ ws) rest r i lo hi h.1 f)
