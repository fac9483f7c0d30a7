-- ===== src/Words/Left.antt =====
-- What is left of the words of a packet without some bytes at the start of it.
use mathlib.Core.Path.{subst, fun_ext}
use native.Mathlib.Nat.{one-mul, add-zero, mod-eq_of_lt, div-le_self, one-le-pow}
use tcp_offload_engine_shell.Prelude.{
  ℕ, suc, ◌-◌, ◌*◌, ◌/◌, ◌%◌, ◌^◌, ◌≡◌, ◌≢◌, ◌<◌, ◌≤◌, refl, sym, List, [], ◌∷◌, ◌++◌, length,
  length-map, arith,
}
use tcp_offload_engine_shell.Words.{NetAxisWord, no_word, concat_two_words}
use tcp_offload_engine_shell.Words.Values.{value, shifted, AllBelow}
use tcp_offload_engine_shell.Words.Cut.{
  IsPacket, second_words, final_word, padding, words, keeps, second_words-shifted,
  second_words-IsPacket, numbers_cut, left_words,
}

pub left_words-IsPacket :
    (off : ℕ) (p : NetAxisWord) (ws : List NetAxisWord)
    → IsPacket (p ∷ ws)
    → IsPacket (left_words off p ws)
left_words-IsPacket off p [] h = refl
left_words-IsPacket off p (w ∷ ws) h = second_words-IsPacket off p (w ∷ ws) h.1

alone_word :
    (off : ℕ) (p : NetAxisWord)
    → off ≢ 0
    → (concat_two_words no_word p off no_word).word ≡ p.word / 2 ^ (8 * off)
unfolding concat_two_words
alone_word off p o =
    let low : 0 % 2 ^ (8 * off) ≡ 0 = mod-eq_of_lt (one-le-pow (8 * off) 2 (omega arith)) in
    ground (arith, low, o)

pub left_value :
    (off : ℕ) (p : NetAxisWord) (ws : List NetAxisWord)
    → off ≢ 0
    → off < 64
    → IsPacket (p ∷ ws)
    → AllBelow (2 ^ 512) (words (p ∷ ws))
    → value (2 ^ 512) (words (left_words off p ws))
      ≡ value (2 ^ 512) (words (p ∷ ws)) / 2 ^ (8 * off) % (2 ^ 512) ^ length (left_words off p ws)
unfolding concat_two_words
left_value off p [] o b h a =
    let small : p.word / 2 ^ (8 * off) < 2 ^ 512 =
      omega (arith, a.0, div-le_self p.word (2 ^ (8 * off))) in
    rw (alone_word off p o, add-zero (p.word / 2 ^ (8 * off)), add-zero p.word)
      (sym (mod-eq_of_lt small))
left_value off p (w ∷ ws) o b h a =
    rw (← length-map (λ (v : NetAxisWord). v.word) (second_words off p (w ∷ ws))) (
      numbers_cut 8 off off [] p.word (words (w ∷ ws)) (final_word p (w ∷ ws))
        (words (second_words off p (w ∷ ws))) (omega (arith, o)) (omega (arith, b))
        (sym (mod-eq_of_lt b)) (λ e. absurd (o e))
        (λ n. (second_words-shifted off p (w ∷ ws) n h.1).0) tt a.0 a.1)

keeps_cut :
    (off prev : ℕ) (xs : List ℕ) (w : NetAxisWord) (ys : List ℕ)
    → off ≢ 0
    → off < 64
    → ys ≡ shifted (2 ^ off) (2 ^ (64 - off)) prev (xs ++ padding off w)
    → prev < 2 ^ 64
    → AllBelow (2 ^ 64) xs
    → value (2 ^ 64) ys ≡ value (2 ^ 64) (prev ∷ xs) / 2 ^ off % (2 ^ 64) ^ length ys
keeps_cut off prev xs w ys o b e p a =
    let some_bytes : 64 * length {A = ℕ} [] < off = omega (arith, o) in
    let one_word : off ≤ 64 * suc (length {A = ℕ} []) = omega (arith, b) in
    let once : (λ (t : ℕ). 1 * t) ≡ (λ (t : ℕ). t) = fun_ext one-mul in
    subst
      (λ (f : ℕ → ℕ).
        ys ≡ shifted (2 ^ f off) (2 ^ f (64 - off)) prev (xs ++ padding off w)
        → value (2 ^ 64) ys ≡ value (2 ^ 64) (prev ∷ xs) / 2 ^ f off % (2 ^ 64) ^ length ys)
      once
      (λ h.
        numbers_cut 1 off off [] prev xs w ys some_bytes one_word (sym (mod-eq_of_lt b))
          (λ z. absurd (o z)) (λ n. h) tt p a)
      e

alone_keep :
    (off : ℕ) (p : NetAxisWord)
    → off ≢ 0
    → (concat_two_words no_word p off no_word).keep ≡ p.keep / 2 ^ off
unfolding concat_two_words
alone_keep off p o =
    let low : 0 % 2 ^ off ≡ 0 = mod-eq_of_lt (one-le-pow off 2 (omega arith)) in
    ground (arith, low, o)

pub left_keeps :
    (off : ℕ) (p : NetAxisWord) (ws : List NetAxisWord)
    → off ≢ 0
    → off < 64
    → IsPacket (p ∷ ws)
    → AllBelow (2 ^ 64) (keeps (p ∷ ws))
    → value (2 ^ 64) (keeps (left_words off p ws))
      ≡ value (2 ^ 64) (keeps (p ∷ ws)) / 2 ^ off % (2 ^ 64) ^ length (left_words off p ws)
unfolding concat_two_words
left_keeps off p [] o b h a =
    let small : p.keep / 2 ^ off < 2 ^ 64 = omega (arith, a.0, div-le_self p.keep (2 ^ off)) in
    rw (alone_keep off p o, add-zero (p.keep / 2 ^ off), add-zero p.keep) (sym (mod-eq_of_lt small))
left_keeps off p (w ∷ ws) o b h a =
    rw (← length-map (λ (v : NetAxisWord). v.keep) (second_words off p (w ∷ ws))) (
      keeps_cut off p.keep (keeps (w ∷ ws)) (final_word p (w ∷ ws))
        (keeps (second_words off p (w ∷ ws))) o b (second_words-shifted off p (w ∷ ws) o h.1).1 a.0
        a.1)
