-- ===== src/Words/Cut.antt =====
-- The words of a packet moved by some bytes, as `concat_two_words` does it word by word, and which
-- bytes they carry.
use tcp_offload_engine_shell.Prelude.{
  ℕ, zero, suc, ◌+◌, ◌-◌, ◌*◌, ◌/◌, ◌%◌, ◌^◌, ◌≡◌, ◌≢◌, ◌<◌, ◌≤◌, ap, refl, sym, ◌∙◌, Bool, true,
  false, not, none, List, [], ◌==◌, ◌∷◌, ◌++◌, length, Option, map, arith, if◌then◌else◌, ◌&&◌,
}
use tcp_offload_engine_shell.Words.{NetAxisWord, no_word, bit, concat_two_words}
use tcp_offload_engine_shell.Words.Values.{
  value, shifted, AllBelow, value_cut, base-pos, length-shifted, value_cut_between, value-append,
}

-- The words of one payload: `last` on the last one only.
abbrev pub IsPacket : List NetAxisWord → Type 0
IsPacket [] = ⊥
IsPacket (w ∷ []) = w.last ≡ true
IsPacket (w ∷ v ∷ ws) = (w.last ≡ false) × IsPacket (v ∷ ws)

-- The word behind a word that is the last of the payload: there is one if it has bytes left.
abbrev pub extra_word : ℕ → NetAxisWord → List NetAxisWord
extra_word off w =
    if bit w.keep off && not (off == 0)
    then record (concat_two_words no_word w off no_word) { last = true } ∷ []
    else []

-- What is sent for the second command, where `prev` is the last word of the first one.
unfoldable pub second_words : ℕ → NetAxisWord → List NetAxisWord → List NetAxisWord
second_words off prev [] = []
second_words off prev (w ∷ []) =
    record (concat_two_words w prev off no_word) { last = not (bit w.keep off && not (off == 0)) }
    ∷ extra_word off w
second_words off prev (w ∷ v ∷ ws) =
    record (concat_two_words w prev off no_word) { last = false } ∷ second_words off w (v ∷ ws)

abbrev pub final_word : NetAxisWord → List NetAxisWord → NetAxisWord
final_word p [] = p
final_word p (w ∷ ws) = final_word w ws

-- A further word that is empty, if the last word of the payload has bytes left.
abbrev pub padding : ℕ → NetAxisWord → List ℕ
padding off w = if bit w.keep off && not (off == 0) then 0 ∷ [] else []

abbrev pub words : List NetAxisWord → List ℕ
words ws = map (λ w. w.word) ws

abbrev pub keeps : List NetAxisWord → List ℕ
keeps ws = map (λ w. w.keep) ws

pub second_words-shifted :
    (off : ℕ) (prev : NetAxisWord) (ws : List NetAxisWord)
    → off ≢ 0
    → IsPacket ws
    → (words (second_words off prev ws)
        ≡ shifted
            (2 ^ (8 * off))
            (2 ^ (8 * (64 - off)))
            prev.word
            (words ws ++ padding off (final_word prev ws)))
      × (keeps (second_words off prev ws)
          ≡ shifted
              (2 ^ off)
              (2 ^ (64 - off))
              prev.keep
              (keeps ws ++ padding off (final_word prev ws)))
unfolding second_words concat_two_words
second_words-shifted off prev [] h p = absurd p
second_words-shifted off prev (w ∷ []) h p = ground arith
second_words-shifted off prev (w ∷ v ∷ ws) h p =
    ground (arith, second_words-shifted off w (v ∷ ws) h p.1)

pub second_words_aligned :
    (off : ℕ) (prev : NetAxisWord) (ws : List NetAxisWord)
    → off ≡ 0
    → IsPacket ws
    → (words (second_words off prev ws) ≡ words ws) × (keeps (second_words off prev ws) ≡ keeps ws)
unfolding second_words concat_two_words
second_words_aligned off prev [] e p = absurd p
second_words_aligned off prev (w ∷ []) e p = ground arith
second_words_aligned off prev (w ∷ v ∷ ws) e p =
    ground (arith, second_words_aligned off w (v ∷ ws) e p.1)

pub second_words-IsPacket :
    (off : ℕ) (prev : NetAxisWord) (ws : List NetAxisWord)
    → IsPacket ws
    → IsPacket (second_words off prev ws)
unfolding second_words concat_two_words
second_words-IsPacket off prev [] p = absurd p
second_words-IsPacket off prev (w ∷ []) p = ground arith
second_words-IsPacket off prev (w ∷ v ∷ []) p = ground arith
second_words-IsPacket off prev (w ∷ v ∷ u ∷ ws) p =
    ground (arith, second_words-IsPacket off w (v ∷ u ∷ ws) p.1)

pub length-second_words :
    (off : ℕ) (prev : NetAxisWord) (ws : List NetAxisWord)
    → IsPacket ws
    → length (second_words off prev ws) ≡ length ws + length (padding off (final_word prev ws))
unfolding second_words
length-second_words off prev [] p = absurd p
length-second_words off prev (w ∷ []) p = ground arith
length-second_words off prev (w ∷ v ∷ ws) p = ground (arith, length-second_words off w (v ∷ ws) p.1)

-- A word of zeros changes neither the number nor the bound.
padded :
    (b : ℕ) (more : Bool) (xs : List ℕ)
    → 0 < b
    → AllBelow b xs
    → let pad : List ℕ = if more then 0 ∷ [] else [] in
      (value b (xs ++ pad) ≡ value b xs) × AllBelow b (xs ++ pad)
padded b true [] pos h = (omega arith, (pos, tt))
padded b false [] pos h = (refl, tt)
padded b more (x ∷ xs) pos h =
    let (e, k) = padded b more xs pos h.1 in (ap (λ (t : ℕ). x + b * t) e, (h.0, k))

-- The numbers `ys` that the words of the second command carry, for either width: `u` is 8 for the
-- data and 1 for the bits of `keep`.
pub numbers_cut :
    (u off n : ℕ) (front : List ℕ) (prev : ℕ) (xs : List ℕ) (w : NetAxisWord) (ys : List ℕ)
    → let base = 2 ^ (u * 64) in
      let padded = xs ++ padding off w in
      64 * length front < n
      → n ≤ 64 * suc (length front)
      → off ≡ n % 64
      → (off ≡ 0 → ys ≡ xs)
      → (off ≢ 0 → ys ≡ shifted (2 ^ (u * off)) (2 ^ (u * (64 - off))) prev padded)
      → AllBelow base front
      → prev < base
      → AllBelow base xs
      → value base ys ≡ value base (front ++ prev ∷ xs) / 2 ^ (u * n) % base ^ length ys
numbers_cut u zero n front prev xs w ys lo hi e same shift f p a =
    let whole : 64 * length front + 64 ≡ n = omega (arith, e) in
    rw (same refl, ← whole) (value_cut_between u front prev xs f p a)
numbers_cut u (suc o) n front prev xs w ys lo hi e same shift f p a =
    let off : ℕ = suc o in
    let base : ℕ = 2 ^ (u * 64) in
    let pad : List ℕ = padding off w in
    let whole : 64 * length front + off ≡ n = omega (arith, e) in
    let (same_value, below) = padded base (bit w.keep off && not (off == 0)) xs (base-pos u) a in
    let rest : value base (front ++ prev ∷ (xs ++ pad)) ≡ value base (front ++ prev ∷ xs) =
      value-append base front (prev ∷ (xs ++ pad))
      ∙ ap (λ (t : ℕ). value base front + base ^ length front * (prev + base * t)) same_value
      ∙ sym (value-append base front (prev ∷ xs)) in
    let cut = value_cut u front prev (xs ++ pad) off (omega (arith, e)) f p below in
    rw
      (
        shift (omega arith),
        length-shifted (2 ^ (u * off)) (2 ^ (u * (64 - off))) prev (xs ++ pad),
        ← rest,
        ← whole,
      )
      cut

-- The words as the type of the code has them: 64 bytes and 64 bits.
abbrev pub Fits : List NetAxisWord → Type 0
Fits ws = AllBelow (2 ^ 512) (words ws) × AllBelow (2 ^ 64) (keeps ws)

-- What is left of the packet `p ∷ ws` without its first `off` bytes.
abbrev pub left_words : ℕ → NetAxisWord → List NetAxisWord → List NetAxisWord
left_words off p [] = record (concat_two_words no_word p off no_word) { last = true } ∷ []
left_words off p (w ∷ ws) = second_words off p (w ∷ ws)

-- The call that takes the first word of several sends nothing.
abbrev pub take_more : List NetAxisWord → List (Option NetAxisWord)
take_more [] = []
take_more (w ∷ ws) = none ∷ []
