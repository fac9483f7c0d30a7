-- ===== src/RxEngine/PseudoHeader/Removed.antt =====
-- The words of a received packet without the start of the IP header.
use tcp_offload_engine_shell.Prelude.{
  ℕ, ◌≡◌, ◌≢◌, ◌≤◌, refl, true, false, not, List, [], ◌∷◌, arith, if◌then◌else◌,
}
use tcp_offload_engine_shell.Words.{NetAxisWord, no_word, bit, concat_two_words}
use tcp_offload_engine_shell.Words.Cut.{IsPacket, words, keeps, second_words, left_words}
use tcp_offload_engine_shell.RxEngine.PseudoHeader.{skipped, remove_ip_header}

-- The word of the code but for `keep` in the case 9 and `dest`.
removed_word :
    (w p : NetAxisWord) (n : ℕ)
    → 5 ≤ n
    → n ≤ 15
    → (remove_ip_header w p n no_word).word ≡ (concat_two_words w p (skipped n) no_word).word
unfolding concat_two_words remove_ip_header
removed_word w p n lo hi = ground arith

removed_keep :
    (w p : NetAxisWord) (n : ℕ)
    → 5 ≤ n
    → n ≤ 15
    → n ≢ 9
    → (remove_ip_header w p n no_word).keep ≡ (concat_two_words w p (skipped n) no_word).keep
unfolding concat_two_words remove_ip_header
removed_keep w p n lo hi d = ground arith

-- What is left behind the word `p` of a packet whose IP header has `n` words of 4 bytes.
abbrev pub behind : ℕ → NetAxisWord → List NetAxisWord → List NetAxisWord
behind n p [] = []
behind n p (w ∷ []) =
    record (remove_ip_header w p n no_word) { last = not (bit w.keep (skipped n)) }
    ∷ (if bit w.keep (skipped n)
        then record (remove_ip_header no_word w n no_word) { last = true } ∷ []
        else [])
behind n p (w ∷ v ∷ ws) =
    record (remove_ip_header w p n no_word) { last = false } ∷ behind n w (v ∷ ws)

abbrev pub removed : ℕ → NetAxisWord → List NetAxisWord → List NetAxisWord
removed n p [] = record (remove_ip_header no_word p n no_word) { last = true } ∷ []
removed n p (w ∷ ws) = behind n p (w ∷ ws)

behind_lem :
    (n : ℕ) (p : NetAxisWord) (ws : List NetAxisWord)
    → 5 ≤ n
    → n ≤ 15
    → (words (behind n p ws) ≡ words (second_words (skipped n) p ws))
      × (n ≢ 9 → keeps (behind n p ws) ≡ keeps (second_words (skipped n) p ws))
      × (IsPacket ws → IsPacket (behind n p ws))
unfolding second_words
behind_lem n p [] lo hi = (refl, λ d. refl, λ h. h)
behind_lem n p (w ∷ []) lo hi = ground (
  arith,
  removed_word w p n lo hi,
  removed_keep w p n lo hi,
  removed_word no_word w n lo hi,
  removed_keep no_word w n lo hi,
)
behind_lem n p (w ∷ v ∷ ws) lo hi =
    ground
      (arith, removed_word w p n lo hi, removed_keep w p n lo hi, behind_lem n w (v ∷ ws) lo hi)

pub removed_lem :
    (n : ℕ) (p : NetAxisWord) (ws : List NetAxisWord)
    → 5 ≤ n
    → n ≤ 15
    → (words (removed n p ws) ≡ words (left_words (skipped n) p ws))
      × (n ≢ 9 → keeps (removed n p ws) ≡ keeps (left_words (skipped n) p ws))
      × (IsPacket (p ∷ ws) → IsPacket (removed n p ws))
removed_lem n p [] lo hi =
    ground (arith, removed_word no_word p n lo hi, removed_keep no_word p n lo hi)
removed_lem n p (w ∷ ws) lo hi =
    let (same_words, same_keeps, packet) = behind_lem n p (w ∷ ws) lo hi in
    (same_words, same_keeps, λ h. packet h.1)
