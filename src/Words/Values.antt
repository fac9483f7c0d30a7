-- ===== src/Words/Values.antt =====
-- A packet as one number, its first word lowest, and what shifting the words by some bytes does to
-- it.
use tcp_offload_engine_shell.Prelude.{
  ltb, true, false, ℕ, zero, suc, ◌+◌, ◌-◌, ◌*◌, ◌/◌, ◌%◌, ◌^◌, ◌<◌, ◌≤◌, ◌≡◌, refl, sym, ap, ◌∙◌,
  List, [], ◌∷◌, ◌++◌, All, length, arith,
}
use tcp_offload_engine_shell.Words.{bit}
use mathlib.Core.Path.{subst}
use native.Mathlib.Nat.{
  pow-suc, pow-zero, add-mul-div_left, add-mul-mod_self_left, div-add-mod, mod-eq_of_lt, mod-lt,
  mod-one, div-lt_iff_lt-mul, one-le-pow, pow-le-pow_right, mul-zero, mul-suc, mul-add,
  div-eq_of_lt, div-div-eq-div-mul, zero-add, add-suc, pow-succ', mul-pos, mul-le-mul_left,
  mul-le-mul_right, add-zero, mul_assoc,
}

-- The number with the digits `xs` to the base `b`, the lowest first.
abbrev pub value : ℕ → List ℕ → ℕ
value b [] = 0
value b (x ∷ xs) = x + b * value b xs

-- Every word is put together with the one before it, the first with `prev`.
abbrev pub shifted : ℕ → ℕ → ℕ → List ℕ → List ℕ
shifted p q prev [] = []
shifted p q prev (x ∷ xs) = (x % p * q + prev / p) ∷ shifted p q x xs

pub pow_add : (b m n : ℕ) → b ^ (m + n) ≡ b ^ m * b ^ n
pow_add b m zero = rw (pow-zero b, add-zero m) (omega arith)
pow_add b m (suc n) =
    let step : b ^ (m + suc n) ≡ b ^ (m + n) * b = rw (add-suc m n) (pow-suc b (m + n)) in
    omega (
      arith,
      step,
      pow-suc b n,
      ap (λ (t : ℕ). t * b) (pow_add b m n),
      ap (λ (t : ℕ). b ^ m * t) (pow-suc b n),
    )

abbrev pub AllBelow : ℕ → List ℕ → Type 0
AllBelow b xs = All (λ (x : ℕ). x < b) xs

mod_digit : (b m s y : ℕ) → 0 < m → s < b → (s + b * y) % (b * m) ≡ s + b * (y % m)
mod_digit b m s y h k =
    let split : s + b * y ≡ (s + b * (y % m)) + b * m * (y / m) =
      omega (arith, ap (λ (t : ℕ). b * t) (div-add-mod y m)) in
    let small : s + b * (y % m) < b * m = omega (arith, mul-le-mul_left b (mod-lt y h)) in
    rw split (add-mul-mod_self_left (s + b * (y % m)) (b * m) (y / m) ∙ mod-eq_of_lt small)

-- The lowest digit of a shifted number.
shift_digit :
    (p q prev x v : ℕ)
    → 0 < p
    → let n : ℕ = x + p * (q * v) in
      (prev + p * (q * n)) / p ≡ (x % p * q + prev / p) + p * (q * (n / p))
shift_digit p q prev x v h =
    let n : ℕ = x + p * (q * v) in
    let low : n % p ≡ x % p = add-mul-mod_self_left x p (q * v) in
    let all : n ≡ p * (n / p) + x % p = omega (arith, div-add-mod n p, low) in
    let parts : (prev + p * (q * n)) / p ≡ prev / p + q * n = add-mul-div_left prev (q * n) h in
    omega (arith, parts, ap (λ (t : ℕ). q * t) all)

shift_digit_below : (p q prev x : ℕ) → 0 < p → prev < p * q → x % p * q + prev / p < p * q
shift_digit_below p q prev x h k =
    let high : prev / p < q = (div-lt_iff_lt-mul h).1 (omega (arith, k)) in
    omega (arith, mul-le-mul_right q (mod-lt x h), high)

-- The shifted words are the number of all words without the lowest digits, as far as it fits them.
pub value-shifted :
    (p q prev : ℕ) (xs : List ℕ)
    → 0 < p
    → 0 < q
    → prev < p * q
    → AllBelow (p * q) xs
    → value (p * q) (shifted p q prev xs)
      ≡ (prev + p * q * value (p * q) xs) / p % (p * q) ^ length xs
value-shifted p q prev [] hp hq k h = rw (pow-zero (p * q)) (sym (mod-one ((prev + p * q * 0) / p)))
value-shifted p q prev (x ∷ xs) hp hq k h =
    let b : ℕ = p * q in
    let v : ℕ = value b xs in
    let ih : value b (shifted p q x xs) ≡ (x + b * v) / p % b ^ length xs =
      value-shifted p q x xs hp hq h.0 h.1 in
    let d : (prev + b * (x + b * v)) / p ≡ (x % p * q + prev / p) + b * ((x + b * v) / p) =
      rw (mul_assoc p q v, mul_assoc p q (x + p * (q * v)), mul_assoc p q ((x + p * (q * v)) / p))
        (shift_digit p q prev x v hp) in
    let m : ℕ = b ^ length xs in
    let pos : 0 < m = one-le-pow (length xs) b (mul-pos hp hq) in
    rw (ih, d, pow-succ' b (length xs))
      (sym (
        mod_digit b m (x % p * q + prev / p) ((x + b * v) / p) pos
          (shift_digit_below p q prev x hp k)))

pub value-append :
    (b : ℕ) (xs ys : List ℕ) → value b (xs ++ ys) ≡ value b xs + b ^ length xs * value b ys
value-append b [] ys = rw (pow-zero b) (omega arith)
value-append b (x ∷ xs) ys = omega (
  arith,
  ap (λ (t : ℕ). b * t) (value-append b xs ys),
  ap (λ (t : ℕ). t * value b ys) (pow-succ' b (length xs)),
)

pub value-below : (b : ℕ) (xs : List ℕ) → AllBelow b xs → value b xs < b ^ length xs
value-below b [] h = rw (pow-zero b) (omega arith)
value-below b (x ∷ xs) h =
    omega (arith, h.0, mul-le-mul_left b (value-below b xs h.1), pow-succ' b (length xs))

pub pow_mul : (b m n : ℕ) → b ^ (m * n) ≡ (b ^ m) ^ n
pow_mul b m zero = rw (mul-zero m, pow-zero b, pow-zero (b ^ m)) refl
pow_mul b m (suc n) = rw (mul-suc m n, pow_add b (m * n) m, pow_mul b m n) (sym (pow-suc (b ^ m) n))

-- In what follows a word is 64 parts of `u` bits, and the lowest 64 * k + o parts are left out.
module _ (u : ℕ) where
  abbrev pub base : ℕ
  base = 2 ^ (u * 64)

  pub base-pos : 0 < base
  base-pos = one-le-pow (u * 64) 2 (omega arith)

  pub base_parts : (o : ℕ) → o ≤ 64 → 2 ^ (u * o) * 2 ^ (u * (64 - o)) ≡ base
  base_parts o h =
      let e : u * o + u * (64 - o) ≡ u * 64 =
        sym (mul-add u o (64 - o)) ∙ ap (λ (t : ℕ). u * t) (omega arith) in
      sym (pow_add 2 (u * o) (u * (64 - o))) ∙ ap (λ (t : ℕ). 2 ^ t) e

  -- The words before the one that is cut do not matter.
  pub value-div :
      (front : List ℕ) (prev : ℕ) (xs : List ℕ) (o : ℕ)
      → AllBelow base front
      → value base (front ++ prev ∷ xs) / 2 ^ (u * (64 * length front + o))
        ≡ (prev + base * value base xs) / 2 ^ (u * o)
  value-div front prev xs o h =
      let k : ℕ = length front in
      let y : ℕ = prev + base * value base xs in
      let f : ℕ = value base front in
      let e : 2 ^ (u * (64 * k + o)) ≡ base ^ k * 2 ^ (u * o) =
        ap (λ (t : ℕ). 2 ^ t)
          (mul-add u (64 * k) o ∙ ap (λ (t : ℕ). t + u * o) (sym (mul_assoc u 64 k)))
        ∙ pow_add 2 (u * 64 * k) (u * o)
        ∙ ap (λ (t : ℕ). t * 2 ^ (u * o)) (pow_mul 2 (u * 64) k) in
      let pos : 0 < base ^ k = one-le-pow k base base-pos in
      let whole : value base (front ++ prev ∷ xs) / base ^ k ≡ y =
        ap (λ (t : ℕ). t / base ^ k) (value-append base front (prev ∷ xs))
        ∙ add-mul-div_left f y pos
        ∙ ap (λ (t : ℕ). t + y) (div-eq_of_lt (value-below base front h))
        ∙ zero-add y in
      ap (λ (t : ℕ). value base (front ++ prev ∷ xs) / t) e
      ∙ sym (div-div-eq-div-mul (value base (front ++ prev ∷ xs)) (base ^ k) (2 ^ (u * o)))
      ∙ ap (λ (t : ℕ). t / 2 ^ (u * o)) whole

  -- A cut inside a word.
  pub value_cut :
      (front : List ℕ) (prev : ℕ) (xs : List ℕ) (o : ℕ)
      → o ≤ 64
      → AllBelow base front
      → prev < base
      → AllBelow base xs
      → value base (shifted (2 ^ (u * o)) (2 ^ (u * (64 - o))) prev xs)
        ≡ value base (front ++ prev ∷ xs) / 2 ^ (u * (64 * length front + o)) % base ^ length xs
  value_cut front prev xs o h f k a =
      let p : ℕ = 2 ^ (u * o) in
      let q : ℕ = 2 ^ (u * (64 - o)) in
      let cut =
        value-shifted p q prev xs (one-le-pow (u * o) 2 (omega arith))
          (one-le-pow (u * (64 - o)) 2 (omega arith)) in
      let at_base : value base (shifted p q prev xs)
          ≡ (prev + base * value base xs) / p % base ^ length xs =
        subst
          (λ (b : ℕ).
            prev < b
            → AllBelow b xs
            → value b (shifted p q prev xs) ≡ (prev + b * value b xs) / p % b ^ length xs)
          (base_parts o h) cut k a in
      at_base ∙ sym (ap (λ (t : ℕ). t % base ^ length xs) (value-div front prev xs o f))

  -- A cut between two words.
  pub value_cut_between :
      (front : List ℕ) (prev : ℕ) (xs : List ℕ)
      → AllBelow base front
      → prev < base
      → AllBelow base xs
      → value base xs
        ≡ value base (front ++ prev ∷ xs) / 2 ^ (u * (64 * length front + 64)) % base ^ length xs
  value_cut_between front prev xs f k a =
      let v : ℕ = value base xs in
      let whole : (prev + base * v) / base ≡ v =
        add-mul-div_left prev v base-pos ∙ ap (λ (t : ℕ). t + v) (div-eq_of_lt k) ∙ zero-add v in
      sym (
        ap (λ (t : ℕ). t % base ^ length xs) (value-div front prev xs 64 f ∙ whole)
        ∙ mod-eq_of_lt (value-below base xs a))

-- The bits of a number of ones.
bit_of_ones_below : (l i : ℕ) → i < l → bit (2 ^ l - 1) i ≡ true
bit_of_ones_below l i h =
    let j : ℕ = l - i - 1 in
    let p : ℕ = 2 ^ i in
    let c : ℕ = 2 ^ j in
    let hp : 0 < p = one-le-pow i 2 (omega arith) in
    let hc : 0 < c = one-le-pow j 2 (omega arith) in
    let power : 2 ^ l ≡ p * (c * 2) =
      ap (λ (t : ℕ). 2 ^ t) (omega arith)
      ∙ pow_add 2 i (suc j)
      ∙ ap (λ (t : ℕ). p * t) (pow-suc 2 j) in
    let even : c * 2 ≡ (c * 2 - 1) + 1 = omega arith in
    let split : 2 ^ l - 1 ≡ (p - 1) + p * (c * 2 - 1) =
      omega (arith, power, ap (λ (t : ℕ). p * t) even) in
    let high : (2 ^ l - 1) / p ≡ c * 2 - 1 =
      ap (λ (t : ℕ). t / p) split
      ∙ add-mul-div_left (p - 1) (c * 2 - 1) hp
      ∙ ap (λ (t : ℕ). t + (c * 2 - 1)) (div-eq_of_lt (omega arith))
      ∙ zero-add (c * 2 - 1) in
    let odd : (2 ^ l - 1) / p % 2 ≡ 1 = omega (arith, high) in rw odd refl

bit_of_ones_above : (l i : ℕ) → l ≤ i → bit (2 ^ l - 1) i ≡ false
bit_of_ones_above l i h =
    let small : (2 ^ l - 1) / 2 ^ i ≡ 0 =
      div-eq_of_lt
        (omega (arith, pow-le-pow_right {n = 2} (omega arith) h, one-le-pow l 2 (omega arith))) in
    rw small refl

pub bit_of_ones : (l i : ℕ) → bit (2 ^ l - 1) i ≡ ltb i l
bit_of_ones l i = ground (arith, bit_of_ones_below l i, bit_of_ones_above l i)

pub length-shifted : (p q prev : ℕ) (xs : List ℕ) → length (shifted p q prev xs) ≡ length xs
length-shifted p q prev [] = refl
length-shifted p q prev (x ∷ xs) = ap suc (length-shifted p q x xs)

pub AllBelow-parts :
    (b : ℕ) (xs ys : List ℕ) → AllBelow b (xs ++ ys) → AllBelow b xs × AllBelow b ys
AllBelow-parts b [] ys h = (tt, h)
AllBelow-parts b (x ∷ xs) ys h = let (f, g) = AllBelow-parts b xs ys h.1 in ((h.0, f), g)
