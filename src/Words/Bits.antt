-- ===== src/Words/Bits.antt =====
-- `ap_uint` ranges: `x(hi, lo)` as a value and as the target of an assignment, and a word made of
-- fields.
use tcp_offload_engine_shell.Prelude.{
  ℕ, suc, ◌+◌, ◌-◌, ◌*◌, ◌/◌, ◌%◌, ◌^◌, ◌==◌, ◌≡◌, ◌≤◌, ◌<◌, sym, ap, ◌∙◌, ◌&&◌, ◌||◌, Option, none,
  some, List, [], ◌∷◌, ltb, All, inl, inr, Bool-cases, if◌then◌else◌, arith,
}
use native.Mathlib.Nat.{
  add-mul-div_left, add-mul-mod_self_left, div-add-mod, mod-eq_of_lt, mod-lt, div-eq_of_lt,
  div-div-eq-div-mul, one-le-pow, zero-add,
}
use tcp_offload_engine_shell.Words.Values.{pow_add}

-- `x(hi, lo)`.
abbrev pub get : ℕ → ℕ → ℕ → ℕ
get hi lo x = x / 2 ^ lo % 2 ^ (suc hi - lo)

-- `x(hi, lo) = v`.
abbrev pub set : ℕ → ℕ → ℕ → ℕ → ℕ
set hi lo v x = x % 2 ^ lo + 2 ^ lo * (v % 2 ^ (suc hi - lo) + 2 ^ (suc hi - lo) * (x / 2 ^ suc hi))

-- Assignments to ranges, the first one first.
unfoldable pub build : List (ℕ × ℕ × ℕ) → ℕ → ℕ
build [] x = x
build ((hi, lo, v) ∷ fs) x = build fs (set hi lo v x)

-- What the assignments leave in a range, as far as no assignment hits only a part of it.
abbrev pub found : ℕ → ℕ → List (ℕ × ℕ × ℕ) → Option ℕ → Option ℕ
found hi lo [] a = a
found hi lo ((h, l, v) ∷ fs) a = found hi lo fs (
    if h == hi && l == lo
    then some (v % 2 ^ (suc hi - lo))
    else if ltb h lo || ltb hi l
    then a
    else none)

module _ (p w x v h : ℕ) (hp : 0 < p) (hw : 0 < w) where
  get_middle : (x % p + p * (v % w + w * h)) / p % w ≡ v % w
  get_middle =
      ap (λ (t : ℕ). t % w)
        (add-mul-div_left (x % p) (v % w + w * h) hp
          ∙ ap (λ (t : ℕ). t + (v % w + w * h)) (div-eq_of_lt (mod-lt x hp))
          ∙ zero-add (v % w + w * h))
      ∙ add-mul-mod_self_left (v % w) w h
      ∙ mod-eq_of_lt (mod-lt v hw)

  get_above : (x % p + p * (v % w + w * h)) / (p * w) ≡ h
  get_above =
      sym (div-div-eq-div-mul (x % p + p * (v % w + w * h)) p w)
      ∙ ap (λ (t : ℕ). t / w)
          (add-mul-div_left (x % p) (v % w + w * h) hp
            ∙ ap (λ (t : ℕ). t + (v % w + w * h)) (div-eq_of_lt (mod-lt x hp))
            ∙ zero-add (v % w + w * h))
      ∙ add-mul-div_left (v % w) h hw
      ∙ ap (λ (t : ℕ). t + h) (div-eq_of_lt (mod-lt v hw))
      ∙ zero-add h

get-set_self : (hi lo v x : ℕ) → get hi lo (set hi lo v x) ≡ v % 2 ^ (suc hi - lo)
get-set_self hi lo v x =
    get_middle (2 ^ lo) (2 ^ (suc hi - lo)) x v (x / 2 ^ suc hi) (one-le-pow lo 2 (omega arith))
      (one-le-pow (suc hi - lo) 2 (omega arith))

power : (m n : ℕ) → m ≤ n → 2 ^ n ≡ 2 ^ m * 2 ^ (n - m)
power m n h = ap (λ (t : ℕ). 2 ^ t) (omega arith) ∙ pow_add 2 m (n - m)

get-set_above : (hi lo h l v x : ℕ) → l ≤ suc h → h < lo → get hi lo (set h l v x) ≡ get hi lo x
get-set_above hi lo h l v x o b =
    let y : ℕ = set h l v x in
    let low : ℕ = 2 ^ suc h in
    let high : ℕ = 2 ^ (lo - suc h) in
    let same : y / low ≡ x / low =
      ap (λ (t : ℕ). y / t) (power l (suc h) o)
      ∙ get_above (2 ^ l) (2 ^ (suc h - l)) x v (x / low) (one-le-pow l 2 (omega arith))
          (one-le-pow (suc h - l) 2 (omega arith)) in
    let split : 2 ^ lo ≡ low * high = power (suc h) lo b in
    ap (λ (t : ℕ). t % 2 ^ (suc hi - lo))
      (ap (λ (t : ℕ). y / t) split
        ∙ sym (div-div-eq-div-mul y low high)
        ∙ ap (λ (t : ℕ). t / high) same
        ∙ div-div-eq-div-mul x low high
        ∙ ap (λ (t : ℕ). x / t) (sym split))

-- The bits below 2 ^ l do not depend on those above.
get_low : (hi lo l a y : ℕ) → lo ≤ suc hi → hi < l → get hi lo (a + 2 ^ l * y) ≡ get hi lo a
get_low hi lo l a y o b =
    let p : ℕ = 2 ^ lo in
    let w : ℕ = 2 ^ (suc hi - lo) in
    let d : ℕ = 2 ^ (l - suc hi) in
    let hp : 0 < p = one-le-pow lo 2 (omega arith) in
    let split : 2 ^ l * y ≡ p * (w * (d * y)) = omega (
      arith,
      ap (λ (t : ℕ). t * y) (power (suc hi) l b),
      ap (λ (t : ℕ). t * (d * y)) (power lo (suc hi) o),
    ) in
    ap (λ (t : ℕ). (a + t) / p % w) split
    ∙ ap (λ (t : ℕ). t % w) (add-mul-div_left a (w * (d * y)) hp)
    ∙ add-mul-mod_self_left (a / p) w (d * y)

get-set_below : (hi lo h l v x : ℕ) → lo ≤ suc hi → hi < l → get hi lo (set h l v x) ≡ get hi lo x
get-set_below hi lo h l v x o b =
    get_low hi lo l (x % 2 ^ l) (v % 2 ^ (suc h - l) + 2 ^ (suc h - l) * (x / 2 ^ suc h)) o b
    ∙ sym (get_low hi lo l (x % 2 ^ l) (x / 2 ^ l) o b)
    ∙ ap (get hi lo) (omega (arith, div-add-mod x (2 ^ l)))

assigned :
    (hi lo h l v x : ℕ) (a : Option ℕ)
    → lo ≤ suc hi
    → l ≤ suc h
    → ((u : ℕ) → a ≡ some u → get hi lo x ≡ u)
    → (u : ℕ)
    → (if h == hi && l == lo
        then some (v % 2 ^ (suc hi - lo))
        else if ltb h lo || ltb hi l
        then a
        else none)
      ≡ some u
    → get hi lo (set h l v x) ≡ u
assigned hi lo h l v x a o p k u e = elim (Bool-cases (h == hi && l == lo)) [
  | inl same ↦
      let here : (h ≡ hi) × (l ≡ lo) = ground arith in
      let value : v % 2 ^ (suc hi - lo) ≡ u = ground arith in
      rw (here.0, here.1) (get-set_self hi lo v x ∙ value)
  | inr other ↦
      let rest : (if ltb h lo || ltb hi l then a else none) ≡ some u = ground arith in
      elim (Bool-cases (ltb h lo)) [
        | inl above ↦ get-set_above hi lo h l v x p (ground arith) ∙ k u (ground arith)
        | inr not_above ↦ elim (Bool-cases (ltb hi l)) [
          | inl below ↦ get-set_below hi lo h l v x o (ground arith) ∙ k u (ground arith)
          | inr over ↦ absurd (ground arith)
        ]
      ]
]

-- The assignments to a range are found again in the word.
pub get-build :
    (hi lo : ℕ) (fs : List (ℕ × ℕ × ℕ)) (x v : ℕ) (a : Option ℕ)
    → lo ≤ suc hi
    → ((u : ℕ) → a ≡ some u → get hi lo x ≡ u)
    → All (λ f. f.1 ≤ suc f.0) fs
    → found hi lo fs a ≡ some v
    → get hi lo (build fs x) ≡ v
unfolding build
get-build hi lo [] x v a o k w e = k v e
get-build hi lo ((h, l, u) ∷ fs) x v a o k w e =
    get-build hi lo fs (set h l u x) v
      (if h == hi && l == lo
        then some (u % 2 ^ (suc hi - lo))
        else if ltb h lo || ltb hi l
        then a
        else none)
      o (assigned hi lo h l u x a o w.0 k) w.1 e

get_zero : (hi lo : ℕ) → get hi lo 0 ≡ 0
get_zero hi lo =
    ap (λ (t : ℕ). t % 2 ^ (suc hi - lo)) (div-eq_of_lt (one-le-pow lo 2 (omega arith)))
    ∙ mod-eq_of_lt (one-le-pow (suc hi - lo) 2 (omega arith))

-- The same for a word that was 0.
pub field :
    (hi lo : ℕ) (fs : List (ℕ × ℕ × ℕ)) (v : ℕ)
    → lo ≤ suc hi
    → All (λ f. f.1 ≤ suc f.0) fs
    → found hi lo fs (some 0) ≡ some v
    → get hi lo (build fs 0) ≡ v
field hi lo fs v o w e =
    get-build hi lo fs 0 v (some 0) o (λ u h. ground (arith, get_zero hi lo)) w e
