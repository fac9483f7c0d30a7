-- ===== src/Prelude/Streams.antt =====
-- What the modules of hls/toe share: the streams (FIFOs) between processes and the tables in
-- memory. A stream is the list of the items that wait in it, the oldest first.
use Prim.Native.Nat.{ℕ, zero, suc, ◌+◌}
use mathlib.Core.Path.{◌≡◌, refl, ap}
use mathlib.Core.Bool.{Bool, true, false}
use mathlib.Core.Option.{Option, none, some}
use mathlib.Core.List.{List, [], ◌∷◌, ◌++◌, map}
use native.Mathlib.Omega.{arith}
use native.Mathlib.Nat.{zero-add, suc-add}
use tcp_offload_engine_shell.Prelude.Tests.{◌==◌, if◌then◌else◌}

-- `if (!s.empty() && ready) s.read(x)`: the oldest item and the rest of the stream.
abbrev pub read_if {ℓ} : {A : Type ℓ} → Bool → List A → Option (A × List A)
read_if true (x ∷ xs) = some (x, xs)
read_if _ _ = none

abbrev pub read {ℓ} : {A : Type ℓ} → List A → Option (A × List A)
read [] = none
read (x ∷ xs) = some (x, xs)

abbrev pub is_empty {ℓ} : {A : Type ℓ} → List A → Bool
is_empty [] = true
is_empty (x ∷ xs) = false

-- Every item of a list has the property.
abbrev pub All {ℓ κ} : {A : Type ℓ} → (A → Type κ) → List A → Type κ
All P [] = Unit
All P (x ∷ xs) = P x × All P xs

-- A static array, by its index. `update t i v` is `t[i] = v`.
abbrev pub update {ℓ} : {A : Type ℓ} → (ℕ → A) → ℕ → A → ℕ → A
update t i v j = if i == j then v else t j

module _ {ℓ} {A : Type ℓ} where
  abbrev pub length : List A → ℕ
  length [] = 0
  length (x ∷ xs) = suc (length xs)

  pub length-append : (xs ys : List A) → length (xs ++ ys) ≡ length xs + length ys
  length-append [] ys = omega arith
  length-append (x ∷ xs) ys = omega (arith, length-append xs ys)

pub length-map {ℓ κ} :
    {A : Type ℓ} {B : Type κ} (f : A → B) (xs : List A) → length (map f xs) ≡ length xs
length-map f [] = refl
length-map f (x ∷ xs) = ap suc (length-map f xs)

-- `n` calls of a process: its variables, what each call writes, and the streams.
module _ {R O I : Type 0} (step : R → I → R × O × I) where
  unfoldable pub calls : ℕ → R → I → R × List O × I
  calls zero r i = (r, [], i)
  calls (suc n) r i =
      let (r', o, i') = step r i in let (r'', os, i'') = calls n r' i' in (r'', o ∷ os, i'')

  pub calls-zero : (r : R) (i : I) → calls 0 r i ≡ (r, [], i)
  unfolding calls
  calls-zero r i = refl

  -- One call whose result is known, and then `n` more.
  pub calls-suc :
      (n : ℕ) (r r' : R) (i i' : I) (o : O)
      → step r i ≡ (r', o, i')
      → calls (suc n) r i ≡ (let (r'', os, i'') = calls n r' i' in (r'', o ∷ os, i''))
  unfolding calls
  calls-suc n r r' i i' o h =
      ap (λ (x : R × O × I). let (r'', os, i'') = calls n x.0 x.2 in (r'', x.1 ∷ os, i'')) h

  -- First `m` calls and then `n`.
  abbrev pub then_calls : ℕ → R × List O × I → R × List O × I
  then_calls n (r, os, i) = let (r', os', i') = calls n r i in (r', os ++ os', i')

  pub calls-add : (m n : ℕ) (r : R) (i : I) → calls (m + n) r i ≡ then_calls n (calls m r i)
  unfolding calls
  calls-add zero n r i = rw (zero-add n) refl
  calls-add (suc m) n r i =
      let (r', o, i') = step r i in
      rw (suc-add m n) (ap (λ (x : R × List O × I). (x.0, o ∷ x.1, x.2)) (calls-add m n r' i'))
