-- ===== src/Prelude/Extremes.antt =====
-- Python's `max(items, key=...)` and `min(items, key=...)`: the first of the items with the largest or the
-- smallest key; `none` where Python raises on an empty sequence.
use Prim.Native.Nat.{ℕ, ◌≤◌}
use mathlib.Core.Option.{Option, none, some}
use mathlib.Core.List.{List, [], ◌∷◌}
use native.Mathlib.Omega.{arith}
use mathlib.Core.Logic.{inl, inr}
use cloudcause.Prelude.Tests.{ltb, if◌then◌else◌, Bool-cases}
use cloudcause.Prelude.Lists.{All}

module _ {ℓ} {A : Type ℓ} (key : A → ℕ) where
  unfoldable pub max_from : A → List A → A
  max_from best [] = best
  max_from best (x ∷ xs) = max_from (if ltb (key best) (key x) then x else best) xs

  abbrev pub max_by : List A → Option A
  max_by [] = none
  max_by (x ∷ xs) = some (max_from x xs)

  unfoldable pub min_from : A → List A → A
  min_from best [] = best
  min_from best (x ∷ xs) = min_from (if ltb (key x) (key best) then x else best) xs

  abbrev pub min_by : List A → Option A
  min_by [] = none
  min_by (x ∷ xs) = some (min_from x xs)

  -- The largest item has every property that all the items have.
  pub max_from-All {κ} :
      (P : A → Type κ) (best : A) (xs : List A) → P best → All P xs → P (max_from best xs)
  unfolding max_from
  max_from-All P best [] h k = h
  max_from-All P best (x ∷ xs) h k = elim (Bool-cases (ltb (key best) (key x))) [
    | inl more ↦ rw more (max_from-All P x xs k.0 k.1)
    | inr less ↦ rw less (max_from-All P best xs h k.1)
  ]

  -- No item has a larger key.
  pub max_from-largest :
      (best : A) (xs : List A)
      → (key best ≤ key (max_from best xs)) × All (λ x. key x ≤ key (max_from best xs)) xs
  unfolding max_from
  max_from-largest best [] = (omega arith, tt)
  max_from-largest best (x ∷ xs) =
      let (up, rest) = max_from-largest (if ltb (key best) (key x) then x else best) xs in
      (ground (arith, up), (ground (arith, up), rest))
