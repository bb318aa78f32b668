-- ===== src/Prelude/Sorting.antt =====
-- Python's `sorted`: a stable sort by a strict comparison of keys, as an insertion sort.
use mathlib.Core.List.{Perm}
use mathlib.Core.List.Perm
use cloudcause.Prelude.Lists.{All}
use cloudcause.Prelude.Tests.{if◌then◌else◌, Bool-cases}
use mathlib.Core.Path.{◌≡◌, refl}
use mathlib.Core.Logic.{inl, inr}
use mathlib.Core.Bool.{Bool, true, false}
use mathlib.Core.List.{List, [], ◌∷◌}
use native.Mathlib.Omega.{arith}

module _ {ℓ} {A : Type ℓ} (lt : A → A → Bool) where
  -- behind everything that is smaller, before its equals, which came later in the input
  insert_by : A → List A → List A
  insert_by x [] = x ∷ []
  insert_by x (y ∷ ys) = if lt y x then y ∷ insert_by x ys else x ∷ y ∷ ys

  unfoldable pub sort_by : List A → List A
  unfolding insert_by
  sort_by [] = []
  sort_by (x ∷ xs) = insert_by x (sort_by xs)

  -- no element is smaller than the one before it
  abbrev pub IsSorted : List A → Type 0
  IsSorted [] = Unit
  IsSorted (x ∷ []) = Unit
  IsSorted (x ∷ y ∷ ys) = (lt y x ≡ false) × IsSorted (y ∷ ys)

  module _ (asym : (a b : A) → lt a b ≡ true → lt b a ≡ false) where
    insert_by-IsSorted : (x : A) (xs : List A) → IsSorted xs → IsSorted (insert_by x xs)
    unfolding insert_by
    insert_by-IsSorted x [] h = tt
    insert_by-IsSorted x (y ∷ []) h = elim (Bool-cases (lt y x)) [
      | inl less ↦ rw less (asym y x less, tt)
      | inr not_less ↦ rw not_less (not_less, tt)
    ]
    insert_by-IsSorted x (y ∷ z ∷ zs) h =
        ground (arith, asym y x, insert_by-IsSorted x (z ∷ zs) h.1)

    pub sort_by-IsSorted : (xs : List A) → IsSorted (sort_by xs)
    unfolding sort_by
    sort_by-IsSorted [] = tt
    sort_by-IsSorted (x ∷ xs) = insert_by-IsSorted x (sort_by xs) (sort_by-IsSorted xs)

  insert_by-Perm : (x : A) (xs : List A) → Perm (insert_by x xs) (x ∷ xs)
  unfolding insert_by
  insert_by-Perm x [] = Perm.refl (x ∷ [])
  insert_by-Perm x (y ∷ ys) = elim (Bool-cases (lt y x)) [
    | inl less ↦ rw less (Perm.trans (Perm.cons y (insert_by-Perm x ys)) (Perm.swap x y ys))
    | inr not_less ↦ rw not_less (Perm.refl (x ∷ y ∷ ys))
  ]

  pub sort_by-Perm : (xs : List A) → Perm (sort_by xs) xs
  unfolding sort_by
  sort_by-Perm [] = Perm.refl []
  sort_by-Perm (x ∷ xs) = Perm.trans (insert_by-Perm x (sort_by xs)) (Perm.cons x (sort_by-Perm xs))

  insert_by-cons : (x : A) (xs : List A) → (y : A) × (ys : List A) × (insert_by x xs ≡ y ∷ ys)
  unfolding insert_by
  insert_by-cons x [] = (x, [], refl)
  insert_by-cons x (y ∷ ys) = elim (Bool-cases (lt y x)) [
    | inl less ↦ (y, insert_by x ys, rw less refl)
    | inr not_less ↦ (x, y ∷ ys, rw not_less refl)
  ]

  -- A sorted list of something is not empty.
  pub sort_by-cons : (x : A) (xs : List A) → (y : A) × (ys : List A) × (sort_by (x ∷ xs) ≡ y ∷ ys)
  unfolding sort_by
  sort_by-cons x xs = insert_by-cons x (sort_by xs)

  insert_by-All {κ} :
      (P : A → Type κ) (x : A) (xs : List A) → P x → All P xs → All P (insert_by x xs)
  unfolding insert_by
  insert_by-All P x [] h k = (h, tt)
  insert_by-All P x (y ∷ ys) h k = elim (Bool-cases (lt y x)) [
    | inl less ↦ rw less (k.0, insert_by-All P x ys h k.1)
    | inr not_less ↦ rw not_less (h, k)
  ]

  -- What all the items have, all the items of the sorted list have.
  pub sort_by-All {κ} : (P : A → Type κ) (xs : List A) → All P xs → All P (sort_by xs)
  unfolding sort_by
  sort_by-All P [] h = tt
  sort_by-All P (x ∷ xs) h = insert_by-All P x (sort_by xs) h.0 (sort_by-All P xs h.1)
