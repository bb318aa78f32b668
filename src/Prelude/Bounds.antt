-- ===== src/Prelude/Bounds.antt =====
-- What min, max and the order of finite floats give, from the laws of `Floats`.
use mathlib.Core.Path.{◌≡◌}
use mathlib.Core.Bool.{true}
use native.Mathlib.Omega.{arith}
use cloudcause.Prelude.Floats.{FloatOps, FloatLaws, ◌≼◌, min_f, max_f}

module _ {Num : Type 0} ⦃F : FloatOps Num⦄ (L : FloatLaws Num) where
  pub min_f-le_left : (a b : Num) → (min_f a b ≼ a) ≡ true
  min_f-le_left a b = ground (arith, L.refl_f a, L.total_f a b)

  pub min_f-le_right : (a b : Num) → (min_f a b ≼ b) ≡ true
  min_f-le_right a b = ground (arith, L.refl_f b)

  pub le-min_f : (c a b : Num) → (c ≼ a) ≡ true → (c ≼ b) ≡ true → (c ≼ min_f a b) ≡ true
  le-min_f c a b h k = ground arith

  pub le-max_f_left : (a b : Num) → (a ≼ max_f a b) ≡ true
  le-max_f_left a b = ground (arith, L.refl_f a, L.total_f b a)

  pub le-max_f_right : (a b : Num) → (b ≼ max_f a b) ≡ true
  le-max_f_right a b = ground (arith, L.refl_f b)
