-- ===== src/Prelude/Equality.antt =====
-- Equality tests of keys and identifiers, as an interface that each key type implements.
use Prim.Native.Nat.{ℕ}
use Prim.Native.String.{String}
use mathlib.Core.Path.{◌≡◌}
use mathlib.Core.Logic.{◌↔◌}
use mathlib.Core.Bool.{Bool, true, ◌&&◌}
use native.Mathlib.Omega.{arith}
use text.Mathlib.Text.{◌==◌ as str_eq}
use text.Mathlib.TextEquality.{eq_iff}
use cloudcause.Prelude.Tests.{nat_beq, nat_beq_iff}

pub record Eq {ℓ} (K : Type ℓ) : Type ℓ where
  pub is_same : K → K → Bool
  pub same_iff : (j k : K) → (is_same j k ≡ true) ↔ (j ≡ k)

instance abbrev pub string_eq : Eq String
string_eq = record { is_same = str_eq; same_iff = eq_iff }

instance abbrev pub nat_eq : Eq ℕ
nat_eq = record { is_same = nat_beq; same_iff = nat_beq_iff }

module _ {ℓ κ} {A : Type ℓ} {B : Type κ} ⦃a : Eq A⦄ ⦃b : Eq B⦄ where
  abbrev pair_same : A × B → A × B → Bool
  pair_same x y = a.is_same x.0 y.0 && b.is_same x.1 y.1

  pub pair_same_iff : (x y : A × B) → (pair_same x y ≡ true) ↔ (x ≡ y)
  pair_same_iff (x, x') (y, y') = ground (arith, a.same_iff x y, b.same_iff x' y')

  instance abbrev pub pair_eq : Eq (A × B)
  pair_eq = record { is_same = pair_same; same_iff = pair_same_iff }

-- j == k, for every type with an instance
module _ {ℓ} {K : Type ℓ} ⦃e : Eq K⦄ where
  infix 50 ◌==◌
  abbrev pub ◌==◌ : K → K → Bool
  ◌==◌ = e.is_same
