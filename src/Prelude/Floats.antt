-- ===== src/Prelude/Floats.antt =====
-- Python's `float`: the operations that the source uses, as an interface over the type of numbers,
-- and the facts about finite values that the proofs rely on. Every law holds of IEEE 754 doubles
-- with rounding to nearest (rounding is monotone); associativity and exactness do not hold, and are
-- not assumed. The two zeros, which no operation of the source tells apart, count as one.
use Prim.Native.Nat.{ℕ, ◌<◌, ◌≤◌}
use mathlib.Core.Path.{◌≡◌}
use mathlib.Core.Bool.{Bool, true, false, not}
use mathlib.Core.List.{List}
use cloudcause.Prelude.Tests.{if◌then◌else◌}

pub record FloatOps (Num : Type 0) : Type 0 where
  -- the decimal literal n / 10 ^ k
  pub dec_f : ℕ → ℕ → Num
  pub add_f : Num → Num → Num
  pub sub_f : Num → Num → Num
  pub mul_f : Num → Num → Num
  pub div_f : Num → Num → Num
  pub le_f : Num → Num → Bool
  -- round(x, places)
  pub round_f : ℕ → Num → Num
  -- sum(xs), which may carry a compensation along
  pub sum_f : List Num → Num

module _ {Num : Type 0} ⦃F : FloatOps Num⦄ where
  abbrev pub dec : ℕ → ℕ → Num
  dec = F.dec_f

  infixl 65 ◌⊕◌ ◌⊖◌
  infixl 70 ◌⊗◌ ◌⊘◌
  infix 50 ◌≼◌ ◌≺◌
  abbrev pub ◌⊕◌ : Num → Num → Num
  ◌⊕◌ = F.add_f

  abbrev pub ◌⊖◌ : Num → Num → Num
  ◌⊖◌ = F.sub_f

  abbrev pub ◌⊗◌ : Num → Num → Num
  ◌⊗◌ = F.mul_f

  abbrev pub ◌⊘◌ : Num → Num → Num
  ◌⊘◌ = F.div_f

  abbrev pub ◌≼◌ : Num → Num → Bool
  ◌≼◌ = F.le_f

  -- a < b, the negation of b <= a on finite values
  abbrev pub ◌≺◌ : Num → Num → Bool
  a ≺ b = not (b ≼ a)

  abbrev pub round : ℕ → Num → Num
  round = F.round_f

  abbrev pub sum : List Num → Num
  sum = F.sum_f

  -- Python's min(a, b) keeps the first of two equal values, and so does max(a, b).
  abbrev pub min_f : Num → Num → Num
  min_f a b = if b ≺ a then b else a

  abbrev pub max_f : Num → Num → Num
  max_f a b = if a ≺ b then b else a

  abbrev pub abs_f : Num → Num
  abs_f a = if a ≺ dec 0 0 then dec 0 0 ⊖ a else a

module _ (Num : Type 0) ⦃F : FloatOps Num⦄ where
  pub record FloatLaws : Type 0 where
    pub refl_f : (a : Num) → (a ≼ a) ≡ true
    pub trans_f : (a b c : Num) → (a ≼ b) ≡ true → (b ≼ c) ≡ true → (a ≼ c) ≡ true
    pub total_f : (a b : Num) → (a ≼ b) ≡ false → (b ≼ a) ≡ true
    pub add_nonneg :
        (a b : Num) → (dec 0 0 ≼ a) ≡ true → (dec 0 0 ≼ b) ≡ true → (dec 0 0 ≼ a ⊕ b) ≡ true
    pub mul_nonneg :
        (a b : Num) → (dec 0 0 ≼ a) ≡ true → (dec 0 0 ≼ b) ≡ true → (dec 0 0 ≼ a ⊗ b) ≡ true
    pub sub_nonneg : (a b : Num) → (b ≼ a) ≡ true → (dec 0 0 ≼ a ⊖ b) ≡ true
    pub sub_le : (a b : Num) → (dec 0 0 ≼ b) ≡ true → (a ⊖ b ≼ a) ≡ true
    -- literals with one decimal keep their order
    pub tenths_lt : (n m : ℕ) → n < m → m ≤ 10 → (dec {Num = Num} m 1 ≼ dec n 1) ≡ false
    pub antisym_f : (a b : Num) → (a ≼ b) ≡ true → (b ≼ a) ≡ true → a ≡ b
    pub add_zero : (a : Num) → (a ⊕ dec 0 0) ≡ a
    pub sub_self : (a : Num) → (a ⊖ a) ≡ dec 0 0
    pub zero_mul : (a : Num) → (dec 0 0 ⊗ a) ≡ dec 0 0
