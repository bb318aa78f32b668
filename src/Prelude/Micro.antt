-- ===== src/Prelude/Micro.antt =====
-- Numbers in millionths, an implementation of the interface of `Floats` on which the model runs:
-- sums are exact, products and quotients are cut off towards zero, and so is `round`.
use cloudcause.Prelude.Tests.{leb, if◌then◌else◌}
use cloudcause.Prelude.Floats.{FloatOps, FloatLaws}
use Prim.Native.Nat.{ℕ, suc, ◌+◌, ◌-◌, ◌*◌, ◌/◌, ◌^◌}
use mathlib.Core.List.{foldl}
use native.Mathlib.Omega.{arith}

-- `negsuc n` is -(n + 1) millionths.
pub data Micro : Type 0 where
  pos : ℕ → Micro
  negsuc : ℕ → Micro

abbrev pub pos_part : Micro → ℕ
pos_part (pos n) = n
pos_part (negsuc n) = 0

abbrev pub neg_part : Micro → ℕ
neg_part (pos n) = 0
neg_part (negsuc n) = suc n

abbrev sub_ℕ : ℕ → ℕ → Micro
sub_ℕ a b = if leb b a then pos (a - b) else negsuc (b - a - 1)

abbrev neg : ℕ → Micro
neg n = sub_ℕ 0 n

abbrev add : Micro → Micro → Micro
add a b = sub_ℕ (pos_part a + pos_part b) (neg_part a + neg_part b)

abbrev mul : Micro → Micro → Micro
mul (pos a) (pos b) = pos (a * b / 1_000_000)
mul (pos a) (negsuc b) = neg (a * suc b / 1_000_000)
mul (negsuc a) (pos b) = neg (suc a * b / 1_000_000)
mul (negsuc a) (negsuc b) = pos (suc a * suc b / 1_000_000)

abbrev div : Micro → Micro → Micro
div (pos a) (pos b) = pos (a * 1_000_000 / b)
div (pos a) (negsuc b) = neg (a * 1_000_000 / suc b)
div (negsuc a) (pos b) = neg (suc a * 1_000_000 / b)
div (negsuc a) (negsuc b) = pos (suc a * 1_000_000 / suc b)

abbrev cut : ℕ → Micro → Micro
cut k (pos a) = pos (a / 10 ^ (6 - k) * 10 ^ (6 - k))
cut k (negsuc a) = neg (suc a / 10 ^ (6 - k) * 10 ^ (6 - k))

instance abbrev pub micro_ops : FloatOps Micro
micro_ops = record {
  dec_f = λ n k. pos (n * 10 ^ (6 - k));
  add_f = add;
  sub_f = λ a b. sub_ℕ (pos_part a + neg_part b) (neg_part a + pos_part b);
  mul_f = mul;
  div_f = div;
  le_f = λ a b. leb (pos_part a + neg_part b) (pos_part b + neg_part a);
  round_f = cut;
  sum_f = foldl add (pos 0);
}

pub micro_laws : FloatLaws Micro
micro_laws = record {
  refl_f = λ a. ground arith;
  trans_f = λ a b c h k. ground arith;
  total_f = λ a b h. ground arith;
  add_nonneg = λ a b h k. ground arith;
  mul_nonneg = λ a b h k. ground arith;
  sub_nonneg = λ a b h. ground arith;
  sub_le = λ a b h. ground arith;
  tenths_lt = λ n m h k. ground arith;
  antisym_f = λ a b h k. ground arith;
  add_zero = λ a. ground arith;
  sub_self = λ a. ground arith;
  zero_mul = λ a. ground arith;
}
