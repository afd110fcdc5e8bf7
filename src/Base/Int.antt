-- ===== src/Base/Int.antt =====
-- Integers as an instance of the arithmetic interface: the numbers of the tests, at which the laws
-- of the interface hold. The quotient drops its fraction.
use Prim.Native.Nat.{ℕ, suc, ◌+◌, ◌-◌, ◌/◌}
use mathlib.Core.Path.{◌≡◌, refl}
use mathlib.Core.Logic.{◌↔◌}
use mathlib.Core.Bool.{Bool, true}
use native.Mathlib.Omega.{arith}
use paper_to_pipeline.Base.Tests.{ltb, leb, eqb, if◌then◌else◌}
use paper_to_pipeline.Base.Equality.{Eq}
use paper_to_pipeline.Base.Numbers.{Arith, SignLaws, FiniteLaws, OrderLaws}

-- `negsuc n` is -(n + 1).
pub data ℤ : Type 0 where
  pos : ℕ → ℤ
  negsuc : ℕ → ℤ

abbrev pub pos_part : ℤ → ℕ
pos_part (pos n) = n
pos_part (negsuc _) = 0

abbrev pub neg_part : ℤ → ℕ
neg_part (pos _) = 0
neg_part (negsuc n) = suc n

-- a - b, as an integer
abbrev pub sub_ℕ : ℕ → ℕ → ℤ
sub_ℕ a b = if leb b a then pos (a - b) else negsuc (b - a - 1)

infixl 65 ◌+ℤ◌ ◌-ℤ◌
abbrev pub ◌+ℤ◌ : ℤ → ℤ → ℤ
a +ℤ b = sub_ℕ (pos_part a + pos_part b) (neg_part a + neg_part b)

abbrev pub ◌-ℤ◌ : ℤ → ℤ → ℤ
a -ℤ b = sub_ℕ (pos_part a + neg_part b) (neg_part a + pos_part b)

abbrev pub abs_ℤ : ℤ → ℤ
abs_ℤ a = pos (pos_part a + neg_part a)

abbrev pub div_ℤ : ℤ → ℤ → ℤ
div_ℤ a b = sub_ℕ (pos_part a / pos_part b) (neg_part a / pos_part b)

abbrev pub ltb_ℤ : ℤ → ℤ → Bool
ltb_ℤ a b = ltb (pos_part a + neg_part b) (pos_part b + neg_part a)

abbrev pub eqb_ℤ : ℤ → ℤ → Bool
eqb_ℤ a b = eqb (pos_part a + neg_part b) (pos_part b + neg_part a)

pub eqb_ℤ_iff : (a b : ℤ) → (eqb_ℤ a b ≡ true) ↔ (a ≡ b)
eqb_ℤ_iff a b = ground arith

instance abbrev pub int_eq : Eq ℤ
int_eq = record { beq = eqb_ℤ; decides = eqb_ℤ_iff }

instance abbrev pub int_arith : Arith ℤ
int_arith = record {
  from_count = pos;
  add = ◌+ℤ◌;
  sub = ◌-ℤ◌;
  div = div_ℤ;
  abs = abs_ℤ;
  lt = ltb_ℤ;
  eq = eqb_ℤ;
}

div_zero : (a : ℕ) → 0 / a ≡ 0
div_zero a = grind arith

pub int_signs : SignLaws ℤ int_arith
int_signs = record {
  sub_pos = λ x y h. ground arith;
  div_pos = λ x y h. ground (arith, div_zero (pos_part y + neg_part y));
  above_floor = λ x y h k. ground arith;
}

pub int_finite : FiniteLaws ℤ int_arith (λ _. Unit)
int_finite = record {
  sub_self = λ x _. ground arith;
  abs_zero = refl;
  zero_div = λ x _ h. ground (arith, div_zero (pos_part x + neg_part x));
}

pub int_order : OrderLaws ℤ int_arith
int_order = record {
  less_asym = λ a b h. ground (arith, h);
  equal_not_less = λ a b h. ground (arith, h);
  equal_sym = λ a b h. ground (arith, h);
  not_less_trans = λ a b c h k. ground (arith, h, k);
}
