-- ===== src/Base/Numbers.antt =====
-- Python's arithmetic on `float` and `int` values, as an interface: the operations that the
-- sources call, and what is used of them.
use Prim.Native.Nat.{ℕ}
use mathlib.Core.Path.{◌≡◌}
use mathlib.Core.Bool.{Bool, true, false}

pub record Arith (A : Type 0) : Type 0 where
  pub from_count : ℕ → A
  pub add : A → A → A
  pub sub : A → A → A
  pub div : A → A → A
  pub abs : A → A
  pub lt : A → A → Bool
  pub eq : A → A → Bool

-- `0`
abbrev pub zero_num : {A : Type 0} ⦃n : Arith A⦄ → A
zero_num ⦃n⦄ = n.from_count 0

-- `-x`
abbrev pub neg : {A : Type 0} ⦃n : Arith A⦄ → A → A
neg ⦃n⦄ x = n.sub (n.from_count 0) x

-- What IEEE 754 gives for all values, NaN and the infinities included: a positive difference or
-- quotient shows an order.
pub record SignLaws (A : Type 0) (n : Arith A) : Type 0 where
  pub sub_pos : (x y : A) → n.lt (n.from_count 0) (n.sub x y) ≡ true → n.lt y x ≡ true
  pub div_pos :
      (x y : A) → n.lt (n.from_count 0) (n.div x (n.abs y)) ≡ true → n.lt (n.from_count 0) x ≡ true
  pub above_floor :
      (x y : A) → n.lt x (n.from_count 0) ≡ false → n.lt x y ≡ true → n.lt (n.from_count 0) y ≡ true

-- What IEEE 754 gives for the finite values.
pub record FiniteLaws (A : Type 0) (n : Arith A) (IsFinite : A → Type 0) : Type 0 where
  pub sub_self : (x : A) → IsFinite x → n.sub x x ≡ n.from_count 0
  pub abs_zero : n.abs (n.from_count 0) ≡ n.from_count 0
  pub zero_div :
      (x : A)
      → IsFinite x
      → n.eq x (n.from_count 0) ≡ false
      → n.div (n.from_count 0) (n.abs x) ≡ n.from_count 0

-- The order of the finite values in IEEE 754.
pub record OrderLaws (A : Type 0) (n : Arith A) : Type 0 where
  pub less_asym : (a b : A) → n.lt a b ≡ true → n.lt b a ≡ false
  pub equal_not_less : (a b : A) → n.eq a b ≡ true → n.lt a b ≡ false
  pub equal_sym : (a b : A) → n.eq a b ≡ true → n.eq b a ≡ true
  pub not_less_trans : (a b c : A) → n.lt b a ≡ false → n.lt c b ≡ false → n.lt c a ≡ false
