-- ===== src/Constraints/Formulas.antt =====
-- Storage formulas (loop/constraints.py, `evaluate`, `_as_int`, `_log2`): arithmetic over the names
-- of an environment, by recursion on the tree that `ast.parse` gives. A `FormulaError` is a value;
-- other exceptions of Python's operators (an overflow, a call without arguments) are not represented.
use paper_to_pipeline.Base.{
  String, Bool, Option, none, some, List, [], ◌∷◌, ◌&&◌, ◌||◌, not, ◌==◌, string_eq, if◌then◌else◌,
}
use paper_to_pipeline.Base.Dict.{Dict, get}
use paper_to_pipeline.Base.Json.{Json, num}
use paper_to_pipeline.Base.Numbers.{Arith, zero_num, neg}
use paper_to_pipeline.Base.Text.{strip}

-- `_BINOPS`, and an operator that is not in it
pub data BinaryOp : Type 0 where
  add_op sub_op mult_op div_op floor_div_op mod_op pow_op left_shift right_shift : BinaryOp
  other_op : (name : String) → BinaryOp

-- `_UNARY`
pub data UnaryOp : Type 0 where
  negative positive : UnaryOp

-- `_FUNCS`
pub data Function : Type 0 where
  min_of max_of abs_of int_of log2_of ceil_of floor_of : Function

mutual
  pub data Expr (A : Type 0) : Type 0 where
    constant : A → Expr A
    variable : String → Expr A
    unary : UnaryOp → Expr A → Expr A
    binary : BinaryOp → Expr A → Expr A → Expr A
    call : Function → Args A → Expr A
    other_node : (text : String) → Expr A

  pub data Args (A : Type 0) : Type 0 where
    no_args : Args A
    arg : Expr A → Args A → Args A

pub data FormulaError : Type 0 where
  no_parse : (message : String) → FormulaError
  log_of : FormulaError
  needs_integer : (what : String) → FormulaError
  unknown_name : String → FormulaError
  not_number : String → FormulaError
  bad_shift : FormulaError
  bad_exponent : FormulaError
  division_by_zero : FormulaError
  not_allowed : (operator : String) → FormulaError
  not_arithmetic : (text : String) → FormulaError

pub data Result (B : Type 0) : Type 0 where
  fails : FormulaError → Result B
  gives : B → Result B

unfoldable pub and_then : {B C : Type 0} → Result B → (B → Result C) → Result C
and_then (fails e) f = fails e
and_then (gives b) f = f b

-- Python's operators and functions on numbers. `divide` is one of `/`, `//` and `%`, `none` where
-- it raises `ZeroDivisionError`, and so is `power`, for 0 to a negative exponent.
pub record Operators (A : Type 0) : Type 0 where
  pub is_float : A → Bool
  pub is_integer : A → Bool
  pub to_int : A → A
  pub mul : A → A → A
  pub divide : BinaryOp → A → A → Option A
  pub power : A → A → Option A
  pub shift : BinaryOp → A → A → A
  pub log2 : A → A
  pub apply : Function → List A → A

module _ {A : Type 0} ⦃n : Arith A⦄ (python : Operators A) where
  unfoldable pub as_integer : A → (what : String) → Result A
  as_integer value what =
      if python.is_float value
      then (if not (python.is_integer value)
          then fails (needs_integer what)
          else gives (python.to_int value))
      else gives value

  -- `_log2`: an integral logarithm is an `int`.
  unfoldable pub log2_value : A → Result A
  log2_value x =
      if n.lt x zero_num || n.eq x zero_num
      then fails log_of
      else let r = python.log2 x in gives (if python.is_integer r then python.to_int r else r)

  abbrev pub divided : Option A → Result A
  divided none = fails division_by_zero
  divided (some x) = gives x

  unfoldable pub shifted : BinaryOp → A → A → Result A
  shifted op left right =
      if not (
        (n.lt zero_num right || n.eq zero_num right)
        && (n.lt right (n.from_count 64) || n.eq right (n.from_count 64)))
      then fails bad_shift
      else gives (python.shift op left right)

  -- `_BINOPS[type(node.op)](left, right)` with its guards.
  unfoldable pub binary_value : BinaryOp → A → A → Result A
  unfolding shifted as_integer and_then
  binary_value add_op left right = gives (n.add left right)
  binary_value sub_op left right = gives (n.sub left right)
  binary_value mult_op left right = gives (python.mul left right)
  binary_value pow_op left right =
      if n.lt (n.from_count 64) (n.abs right)
      then fails bad_exponent
      else divided (python.power left right)
  binary_value left_shift left right =
      and_then (as_integer left "a shift")
        λ l. and_then (as_integer right "a shift") (shifted left_shift l)
  binary_value right_shift left right =
      and_then (as_integer left "a shift")
        λ l. and_then (as_integer right "a shift") (shifted right_shift l)
  binary_value op left right = divided (python.divide op left right)

  -- `_FUNCS[node.func.id](*args)`
  unfoldable pub call_value : Function → List A → Result A
  unfolding log2_value
  call_value log2_of (x ∷ []) = log2_value x
  call_value f xs = gives (python.apply f xs)

  unfoldable pub variable_value : String → Option (Json A) → Result A
  variable_value name none = fails (unknown_name name)
  variable_value name (some (num x)) = gives x
  variable_value name (some _) = fails (not_number name)

  unfoldable mutual
    unfolding and_then binary_value call_value variable_value

    pub evaluate_expr : Dict (Json A) → Expr A → Result A
    evaluate_expr env (constant x) = gives x
    evaluate_expr env (variable name) = variable_value name (get name env)
    evaluate_expr env (unary negative e) = and_then (evaluate_expr env e) λ x. gives (neg x)
    evaluate_expr env (unary positive e) = evaluate_expr env e
    evaluate_expr env (binary (other_op name) l r) = fails (not_allowed name)
    evaluate_expr env (binary op l r) =
        and_then (evaluate_expr env l) λ x. and_then (evaluate_expr env r) (binary_value op x)
    evaluate_expr env (call f args) = and_then (evaluate_args env args) (call_value f)
    evaluate_expr env (other_node text) = fails (not_arithmetic text)

    pub evaluate_args : Dict (Json A) → Args A → Result (List A)
    evaluate_args env no_args = gives []
    evaluate_args env (arg e args) =
        and_then (evaluate_expr env e) λ x. and_then (evaluate_args env args) λ xs. gives (x ∷ xs)

  -- `ast.parse` is a parameter; the source's own test of an empty text comes first.
  unfoldable pub evaluate : (parse : String → Result (Expr A)) → String → Dict (Json A) → Result A
  unfolding evaluate_expr and_then
  evaluate parse text env =
      if strip text == ""
      then fails (no_parse "empty formula")
      else and_then (parse (strip text)) (evaluate_expr env)
