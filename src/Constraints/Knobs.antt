-- ===== src/Constraints/Knobs.antt =====
-- Knobs and their legal values (loop/constraints.py, `Knob`, `range_error`, `is_pinned`,
-- `alternate_value`). Why a value is not legal is a value with the parts of the source's sentence.
pub mod Alternate
use paper_to_pipeline.Base.{
  ℕ, ltb, eqb, String, Bool, true, false, Option, none, some, List, [], ◌∷◌, ◌&&◌, ◌||◌, not,
  length, contains, ◌==◌, string_eq, if◌then◌else◌, is_empty,
}
use paper_to_pipeline.Base.Json.{Json, null, bool, num, str, arr, obj, nil, item, end, field}
use paper_to_pipeline.Base.Numbers.{Arith, zero_num}
use paper_to_pipeline.Constraints.Ranges.{Python, Range, choices, interval, parse_range}
use paper_to_pipeline.Base.Text.{has_part}

pub data Origin : Type 0 where
  feature host : Origin

-- One `#define` in the parameters' header.
pub record Knob (A : Type 0) : Type 0 where
  pub macro : String
  pub name : String
  pub type : String
  pub default : Json A
  pub range : String
  pub origin : Origin

pub data RangeError (A : Type 0) : Type 0 where
  not_flag : Json A → RangeError A
  not_index : Json A → (count : ℕ) → RangeError A
  not_choice : Json A → List String → RangeError A
  not_number : Json A → RangeError A
  not_integer : A → RangeError A
  outside : (value lo hi : A) → RangeError A
  not_power : A → RangeError A

abbrev pub is_none : {B : Type 0} → Option B → Bool
is_none none = true
is_none (some _) = false

abbrev pub second_choice : {A : Type 0} → List String → Option (Json A)
second_choice (_ ∷ c ∷ _) = some (str c)
second_choice _ = none

module _ {A : Type 0} ⦃n : Arith A⦄ where
  -- `a <= b`
  abbrev pub leq : A → A → Bool
  leq a b = n.lt a b || n.eq a b

  unfoldable pub index_error : Json A → ℕ → Option A → Option (RangeError A)
  index_error value count none = some (not_index value count)
  index_error value count (some i) =
      if leq zero_num i && n.lt i (n.from_count count) then none else some (not_index value count)

  unfoldable pub parsed_pinned : Option (Range A) → Bool
  parsed_pinned none = false
  parsed_pinned (some (choices cs)) = eqb (length cs) 1
  parsed_pinned (some (interval lo hi mods)) = n.eq lo hi

  -- `bool(d)`
  unfoldable pub truthy : Json A → Bool
  truthy null = false
  truthy (bool b) = b
  truthy (num x) = not (n.eq x zero_num)
  truthy (str s) = not (s == "")
  truthy (arr nil) = false
  truthy (arr (item _ _)) = true
  truthy (obj end) = false
  truthy (obj (field _ _ _)) = true

module _ {A : Type 0} ⦃n : Arith A⦄ (python : Python A) where
  -- The value where it is an `int`, of which a `bool` is one.
  unfoldable pub as_int : Json A → Option A
  as_int (bool b) = some (n.from_count (if b then 1 else 0))
  as_int (num x) = if python.is_int x then some x else none
  as_int _ = none

  unfoldable pub flag_error : Json A → Option (RangeError A)
  flag_error (bool b) = none
  flag_error (num x) =
      if python.is_int x && (n.eq x (n.from_count 0) || n.eq x (n.from_count 1))
      then none
      else some (not_flag (num x))
  flag_error value = some (not_flag value)

  unfoldable pub choice_error : (is_enum : Bool) → Json A → List String → Option (RangeError A)
  unfolding index_error as_int contains
  choice_error true value cs = index_error value (length cs) (as_int value)
  choice_error false value cs =
      if contains cs (python.text_of value) then none else some (not_choice value cs)

  -- `int(value) & (int(value) - 1) == 0`, for a positive integer
  unfoldable pub is_power : A → Bool
  is_power x =
      let i = python.to_int x in
      python.is_integer x
      && n.lt zero_num i
      && n.eq (python.bit_and i (n.sub i (n.from_count 1))) zero_num

  unfoldable pub number_error :
      (is_whole : Bool) (lo hi : A) (power : Bool) → A → Option (RangeError A)
  unfolding is_power
  number_error is_whole lo hi power x =
      if is_whole && not (python.is_integer x)
      then some (not_integer x)
      else if not (leq lo x && leq x hi)
      then some (outside x lo hi)
      else if power && not (is_power x)
      then some (not_power x)
      else none

  unfoldable pub interval_error :
      (is_whole : Bool) (lo hi : A) (power : Bool) → Json A → Option (RangeError A)
  unfolding number_error
  interval_error is_whole lo hi power (num x) = number_error is_whole lo hi power x
  interval_error is_whole lo hi power value = some (not_number value)

  -- What the parsed range says of a value that is no flag.
  unfoldable pub parsed_error : Knob A → Option (Range A) → Json A → Option (RangeError A)
  unfolding choice_error interval_error has_part
  parsed_error knob none value = none
  parsed_error knob (some (choices cs)) value = choice_error (knob.type == "enum") value cs
  parsed_error knob (some (interval lo hi mods)) value =
      interval_error (knob.type == "int") lo hi (has_part "pow2" mods) value

  unfoldable pub range_error : Knob A → Json A → Option (RangeError A)
  unfolding parsed_error flag_error parse_range
  range_error knob value =
      if knob.type == "bool"
      then flag_error value
      else parsed_error knob (parse_range python knob.range) value

  unfoldable pub is_pinned : Knob A → Bool
  unfolding parsed_pinned parse_range
  is_pinned knob =
      if knob.type == "bool" then false else parsed_pinned (parse_range python knob.range)

  -- `candidates`, for a default `d`
  unfoldable pub candidates : (is_whole : Bool) (lo hi : A) (power : Bool) → A → List A
  candidates is_whole lo hi true d =
      (if python.is_int d then python.floor_div d (n.from_count 2) else n.div d (n.from_count 2))
      ∷ python.mul d (n.from_count 2)
      ∷ []
  candidates true lo hi false d = n.sub d (n.from_count 1) ∷ n.add d (n.from_count 1) ∷ []
  candidates false lo hi false d =
      let quarter = n.div (n.sub hi lo) (n.from_count 4) in
      let step = if n.eq quarter zero_num then n.from_count 1 else quarter in
      n.sub d step ∷ n.add d step ∷ []

  -- `c = int(c)`, for an `int` default
  abbrev pub rounded : (d c : A) → A
  rounded d c = if python.is_int d && not (python.is_int c) then python.to_int c else c

  unfoldable pub first_legal : Knob A → (d : A) → List A → Option (Json A)
  unfolding range_error
  first_legal knob d [] = none
  first_legal knob d (c ∷ cs) =
      let rest = first_legal knob d cs in
      if not (n.eq (rounded d c) d) && is_none (range_error knob (num (rounded d c)))
      then some (num (rounded d c))
      else rest

  unfoldable pub parsed_alternate : Knob A → Option (Range A) → Json A → Option (Json A)
  unfolding candidates first_legal has_part
  parsed_alternate knob (some (choices cs)) d =
      if ltb (length cs) 2
      then none
      else if knob.type == "enum"
      then some (num (n.from_count 1))
      else second_choice cs
  parsed_alternate knob (some (interval lo hi mods)) (num d) =
      first_legal knob d (candidates (knob.type == "int") lo hi (has_part "pow2" mods) d)
  parsed_alternate knob _ d = none

  unfoldable pub alternate_value : Knob A → Option (Json A)
  unfolding parsed_alternate truthy parse_range
  alternate_value knob =
      if knob.type == "bool"
      then some (bool (not (truthy knob.default)))
      else parsed_alternate knob (parse_range python knob.range) knob.default
