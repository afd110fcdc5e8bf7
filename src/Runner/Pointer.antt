-- ===== src/Runner/Pointer.antt =====
-- Where a recorded baseline stands in its document (loop/plan_runner.py, `_resolve`). The digits of
-- an index are ASCII.
use Prim.Native.Char.{Char, code}
use paper_to_pipeline.Base.{
  ℕ, zero, suc, ◌+◌, ◌*◌, ◌-◌, String, Option, none, some, List, [], ◌∷◌, ◌&&◌, leb, eqb,
  if◌then◌else◌,
}
use paper_to_pipeline.Base.Text.{replace}
use paper_to_pipeline.Base.Dict.{Dict}
use paper_to_pipeline.Base.Json.{
  Json, null, num, arr, obj, Items, nil, item, Fields, end, field, get_field,
}

-- `s.lstrip("/")`
unfoldable pub strip_slashes : String → String
strip_slashes String.[] = String.[]
strip_slashes (String.◌∷◌ c s) = if eqb (code c) b'/' then strip_slashes s else String.◌∷◌ c s

-- A character in front of the first piece.
abbrev join_first : Char → List String → List String
join_first c [] = String.◌∷◌ c String.[] ∷ []
join_first c (p ∷ ps) = String.◌∷◌ c p ∷ ps

-- `s.split("/")`
unfoldable pub split_slash : String → List String
split_slash String.[] = String.[] ∷ []
split_slash (String.◌∷◌ c s) =
    let rest = split_slash s in if eqb (code c) b'/' then String.[] ∷ rest else join_first c rest

unfoldable pub unescape : String → String
unescape raw = replace "~0" "~" (replace "~1" "/" raw)

-- `int(s)` where `s.isdigit()`
unfoldable pub read_digits : ℕ → String → Option ℕ
read_digits n String.[] = some n
read_digits n (String.◌∷◌ c s) =
    if leb b'0' (code c) && leb (code c) b'9'
    then read_digits (n * 10 + (code c - b'0')) s
    else none

unfoldable pub read_index : String → Option ℕ
unfolding read_digits
read_index String.[] = none
read_index (String.◌∷◌ c s) = read_digits 0 (String.◌∷◌ c s)

unfoldable pub item_at : {A : Type 0} → ℕ → Items A → Option (Json A)
item_at n nil = none
item_at zero (item x xs) = some x
item_at (suc n) (item x xs) = item_at n xs

module _ {A : Type 0} where
  -- One token of the pointer; `none` is the `return None`.
  unfoldable pub descend : Json A → String → Option (Json A)
  unfolding read_index item_at
  descend (arr xs) token = elim (read_index token) [ none ↦ none | some n ↦ item_at n xs ]
  descend (obj d) token = get_field token d
  descend _ token = none

  unfoldable pub walk : Json A → List String → Json A
  unfolding unescape
  walk node [] = node
  walk node (raw ∷ rest) = elim raw [
    | String.[] ↦ walk node rest
    | String.◌∷◌ c s ↦ elim (descend node (unescape (String.◌∷◌ c s))) [
      | none ↦ null
      | some next ↦ walk next rest
    ]
  ]

  unfoldable pub resolve : Json A → String → Json A
  unfolding walk split_slash strip_slashes
  resolve document pointer = walk document (split_slash (strip_slashes pointer))

  -- The metrics of a recorded object: its numbers. `None` and a missing metric are one, and a
  -- declared metric is never a nested document.
  unfoldable pub metrics_of : Fields A → Dict A
  metrics_of end = []
  metrics_of (field k (num x) d) = (k, x) ∷ metrics_of d
  metrics_of (field k _ d) = metrics_of d
