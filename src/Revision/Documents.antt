-- ===== src/Revision/Documents.antt =====
-- How loop/plan_revision.py reads a plan document: `get`, the `or` defaults, `_entries`, and the
-- sorted union of two objects' names. A value of another type than the schema gives reads as the
-- default.
use text.Mathlib.Text.{is_lt}
use Prim.Native.String.{compare}
use paper_to_pipeline.Base.{
  ℕ, zero, suc, String, Bool, true, false, Option, none, some, List, [], ◌∷◌, if◌then◌else◌, ◌==◌,
  Eq, string_eq,
}
use paper_to_pipeline.Base.Json.{
  Json, null, arr, obj, num, Fields, items, get_field, json_beq, json_eq,
}

module _ {A : Type 0} where
  -- `d.get(k)`: a missing name and a `null` are both `None`.
  abbrev pub value : String → Fields A → Json A
  value k d = elim (get_field k d) [ none ↦ null | some v ↦ v ]

  -- `x or []`, for a list or `None`
  abbrev pub or_list : Json A → List (Json A)
  or_list (arr xs) = items xs
  or_list null = []
  or_list _ = []

  -- `x or {}`, for an object or `None`
  abbrev pub or_dict : Json A → Fields A
  or_dict (obj d) = d
  or_dict null = Fields.end
  or_dict _ = Fields.end

  -- `x or 0`, for a number or `None`
  abbrev pub or_zero : A → Json A → Json A
  or_zero z null = num z
  or_zero z x = x

  abbrev pub is_null : Json A → Bool
  is_null null = true
  is_null _ = false

  -- `d.get(k) or []`, `d.get(k) or {}`
  abbrev pub list_at : String → Fields A → List (Json A)
  list_at k d = or_list (value k d)

  abbrev pub dict_at : String → Fields A → Fields A
  dict_at k d = or_dict (value k d)

-- `sorted(set(xs))`, one name at a time
unfoldable pub insert_name : String → List String → List String
insert_name k [] = k ∷ []
insert_name k (j ∷ js) =
    let rest = j ∷ insert_name k js in
    if j == k then j ∷ js else if is_lt (compare k j) then k ∷ j ∷ js else rest

unfoldable pub sorted_set : List String → List String
sorted_set [] = []
sorted_set (k ∷ ks) = insert_name k (sorted_set ks)

-- A `dict` whose keys are JSON values: `json.dumps(key)` stands for the value that it prints.
abbrev pub Table : Type 0 → Type 0 → Type 0
Table A V = List (Json A × V)

module _ {A V : Type 0} ⦃e : Eq A⦄ where
  unfoldable pub find : Json A → Table A V → Option V
  find h [] = none
  find h ((j, d) ∷ t) = if json_beq j h then some d else find h t

  -- `t.setdefault(h, d)`
  unfoldable pub set_default : Json A → V → Table A V → Table A V
  set_default h d [] = (h, d) ∷ []
  set_default h d ((j, c) ∷ t) = if json_beq j h then (j, c) ∷ t else (j, c) ∷ set_default h d t

  -- `t[h] = d`
  unfoldable pub set_item : Json A → V → Table A V → Table A V
  set_item h d [] = (h, d) ∷ []
  set_item h d ((j, c) ∷ t) = if json_beq j h then (j, d) ∷ t else (j, c) ∷ set_item h d t

module _ {A : Type 0} ⦃e : Eq A⦄ where
  -- One round of the loop of `_entries`.
  unfoldable pub add_entry : String → Table A (Fields A) → Json A → Table A (Fields A)
  add_entry key out (obj d) = if is_null (value key d) then out else set_default (value key d) d out
  add_entry key out _ = out

  unfoldable pub entries_from : String → Table A (Fields A) → List (Json A) → Table A (Fields A)
  entries_from key out [] = out
  entries_from key out (x ∷ xs) = entries_from key (add_entry key out x) xs

  unfoldable pub entries : Fields A → String → String → Table A (Fields A)
  entries document name key = entries_from key [] (list_at name document)

  -- `xs.index(d)`: the caller passes a member.
  unfoldable pub index_of : Fields A → List (Json A) → ℕ
  index_of d [] = zero
  index_of d (x ∷ xs) =
      let later = suc (index_of d xs) in if json_beq x (obj d) then zero else later

  -- `by_text` of `_check_rejected_alternatives`: a later entry replaces an earlier one.
  unfoldable pub by_text_from : Table A (Json A) → List (Json A) → Table A (Json A)
  by_text_from out [] = out
  by_text_from out (x ∷ xs) = by_text_from (set_item (value "alternative" (or_dict x)) x out) xs

  unfoldable pub by_text : Fields A → Table A (Json A)
  by_text document =
      by_text_from [] (list_at "rejected_alternatives" (dict_at "structure" document))
