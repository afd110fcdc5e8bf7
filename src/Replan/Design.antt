-- ===== src/Replan/Design.antt =====
-- The parts of a port plan that the agent's code depends on (loop/replan.py, `DESIGN` and
-- `design_changes`). A Python set is the list of its members; sets are equal when each holds the
-- other's members, and so are dicts for their items.
pub mod Sites
pub mod Statuses
pub mod Same
use paper_to_pipeline.Base.{
  ◌≡◌, ◌↔◌, String, Bool, true, List, [], ◌∷◌, ◌++◌, map, all, contains, if◌then◌else◌, Eq, ◌==◌,
  list_eq, option_eq, some, ◌&&◌, All, In, all_iff, contains_iff, All_mono, append-eq-nil, arith,
  &&_iff, ==_iff,
}
use paper_to_pipeline.Base.Json.{Json, Fields, json_beq, json_beq_lem, json_eq}
use paper_to_pipeline.Revision.Documents.{value, or_dict, list_at, dict_at, Table, find, set_item}

-- One line of the comprehension of `design_changes`.
abbrev pub changed : String → Bool → List String
changed name same = if same then [] else name ∷ []

module _ {A : Type 0} where
  -- `{(x.get(k1), ...) for x in plan.get(name) or []}`
  unfoldable pub sites : String → List String → Fields A → List (List (Json A))
  sites name ks plan = map (λ x. map (λ k. value k (or_dict x)) ks) (list_at name plan)

  unfoldable pub hook_sites : Fields A → List (List (Json A))
  unfolding sites
  hook_sites plan = sites "hook_points" ("file" ∷ "symbol" ∷ "action" ∷ []) plan

  unfoldable pub knob_macros : Fields A → List (List (Json A))
  unfolding sites
  knob_macros plan = sites "knobs" ("macro" ∷ "binding" ∷ []) plan

  unfoldable pub host_knob_sites : Fields A → List (List (Json A))
  unfolding sites
  host_knob_sites plan = sites "host_knobs" ("macro" ∷ "file" ∷ "host_symbol" ∷ []) plan

  unfoldable pub enable : Fields A → List (Json A)
  enable plan =
      let switch = dict_at "feature_enable" plan in
      map (λ k. value k switch) ("name" ∷ "macro" ∷ "binding" ∷ [])

  unfoldable pub structure_choice : Fields A → Json A
  structure_choice plan = value "choice" (dict_at "structure" plan)

module _ {A : Type 0} ⦃e : Eq A⦄ where
  unfoldable pub status_from : Table A (Json A) → List (Json A) → Table A (Json A)
  status_from out [] = out
  status_from out (x ∷ xs) =
      status_from (set_item (value "spec_pointer" (or_dict x)) (value "status" (or_dict x)) out) xs

  unfoldable pub resolution_status : Fields A → Table A (Json A)
  resolution_status plan = status_from [] (list_at "interface_resolutions" plan)

  unfoldable pub set_beq : List (List (Json A)) → List (List (Json A)) → Bool
  set_beq a b = all (contains b) a && all (contains a) b

  unfoldable pub table_beq : Table A (Json A) → Table A (Json A) → Bool
  table_beq a b =
      all (λ row. find row.0 b == some row.1) a && all (λ row. find row.0 a == some row.1) b

  unfoldable pub design_changes : Fields A → Fields A → List String
  design_changes old new =
      changed "structure.choice" (json_beq (structure_choice old) (structure_choice new))
      ++ (changed "hook_points" (set_beq (hook_sites old) (hook_sites new))
          ++ (changed "interface_resolutions.status"
                (table_beq (resolution_status old) (resolution_status new))
              ++ (changed "feature_enable" (enable old == enable new)
                  ++ (changed "knobs" (set_beq (knob_macros old) (knob_macros new))
                      ++ changed "host_knobs"
                          (set_beq (host_knob_sites old) (host_knob_sites new))))))
