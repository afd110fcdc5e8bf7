-- ===== src/Replan/Tests.antt =====
-- A driver that escalates, and the loop's theorems at it.
use paper_to_pipeline.Base.{
  ℕ, suc, ◌≡◌, refl, ◌↔◌, String, none, some, [], ◌∷◌, ltb, if◌then◌else◌, string_eq, contains,
  length, list_beq,
}
use paper_to_pipeline.Base.Json.{
  str, arr, obj, nil, item, Fields, end, field, json_beq, items_beq, fields_beq,
}
use paper_to_pipeline.Base.Int.{ℤ, int_eq}
use paper_to_pipeline.Replan.{
  raised, pair, Driver, count_replans, run_rounds, integrate_with_replans,
}
use paper_to_pipeline.Replan.Design.{
  sites, hook_sites, knob_macros, host_knob_sites, enable, structure_choice, status_from,
  resolution_status, set_beq, table_beq, design_changes,
}
use paper_to_pipeline.Replan.Design.Same.{SameDesign, design_changes-SameDesign}
use paper_to_pipeline.Replan.Recorded.{IsRun, integrate_with_replans-IsRun}
use paper_to_pipeline.Replan.Rounds.{Stops, integrate_with_replans-Stops}

hooked : String → String → Fields ℤ
hooked file change =
    field "hook_points"
      (arr (item (obj (field "change" (str change) (field "file" (str file) end))) nil)) end

design_opened : Unit {0}
unfolding hooked sites hook_sites knob_macros host_knob_sites enable structure_choice status_from
    resolution_status set_beq table_beq design_changes json_beq items_beq fields_beq contains
    list_beq
design_opened = tt

design_changes-moved : design_changes (hooked "a.h" "add") (hooked "b.h" "add") ≡ "hook_points" ∷ []
unfolding design_opened
design_changes-moved = refl

design_changes-reworded : design_changes (hooked "a.h" "add") (hooked "a.h" "insert") ≡ []
unfolding design_opened
design_changes-reworded = refl

design_changes-SameDesign_example :
    (design_changes (hooked "a.h" "add") (hooked "a.h" "insert") ≡ [])
    ↔ SameDesign (hooked "a.h" "add") (hooked "a.h" "insert")
design_changes-SameDesign_example =
    design_changes-SameDesign (hooked "a.h" "add") (hooked "a.h" "insert")

abbrev empty : Fields ℤ
empty = end

-- Stage 3 escalates `n` times before it passes. The world counts the calls of stage 2, which gives a
-- plan with other hook points first, the same again then, and fails from the third call on.
abbrev escalating : ℕ → Driver ℕ ℤ String Unit
escalating n = record {
  child = λ root k. root;
  integrate = λ prefix port tests fresh calls. (
    record {
      status = if ltb calls n then "needs_replan" else "passed";
      attempts = some 1;
      escalation = none;
      replan_error = none;
      body = tt;
    },
    calls,
  );
  plan = λ prefix calls.
      (if ltb calls 2 then pair (hooked "a.h" "add") empty else raised "refused", suc calls);
  save_port = none;
}

opened : Unit {0}
unfolding design_opened integrate_with_replans run_rounds count_replans
opened = tt

passes_after_two :
    let out = (integrate_with_replans (escalating 2) 5 "p_" empty empty 0).0 in
    (out.result.status ≡ "passed") × (out.replans ≡ 2) × (length out.rounds ≡ 3)
unfolding opened
passes_after_two = (refl, refl, refl)

stops_at_budget :
    let out = (integrate_with_replans (escalating 9) 1 "p_" empty empty 0).0 in
    (out.result.status ≡ "needs_replan") × (out.replans ≡ 1)
unfolding opened
stops_at_budget = (refl, refl)

stops_at_refusal :
    let out = (integrate_with_replans (escalating 9) 5 "p_" empty empty 0).0 in
    (out.result.status ≡ "replan_failed") × (out.replans ≡ 3) × (length out.rounds ≡ 3)
unfolding opened
stops_at_refusal = (refl, refl, refl)

integrate_with_replans-Stops_example :
    Stops 0 5 (integrate_with_replans (escalating 9) 5 "p_" empty empty 0).0
integrate_with_replans-Stops_example =
    integrate_with_replans-Stops (escalating 9) 5 "p_" empty empty 0

integrate_with_replans-IsRun_example :
    let (out, t) = integrate_with_replans (escalating 9) 5 "p_" empty empty 0 in
    IsRun (escalating 9) "p_" 5 0 "p_" empty empty none 0 out.rounds out.result t
integrate_with_replans-IsRun_example =
    integrate_with_replans-IsRun (escalating 9) 5 "p_" empty empty 0
