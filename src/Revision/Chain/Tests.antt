-- ===== src/Revision/Chain/Tests.antt =====
-- Runs of the guard on small plan pairs, and its theorems at them.
use paper_to_pipeline.Base.{◌≡◌, refl, String, List, [], ◌∷◌, contains, string_eq, ℕ}
use paper_to_pipeline.Base.Json.{
  num, str, arr, obj, nil, item, Fields, end, field, json_beq, items_beq, fields_beq,
}
use paper_to_pipeline.Base.Int.{ℤ, pos, int_eq, int_arith}
use paper_to_pipeline.Findings.{Finding, blocking}
use paper_to_pipeline.Revision.Documents.{
  sorted_set, insert_name, find, set_default, set_item, add_entry, entries_from, entries, index_of,
  by_text_from, by_text,
}
use paper_to_pipeline.Revision.Guard.{
  Segment, Note, fidelity, check_fields, check_entry, check_entries, check_collection,
  check_collections, check_identity, check_frozen_top, dropped, check_metric_keys, check_tolerance,
  check_smoke, check_host_storage, enable_refusals, enable_remarks, check_feature_enable,
  is_recorded, check_run, check_runs, check_performance_run, check_alternative, check_alternatives,
  check_rejected_alternatives, check_status, check_statuses, check_fidelity, guard,
}
use paper_to_pipeline.Revision.Chain.{guard_self, guard_trans}

abbrev Document : Type 0
Document = Fields ℤ

abbrev port : Document
port = field "feature_name" (str "sr") (field "host" (str "cbp2025") end)

-- A test plan with one performance entry: its floor, its command, the source of its baseline.
abbrev tests : ℕ → String → String → Document
tests floor command source = field "metric_keys" (arr (item (str "ipc") nil)) (
    field "performance"
      (arr (
        item
          (obj (
            field "baseline" (obj (field "source" (str source) end)) (
              field "block_threshold" (num (pos floor))
                (field "id" (str "p1") (field "run" (str command) end)))))
          nil))
      end)

codes : List (Finding (List (Segment ℤ)) (Note ℤ)) → List String
codes [] = []
codes (f ∷ fs) = f.code ∷ codes fs

opened : Unit {0}
unfolding guard blocking codes check_fields check_entry check_entries check_collection
    check_collections check_identity check_frozen_top dropped check_metric_keys check_tolerance
    check_smoke check_host_storage enable_refusals enable_remarks check_feature_enable is_recorded
    check_run check_runs check_performance_run check_alternative check_alternatives
    check_rejected_alternatives check_status check_statuses check_fidelity fidelity sorted_set
    insert_name find set_default set_item add_entry entries_from entries index_of by_text_from
    by_text contains json_beq items_beq fields_beq
opened = tt

-- A lower floor is refused.
guard_floor :
    codes (blocking (guard port (tests 3 "run" "recorded") port (tests 2 "run" "recorded")))
    ≡ "revision_froze_field" ∷ []
unfolding opened
guard_floor = refl

-- A new command is refused against a recorded number, and accepted where both sides run it.
guard_run_recorded :
    codes (blocking (guard port (tests 3 "run" "recorded") port (tests 3 "go" "recorded")))
    ≡ "revision_froze_field" ∷ []
unfolding opened
guard_run_recorded = refl

guard_run_measured :
    blocking
      (guard port (tests 3 "run" "measure_feature_off") port (tests 3 "go" "measure_feature_off"))
    ≡ []
unfolding opened
guard_run_measured = refl

guard_run_again :
    blocking
      (guard port (tests 3 "go" "measure_feature_off") port (tests 3 "make" "measure_feature_off"))
    ≡ []
unfolding opened
guard_run_again = refl

guard_deleted :
    codes (blocking (guard port (tests 3 "run" "recorded") port end))
    ≡ "revision_deleted_entry" ∷ "revision_deleted_entry" ∷ []
unfolding opened
guard_deleted = refl

-- A smoke section, with a list of traces or none.
abbrev smoke : Fields ℤ → Document
smoke inline = field "smoke" (obj (field "trace_list" (str "experiments/smoke.list") inline)) end

-- Inline traces may be added to a section that had a list only, and then they alone are run.
guard_smoke_added :
    blocking (guard port (smoke end) port (smoke (field "traces" (arr (item (str "t0") nil)) end)))
    ≡ []
unfolding opened
guard_smoke_added = refl

guard_self_example :
    blocking (guard port (tests 3 "run" "recorded") port (tests 3 "run" "recorded")) ≡ []
guard_self_example = guard_self port (tests 3 "run" "recorded")

guard_trans_example :
    blocking
      (guard port (tests 3 "run" "measure_feature_off") port (tests 3 "make" "measure_feature_off"))
    ≡ []
guard_trans_example =
    guard_trans port (tests 3 "run" "measure_feature_off") port (tests 3 "go" "measure_feature_off")
      port (tests 3 "make" "measure_feature_off") guard_run_measured guard_run_again
