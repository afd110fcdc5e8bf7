-- ===== src/Revision/Accepted/Whole.antt =====
-- The guard as a whole (loop/plan_revision.py, `guard` and `blocking`).
use paper_to_pipeline.Base.{List, String, ◌≡◌, ◌↔◌, false, [], ◌∷◌, Eq, All}
use paper_to_pipeline.Base.Json.{Fields}
use paper_to_pipeline.Base.Numbers.{Arith, zero_num}
use paper_to_pipeline.Findings.{blocking}
use paper_to_pipeline.Revision.Documents.{
  value, or_zero, is_null, list_at, dict_at, entries, by_text,
}
use paper_to_pipeline.Revision.Guard.{Collection, check_frozen_top, guard}
use paper_to_pipeline.Revision.Accepted.Entries.{
  IsClear-append, CollectionKept, check_collections-IsClear, both-IsClear,
}
use paper_to_pipeline.Revision.Accepted.Rules.{
  Same, Covers, baseline_bits, check_identity-IsClear, check_metric_keys-IsClear,
  check_tolerance-IsClear, check_smoke-IsClear, check_host_storage-IsClear,
}
use paper_to_pipeline.Revision.Accepted.Tables.{
  RunKept, AlternativeKept, check_feature_enable-IsClear, check_performance_run-IsClear,
  check_rejected_alternatives-IsClear, check_fidelity-IsClear,
}

-- The fields that identify a document (docs/stages.md).
abbrev pub identity_fields : List String
identity_fields = "feature_name" ∷ "host" ∷ "host_revision" ∷ "spec_inputs_used" ∷ []

-- A keyed collection of a document, and all that a surviving entry of it may change.
abbrev pub rule : (collection key : String) → List String → Collection
rule collection key free = record { called = collection; key = key; revisable = free }

abbrev pub plan_rules : List Collection
plan_rules =
    rule "knobs" "spec_pointer" ("host_knob" ∷ "binding" ∷ "notes" ∷ [])
    ∷ rule "host_knobs" "name"
        ("host_symbol" ∷ "file" ∷ "observed" ∷ "binding" ∷ "range" ∷ "description" ∷ "notes" ∷ [])
    ∷ rule "spec_map" "spec_pointer" ("realization" ∷ "hook_ids" ∷ [])
    ∷ rule "interface_resolutions" "spec_pointer"
        ("status" ∷ "resolution" ∷ "rationale" ∷ "fidelity_note" ∷ "hook_ids" ∷ [])
    ∷ rule "open_questions" "question" ("spec_pointer" ∷ "cost_if_wrong" ∷ [])
    ∷ []

abbrev pub test_rules : List Collection
test_rules =
    rule "correctness" "id"
      ("description" ∷ "command" ∷ "env" ∷ "timeout_seconds" ∷ "test_file" ∷ [])
    ∷ rule "performance" "id" ("description" ∷ "run" ∷ "timeout_seconds" ∷ [])
    ∷ []

module _ {A : Type 0} ⦃e : Eq A⦄ ⦃n : Arith A⦄ where
  -- What the revision repeats of the pair in force. Entries and smoke traces may be added, also inline
  -- traces to a smoke section that had a `trace_list` only.
  pub record FieldsKept (old_port old_tests new_port new_tests : Fields A) : Type 0 where
    pub port_identity : Same identity_fields old_port new_port
    pub tests_identity : Same identity_fields old_tests new_tests
    pub metric_keys : Covers (list_at "metric_keys" old_tests) (list_at "metric_keys" new_tests)
    pub tolerance :
        or_zero zero_num (value "baseline_rel_tol" old_tests)
        ≡ or_zero zero_num (value "baseline_rel_tol" new_tests)
    pub trace_list :
        value "trace_list" (dict_at "smoke" old_tests)
        ≡ value "trace_list" (dict_at "smoke" new_tests)
    pub workloads :
        Covers
          (list_at "traces" (dict_at "smoke" old_tests))
          (list_at "traces" (dict_at "smoke" new_tests))
    pub recorded_runs :
        All (RunKept (entries new_tests "performance" "id")) (entries old_tests "performance" "id")
    pub enable :
        Same
          ("name" ∷ "macro" ∷ [])
          (dict_at "feature_enable" old_port)
          (dict_at "feature_enable" new_port)
    pub storage :
        is_null (baseline_bits old_port) ≡ false → baseline_bits new_port ≡ baseline_bits old_port
    pub alternatives : All (AlternativeKept (by_text new_port)) (by_text old_port)
    pub port_entries : All (CollectionKept old_port new_port) plan_rules
    pub tests_entries : All (CollectionKept old_tests new_tests) test_rules

  pub guard-FieldsKept :
      (old_port old_tests new_port new_tests : Fields A)
      → (blocking (guard old_port old_tests new_port new_tests) ≡ [])
        ↔ FieldsKept old_port old_tests new_port new_tests
  unfolding guard check_frozen_top
  guard-FieldsKept old_port old_tests new_port new_tests = (
    λ h.
        let a = (IsClear-append _ _).0 h in
        let top = (IsClear-append _ _).0 a.0 in
        let b = (IsClear-append _ _).0 a.1 in
        let c = (IsClear-append _ _).0 b.1 in
        let d = (IsClear-append _ _).0 c.1 in
        let smoke = (check_smoke-IsClear _ _).0 d.0 in
        let f = (IsClear-append _ _).0 d.1 in
        let g = (IsClear-append _ _).0 f.1 in
        let i = (IsClear-append _ _).0 g.1 in
        let j = (IsClear-append _ _).0 i.1 in
        let k = (IsClear-append _ _).0 j.1 in
        let l = (IsClear-append _ _).0 k.1 in
        record {
          port_identity = (check_identity-IsClear _ _ _ _).0 top.0;
          tests_identity = (check_identity-IsClear _ _ _ _).0 top.1;
          metric_keys = (check_metric_keys-IsClear _ _).0 b.0;
          tolerance = (check_tolerance-IsClear _ _).0 c.0;
          trace_list = smoke.0;
          workloads = smoke.1;
          recorded_runs = (check_performance_run-IsClear _ _).0 f.0;
          enable = (check_feature_enable-IsClear _ _).0 g.0;
          storage = (check_host_storage-IsClear _ _).0 i.0;
          alternatives = (check_rejected_alternatives-IsClear _ _).0 j.0;
          port_entries = (check_collections-IsClear _ _ _ _).0 k.0;
          tests_entries = (check_collections-IsClear _ _ _ _).0 l.0;
        },
    λ h.
        both-IsClear _ _
          (both-IsClear _ _ ((check_identity-IsClear _ _ _ _).1 h.port_identity)
            ((check_identity-IsClear _ _ _ _).1 h.tests_identity))
          (both-IsClear _ _ ((check_metric_keys-IsClear _ _).1 h.metric_keys) (
            both-IsClear _ _ ((check_tolerance-IsClear _ _).1 h.tolerance) (
              both-IsClear _ _ ((check_smoke-IsClear _ _).1 (h.trace_list, h.workloads)) (
                both-IsClear _ _ ((check_performance_run-IsClear _ _).1 h.recorded_runs) (
                  both-IsClear _ _ ((check_feature_enable-IsClear _ _).1 h.enable) (
                    both-IsClear _ _ ((check_host_storage-IsClear _ _).1 h.storage) (
                      both-IsClear _ _ ((check_rejected_alternatives-IsClear _ _).1 h.alternatives)
                        (both-IsClear _ _ ((check_collections-IsClear _ _ _ _).1 h.port_entries) (
                          both-IsClear _ _ ((check_collections-IsClear _ _ _ _).1 h.tests_entries)
                            (check_fidelity-IsClear _ _)))))))))),
  )
