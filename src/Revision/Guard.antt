-- ===== src/Revision/Guard.antt =====
-- The guard (loop/plan_revision.py, from `_FROZEN_TOP` to `guard`). A finding's message is a value
-- that holds what the source's sentence quotes.
use paper_to_pipeline.Base.{
  ℕ, String, Bool, Option, none, some, List, [], ◌∷◌, ◌++◌, if◌then◌else◌, ◌==◌, ◌||◌, not, Eq,
  string_eq, keep, contains, is_empty, ltb,
}
use paper_to_pipeline.Base.Json.{Json, str, Fields, names, json_beq, json_eq}
use paper_to_pipeline.Base.Numbers.{Arith, zero_num}
use paper_to_pipeline.Findings.{Finding}
use paper_to_pipeline.Revision.Documents.{
  value, or_zero, is_null, list_at, dict_at, sorted_set, Table, find, entries, index_of, by_text,
}

-- The pieces of a JSON pointer.
pub data Segment (A : Type 0) : Type 0 where
  name : String → Segment A
  index : ℕ → Segment A
  quoted : Json A → Segment A

pub data Note (A : Type 0) : Type 0 where
  drops_entry : (collection key : String) (handle : Json A) → Note A
  changes_field :
      (field collection : String) (before after : Json A) (revisable : List String) → Note A
  changes_identity : (field : String) (before after : Json A) → Note A
  drops_metrics : List (Json A) → Note A
  moves_tolerance : (before after : Json A) → Note A
  moves_trace_list : (before after : Json A) → Note A
  drops_workloads : List (Json A) → Note A
  changes_baseline_bits : (before after : Json A) → Note A
  changes_enable : (field : String) (before after : Json A) → Note A
  restates_off_path : (field : String) → Note A
  changes_recorded_run : Note A
  drops_alternative : Json A → Note A
  rewrites_alternative : Json A → Note A
  loses_fidelity : (handle was now : Json A) → Note A

abbrev pub Found : Type 0 → Type 0
Found A = List (Finding (List (Segment A)) (Note A))

abbrev pub frozen_top : List String
frozen_top = "feature_name" ∷ "host" ∷ "host_revision" ∷ "spec_inputs_used" ∷ []

-- A collection's name, the field that identifies its entries, and those that may be revised.
pub record Collection : Type 0 where
  pub called : String
  pub key : String
  pub revisable : List String

abbrev pub port_collections : List Collection
port_collections =
    record {
      called = "knobs";
      key = "spec_pointer";
      revisable = "host_knob" ∷ "binding" ∷ "notes" ∷ [];
    }
    ∷ record {
      called = "host_knobs";
      key = "name";
      revisable =
          "host_symbol" ∷ "file" ∷ "observed" ∷ "binding" ∷ "range" ∷ "description" ∷ "notes" ∷ [];
    }
    ∷ record {
      called = "spec_map";
      key = "spec_pointer";
      revisable = "realization" ∷ "hook_ids" ∷ [];
    }
    ∷ record {
      called = "interface_resolutions";
      key = "spec_pointer";
      revisable = "status" ∷ "resolution" ∷ "rationale" ∷ "fidelity_note" ∷ "hook_ids" ∷ [];
    }
    ∷ record {
      called = "open_questions";
      key = "question";
      revisable = "spec_pointer" ∷ "cost_if_wrong" ∷ [];
    }
    ∷ []

abbrev pub tests_collections : List Collection
tests_collections =
    record {
      called = "correctness";
      key = "id";
      revisable = "description" ∷ "command" ∷ "env" ∷ "timeout_seconds" ∷ "test_file" ∷ [];
    }
    ∷ record {
      called = "performance";
      key = "id";
      revisable = "description" ∷ "run" ∷ "timeout_seconds" ∷ [];
    }
    ∷ []

module _ {A : Type 0} where
  abbrev pub refusal : List (Segment A) → String → Note A → Found A
  refusal pointer code note =
      record { pointer = pointer; code = code; severity = "error"; message = note } ∷ []

  abbrev pub remark : List (Segment A) → String → Note A → Found A
  remark pointer code note =
      record { pointer = pointer; code = code; severity = "warn"; message = note } ∷ []

  -- `_FIDELITY.get(status, 0)`
  unfoldable pub fidelity : Json A → ℕ
  fidelity (str s) = if s == "fallback" then 1 else if s == "unavailable" then 2 else 0
  fidelity _ = 0

module _ {A : Type 0} ⦃e : Eq A⦄ where
  -- The inner loop of `_check_collection`, over the names of both entries.
  unfoldable pub check_fields :
      String → Collection → ℕ → Fields A → Fields A → List String → Found A
  check_fields label c i entry replacement [] = []
  check_fields label c i entry replacement (k ∷ ks) =
      (if contains c.revisable k || json_beq (value k entry) (value k replacement)
        then []
        else refusal (name label ∷ name c.called ∷ index i ∷ name k ∷ []) "revision_froze_field"
            (changes_field k c.called (value k entry) (value k replacement) c.revisable))
      ++ check_fields label c i entry replacement ks

  -- The body of the outer loop, at what the revision has under this handle.
  unfoldable pub check_entry :
      String → Fields A → Collection → Json A → Fields A → Option (Fields A) → Found A
  unfolding sorted_set
  check_entry label new c handle entry none =
      refusal (name label ∷ name c.called ∷ []) "revision_deleted_entry"
        (drops_entry c.called c.key handle)
  check_entry label new c handle entry (some replacement) =
      check_fields label c (index_of replacement (list_at c.called new)) entry replacement
        (sorted_set (names entry ++ names replacement))

  unfoldable pub check_entries :
      String → Fields A → Collection → Table A (Fields A) → Table A (Fields A) → Found A
  check_entries label new c after [] = []
  check_entries label new c after ((handle, entry) ∷ before) =
      check_entry label new c handle entry (find handle after)
      ++ check_entries label new c after before

  unfoldable pub check_collection : String → Fields A → Fields A → Collection → Found A
  check_collection label old new c =
      check_entries label new c (entries new c.called c.key) (entries old c.called c.key)

  unfoldable pub check_collections : String → Fields A → Fields A → List Collection → Found A
  check_collections label old new [] = []
  check_collections label old new (c ∷ cs) =
      check_collection label old new c ++ check_collections label old new cs

  unfoldable pub check_identity : String → Fields A → Fields A → List String → Found A
  check_identity label old new [] = []
  check_identity label old new (k ∷ ks) =
      (if json_beq (value k old) (value k new)
        then []
        else refusal (name label ∷ name k ∷ []) "revision_froze_field"
            (changes_identity k (value k old) (value k new)))
      ++ check_identity label old new ks

  unfoldable pub check_frozen_top : Fields A → Fields A → Fields A → Fields A → Found A
  check_frozen_top old_port old_tests new_port new_tests =
      check_identity "/plan" old_port new_port frozen_top
      ++ check_identity "/tests" old_tests new_tests frozen_top

  -- `[x for x in before if x not in after]`
  unfoldable pub dropped : List (Json A) → List (Json A) → List (Json A)
  dropped before after = keep (λ x. not (contains after x)) before

  unfoldable pub check_metric_keys : Fields A → Fields A → Found A
  check_metric_keys old_tests new_tests =
      let gone = dropped (list_at "metric_keys" old_tests) (list_at "metric_keys" new_tests) in
      if is_empty gone
      then []
      else refusal (name "/tests/metric_keys" ∷ []) "revision_deleted_entry" (drops_metrics gone)

  unfoldable pub check_tolerance : ⦃n : Arith A⦄ → Fields A → Fields A → Found A
  check_tolerance old_tests new_tests =
      let before = or_zero zero_num (value "baseline_rel_tol" old_tests) in
      let after = or_zero zero_num (value "baseline_rel_tol" new_tests) in
      if json_beq before after
      then []
      else refusal (name "/tests/baseline_rel_tol" ∷ []) "revision_froze_field"
          (moves_tolerance before after)

  unfoldable pub check_smoke : Fields A → Fields A → Found A
  check_smoke old_tests new_tests =
      let before = dict_at "smoke" old_tests in
      let after = dict_at "smoke" new_tests in
      let gone = dropped (list_at "traces" before) (list_at "traces" after) in
      (if json_beq (value "trace_list" before) (value "trace_list" after)
        then []
        else refusal (name "/tests/smoke/trace_list" ∷ []) "revision_froze_field"
            (moves_trace_list (value "trace_list" before) (value "trace_list" after)))
      ++ (if is_empty gone
          then []
          else refusal (name "/tests/smoke/traces" ∷ []) "revision_deleted_entry"
              (drops_workloads gone))

  unfoldable pub check_host_storage : Fields A → Fields A → Found A
  check_host_storage old_port new_port =
      let old = value "baseline_bits" (dict_at "host_storage" old_port) in
      let new = value "baseline_bits" (dict_at "host_storage" new_port) in
      if is_null old || json_beq new old
      then []
      else refusal (name "/plan/host_storage/baseline_bits" ∷ []) "revision_froze_field"
          (changes_baseline_bits old new)

  unfoldable pub enable_refusals : Fields A → Fields A → List String → Found A
  enable_refusals before after [] = []
  enable_refusals before after (k ∷ ks) =
      (if json_beq (value k before) (value k after)
        then []
        else refusal (name "/plan/feature_enable" ∷ name k ∷ []) "revision_froze_field"
            (changes_enable k (value k before) (value k after)))
      ++ enable_refusals before after ks

  unfoldable pub enable_remarks : Fields A → Fields A → List String → Found A
  enable_remarks before after [] = []
  enable_remarks before after (k ∷ ks) =
      (if json_beq (value k before) (value k after)
        then []
        else remark (name "/plan/feature_enable" ∷ name k ∷ []) "revision_restated_off_path"
            (restates_off_path k))
      ++ enable_remarks before after ks

  unfoldable pub check_feature_enable : Fields A → Fields A → Found A
  check_feature_enable old_port new_port =
      let before = dict_at "feature_enable" old_port in
      let after = dict_at "feature_enable" new_port in
      enable_refusals before after ("name" ∷ "macro" ∷ [])
      ++ enable_remarks before after ("default_off" ∷ "off_path" ∷ [])

  -- `(entry.get("baseline") or {}).get("source", "measure_feature_off") == "recorded"`
  unfoldable pub is_recorded : Fields A → Bool
  is_recorded entry = json_beq (value "source" (dict_at "baseline" entry)) (str "recorded")

  unfoldable pub check_run : Fields A → Fields A → Option (Fields A) → Found A
  check_run new_tests entry none = []
  check_run new_tests entry (some replacement) =
      if json_beq (value "run" entry) (value "run" replacement) || not (is_recorded entry)
      then []
      else refusal
          (name "/tests/performance"
            ∷ index (index_of replacement (list_at "performance" new_tests))
            ∷ name "run"
            ∷ [])
          "revision_froze_field" changes_recorded_run

  unfoldable pub check_runs : Fields A → Table A (Fields A) → Table A (Fields A) → Found A
  check_runs new_tests after [] = []
  check_runs new_tests after ((handle, entry) ∷ before) =
      check_run new_tests entry (find handle after) ++ check_runs new_tests after before

  unfoldable pub check_performance_run : Fields A → Fields A → Found A
  check_performance_run old_tests new_tests =
      check_runs new_tests (entries new_tests "performance" "id")
        (entries old_tests "performance" "id")

  unfoldable pub check_alternative : Json A → Json A → Option (Json A) → Found A
  check_alternative text entry none =
      refusal (name "/plan/structure/rejected_alternatives" ∷ []) "revision_deleted_entry"
        (drops_alternative text)
  check_alternative text entry (some after) =
      if json_beq after entry
      then []
      else refusal (name "/plan/structure/rejected_alternatives" ∷ []) "revision_froze_field"
          (rewrites_alternative text)

  unfoldable pub check_alternatives : Table A (Json A) → Table A (Json A) → Found A
  check_alternatives after [] = []
  check_alternatives after ((text, entry) ∷ before) =
      check_alternative text entry (find text after) ++ check_alternatives after before

  unfoldable pub check_rejected_alternatives : Fields A → Fields A → Found A
  check_rejected_alternatives old_port new_port =
      check_alternatives (by_text new_port) (by_text old_port)

  unfoldable pub check_status : Json A → Fields A → Option (Fields A) → Found A
  check_status handle entry none = []
  check_status handle entry (some replacement) =
      let was = value "status" entry in
      let now = value "status" replacement in
      if ltb (fidelity was) (fidelity now)
      then remark (name "/plan/interface_resolutions" ∷ quoted handle ∷ name "status" ∷ [])
          "revision_lost_fidelity" (loses_fidelity handle was now)
      else []

  unfoldable pub check_statuses : Table A (Fields A) → Table A (Fields A) → Found A
  check_statuses after [] = []
  check_statuses after ((handle, entry) ∷ before) =
      check_status handle entry (find handle after) ++ check_statuses after before

  unfoldable pub check_fidelity : Fields A → Fields A → Found A
  check_fidelity old_port new_port =
      check_statuses (entries new_port "interface_resolutions" "spec_pointer")
        (entries old_port "interface_resolutions" "spec_pointer")

  unfoldable pub guard : ⦃n : Arith A⦄ → Fields A → Fields A → Fields A → Fields A → Found A
  guard old_port old_tests new_port new_tests =
      check_frozen_top old_port old_tests new_port new_tests
      ++ (check_metric_keys old_tests new_tests
          ++ (check_tolerance old_tests new_tests
              ++ (check_smoke old_tests new_tests
                  ++ (check_performance_run old_tests new_tests
                      ++ (check_feature_enable old_port new_port
                          ++ (check_host_storage old_port new_port
                              ++ (check_rejected_alternatives old_port new_port
                                  ++ (check_collections "/plan" old_port new_port port_collections
                                      ++ (check_collections "/tests" old_tests new_tests
                                            tests_collections
                                          ++ check_fidelity old_port new_port)))))))))
