-- ===== src/Runner/Plan.antt =====
-- The parts of a test plan that the runner reads, and the host that it drives (loop/plan_runner.py).
-- A field that the source reads by `get` is optional; one that it reads by `[]` is required by the
-- schema, so that a missing one, a `KeyError`, is not represented.
use paper_to_pipeline.Base.{ℕ, String, Bool, Option, List, true, false, ◌||◌, [], ◌∷◌}
use paper_to_pipeline.Base.Dict.{Dict}
use paper_to_pipeline.Base.Numbers.{Arith}
use paper_to_pipeline.Results.{BuildOutcome, ShellOutcome, TraceOutcome}
use paper_to_pipeline.Base.Int.{ℤ}

abbrev pub default_timeout : ℕ
default_timeout = 900

-- `HostExecutor`
pub record Executor (S A H : Type 0) : Type 0 where
  pub build : (feature_on : Bool) (timeout : ℕ) → S → BuildOutcome H × S
  pub shell :
      (command : String) (feature_on : Bool) (env : Dict String) (timeout : ℕ)
      → S
      → ShellOutcome × S
  pub parse_metrics : String → Dict A
  pub run_traces : (traces : List String) (feature_on : Bool) (timeout : ℕ) → S → TraceOutcome A × S

-- A match object of `re`: the whole match, and its groups.
pub record Match : Type 0 where
  pub whole : String
  pub groups : List (Option String)

-- `re.search(pattern, text)`, and the lines of a file under the repository's root, `none` where it
-- cannot be read.
pub record Library : Type 0 where
  pub search : (pattern text : String) → Option Match
  pub read_lines : String → Option (List String)

pub data Comparison : Type 0 where
  less less_equal greater greater_equal equal : Comparison

-- `_COMPARISONS`
unfoldable pub compare_by : {A : Type 0} ⦃n : Arith A⦄ → Comparison → A → A → Bool
compare_by ⦃n⦄ less a b = n.lt a b
compare_by ⦃n⦄ less_equal a b = n.lt a b || n.eq a b
compare_by ⦃n⦄ greater a b = n.lt b a
compare_by ⦃n⦄ greater_equal a b = n.lt b a || n.eq a b
compare_by ⦃n⦄ equal a b = n.eq a b

pub data Condition (A : Type 0) : Type 0 where
  exit_zero : Condition A
  stdout_matches : (pattern : String) (allow_nonzero_exit : Bool) → Condition A
  stdout_excludes : (pattern : String) (allow_nonzero_exit : Bool) → Condition A
  matches_clean_tree : (pattern : Option String) → Condition A
  metrics_equal_baseline :
      (pointer : String) (metrics : List String) (rel_tol : Option A) → Condition A
  metric_threshold : (metric : String) (comparison : Comparison) (bound : A) → Condition A
  unknown : (kind : Option String) → Condition A

pub record CleanTree : Type 0 where
  pub exit_code : Option ℤ
  pub summary : Option String

pub data FeatureState : Type 0 where
  off on both : FeatureState

-- `_states`
unfoldable pub states : FeatureState → List Bool
states off = false ∷ []
states on = true ∷ []
states both = false ∷ true ∷ []

pub record CorrectnessEntry (A : Type 0) : Type 0 where
  pub id : String
  pub kind : String
  pub command : String
  pub feature_state : FeatureState
  pub env : Dict String
  pub timeout : Option ℕ
  pub pass_condition : Condition A
  pub clean_tree : CleanTree

-- `run`: the host's own way, or a command with `{trace}` in it.
pub data RunMode : Type 0 where
  host_adapter : RunMode
  command_per_trace : (template : String) → RunMode

pub record Workload : Type 0 where
  pub traces : List String
  pub trace_list : Option String
  pub run : RunMode
  pub timeout : Option ℕ

pub record Companion (A : Type 0) : Type 0 where
  pub metric : String
  pub direction : String
  pub max_relative_regression : A

pub data BaselineSource : Type 0 where
  recorded : (pointer : String) → BaselineSource
  measure_feature_off : BaselineSource

pub record PerformanceEntry (A : Type 0) : Type 0 where
  pub id : String
  pub metric : String
  pub direction : String
  pub workload : Workload
  pub baseline : BaselineSource
  pub min_relative_improvement : A
  pub no_regression : List (Companion A)
  pub target_relative_improvement : A
  pub claim_source : String

pub record TestPlan (A : Type 0) : Type 0 where
  pub metric_keys : List String
  pub baseline_rel_tol : Option A
  pub correctness : List (CorrectnessEntry A)
  pub smoke : Option Workload
  pub performance : List (PerformanceEntry A)
