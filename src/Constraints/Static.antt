-- ===== src/Constraints/Static.antt =====
-- Constraints on a candidate (loop/constraints.py, `Constraint`, `check_static`, `check_measured`).
pub mod Meets
mod Tests
use paper_to_pipeline.Base.{
  String, Bool, true, false, Option, none, some, List, [], ◌∷◌, ◌++◌, map, ◌==◌, string_eq, not,
  is_empty, ◌&&◌, if◌then◌else◌,
}
use paper_to_pipeline.Base.Dict.{Dict, get, put, update}
use paper_to_pipeline.Base.Json.{Json}
use paper_to_pipeline.Base.Numbers.{Arith}
use paper_to_pipeline.Runner.Plan.{Comparison, less_equal, compare_by}
use paper_to_pipeline.Constraints.Ranges.{Python}
use paper_to_pipeline.Constraints.Knobs.{Knob}
use paper_to_pipeline.Constraints.Header.{Reader, HeaderError, knob_values}
use paper_to_pipeline.Constraints.Formulas.{Expr, FormulaError, Result, fails, gives, Operators}
use paper_to_pipeline.Constraints.Storage.{Spec, PortPlan, all_knobs, storage_bits}

pub record Constraint (A : Type 0) : Type 0 where
  pub metric : String
  pub comparison : Comparison
  pub allowance : A
  pub name : String

abbrev storage_constraint : {A : Type 0} → (track : String) (allowance_bits : A) → Constraint A
storage_constraint track allowance_bits = record {
  metric = "storage_bits";
  comparison = less_equal;
  allowance = allowance_bits;
  name = track;
}

-- `c.phase == "static"`: the metric is in `STATIC_METRICS`.
abbrev pub is_static : {A : Type 0} → Constraint A → Bool
is_static c = c.metric == "storage_bits"

pub data CandidateError (A : Type 0) : Type 0 where
  in_header : HeaderError A → CandidateError A
  not_computed : (metric : String) → FormulaError → CandidateError A

pub data Violation (A : Type 0) : Type 0 where
  breaks : (metric : String) (value : Option A) → Constraint A → Violation A

pub record CandidateReport (A : Type 0) : Type 0 where
  pub passed : Bool
  pub errors : List (CandidateError A)
  pub violations : List (Violation A)
  pub metrics : Dict A
  pub breakdown : Dict A
  pub features : Dict (Json A)
  pub hosts : Dict (Json A)

module _ {A : Type 0} ⦃n : Arith A⦄ where
  unfoldable pub holds : Constraint A → Option A → Bool
  unfolding compare_by
  holds c none = false
  holds c (some value) = compare_by c.comparison value c.allowance

  -- What one static constraint adds, at what its metric computes to.
  unfoldable pub note_static :
      Constraint A → Result (A × Dict A) → CandidateReport A → CandidateReport A
  unfolding holds
  note_static c (fails e) report = record report {
    errors = report.errors ++ not_computed c.metric e ∷ [];
  }
  note_static c (gives (value, breakdown)) report = record report {
    metrics = put c.metric value report.metrics;
    breakdown = update report.breakdown breakdown;
    violations =
        if not (holds c (some value))
        then report.violations ++ breaks c.metric (some value) c ∷ []
        else report.violations;
  }

  -- `if c.phase != "static": continue`
  unfoldable pub check_one :
      (static_phase : Bool)
      → Constraint A
      → Result (A × Dict A)
      → CandidateReport A
      → CandidateReport A
  unfolding note_static
  check_one false c bits report = report
  check_one true c bits report = note_static c bits report

  unfoldable pub check_constraints :
      List (Constraint A) → Result (A × Dict A) → CandidateReport A → CandidateReport A
  unfolding check_one
  check_constraints [] bits report = report
  check_constraints (c ∷ cs) bits report =
      check_constraints cs bits (check_one (is_static c) c bits report)

  -- `report.ok = not report.errors and not report.violations`
  abbrev pub settle : CandidateReport A → CandidateReport A
  settle report = record report { passed = is_empty report.errors && is_empty report.violations }

  unfoldable pub check_measured : Dict A → List (Constraint A) → List (Violation A)
  unfolding holds
  check_measured aggregate [] = []
  check_measured aggregate (c ∷ cs) =
      (if is_static c
        then []
        else if not (holds c (get c.metric aggregate))
        then breaks c.metric (get c.metric aggregate) c ∷ []
        else [])
      ++ check_measured aggregate cs

  -- The report before any constraint is checked.
  abbrev pub legal_report :
      List (CandidateError A) → (features hosts : Dict (Json A)) → CandidateReport A
  legal_report errors features hosts = record {
    passed = false;
    errors = errors;
    violations = [];
    metrics = [];
    breakdown = [];
    features = features;
    hosts = hosts;
  }

  -- `if errors: return report`, and the constraints otherwise.
  unfoldable pub check_candidate :
      List (HeaderError A)
      → (features hosts : Dict (Json A)) → List (Constraint A)
      → Result (A × Dict A)
      → CandidateReport A
  unfolding check_constraints
  check_candidate [] features hosts constraints bits =
      settle (check_constraints constraints bits (legal_report [] features hosts))
  check_candidate (e ∷ errors) features hosts constraints bits =
      legal_report (map in_header (e ∷ errors)) features hosts

-- `storage_bits` is the one static metric, so that every static constraint reads it.
module _ {A : Type 0} ⦃n : Arith A⦄ (python : Python A) (reader : Reader A)
    (operators : Operators A) (parse : String → Result (Expr A)) (upper : String → String) where
  unfoldable pub check_static :
      (header : String) → Spec A → PortPlan A → List (Constraint A) → CandidateReport A
  unfolding check_candidate
  check_static header spec plan constraints =
      let ((features, hosts), errors) =
        knob_values python reader header (all_knobs upper spec plan) in
      check_candidate errors features hosts constraints
        (storage_bits operators parse spec plan features hosts)
