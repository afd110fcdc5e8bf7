-- ===== src/Gate.antt =====
-- The verify gate (loop/gate.py): it runs nothing, and judges what the plan runner measured.
-- A reason is a value with the parts that the source's sentence is written from.
pub mod Verdict
pub mod Baseline
pub mod Bounds
mod Tests
use paper_to_pipeline.Base.{
  ℕ, String, Bool, true, false, Option, none, some, List, [], ◌∷◌, ◌++◌, map, length, is_empty,
  keep, not, if◌then◌else◌, ◌==◌, string_eq,
}
use paper_to_pipeline.Base.Text.{last_chars, is_blank}
use paper_to_pipeline.Base.Dict.{Dict, get}
use paper_to_pipeline.Base.Numbers.{Arith, zero_num}
use paper_to_pipeline.Results.{CorrectnessResult, PerformanceResult, SmokeFailure, TestPlanResults}

abbrev pub log_tail_chars : ℕ
log_tail_chars = 1500

pub data Reason (M : Type 0) : Type 0 where
  build_failed : (tail : String) → Reason M
  no_baseline_entry : Reason M
  baseline_failed : (id : String) (reason : List M) → Reason M
  correctness_failed : (id : String) (reason : List M) → Reason M
  smoke_failed : List SmokeFailure → Reason M
  traces_failed : (id : String) (n_failed n_traces : ℕ) (failed : List String) → Reason M
  block_failed : (id : String) (reason : List M) → Reason M

-- A reason, and the end of the failing run's log where one is quoted under it.
pub record Reported (M : Type 0) : Type 0 where
  pub reason : Reason M
  pub log : Option String

pub record GateResult (M : Type 0) : Type 0 where
  pub passed : Bool
  pub reasons : List (Reported M)
  pub warnings : List (List M)

-- One sentence of `metric_differences`.
pub data Difference (A : Type 0) : Type 0 where
  missing : (key : String) (baseline measured : Option A) → Difference A
  baseline_zero : (key : String) (measured : A) → Difference A
  differs : (key : String) (measured baseline rel_tol : A) → Difference A

module _ {A : Type 0} ⦃n : Arith A⦄ where
  -- The body of the loop, at the values that `get` found.
  unfoldable pub key_difference : String → Option A → Option A → A → List (Difference A)
  key_difference key (some base) (some seen) rel_tol =
      if n.eq base zero_num
      then (if n.eq seen zero_num then [] else baseline_zero key seen ∷ [])
      else if n.lt rel_tol (n.div (n.abs (n.sub seen base)) (n.abs base))
      then differs key seen base rel_tol ∷ []
      else []
  key_difference key base seen rel_tol = missing key base seen ∷ []

  unfoldable pub metric_differences : Dict A → Dict A → List String → A → List (Difference A)
  metric_differences baseline measured [] rel_tol = []
  metric_differences baseline measured (key ∷ keys) rel_tol =
      key_difference key (get key baseline) (get key measured) rel_tol
      ++ metric_differences baseline measured keys rel_tol

module _ {M : Type 0} where
  abbrev plain : Reason M → Reported M
  plain reason = record { reason = reason; log = none }

  unfoldable pub with_log_tail : Reason M → String → Reported M
  unfolding is_blank
  with_log_tail reason tail =
      if is_blank tail
      then plain reason
      else record { reason = reason; log = some (last_chars log_tail_chars tail) }

module _ {A M : Type 0} where
  abbrev pub is_baseline : CorrectnessResult A M → Bool
  is_baseline r = r.kind == "feature_off_baseline"

  -- the loop over `baseline_entries`
  unfoldable pub baseline_reasons : List (CorrectnessResult A M) → List (Reported M)
  baseline_reasons [] = []
  baseline_reasons (r ∷ rs) =
      if r.passed
      then baseline_reasons rs
      else plain (baseline_failed r.id r.reason) ∷ baseline_reasons rs

  unfoldable pub correctness_reasons : List (CorrectnessResult A M) → List (Reported M)
  correctness_reasons [] = []
  correctness_reasons (r ∷ rs) =
      if not (is_baseline r)
      then (if r.passed
          then correctness_reasons rs
          else plain (correctness_failed r.id r.reason) ∷ correctness_reasons rs)
      else correctness_reasons rs

  -- One performance entry's reason, if it has one.
  unfoldable pub performance_reason : PerformanceResult A M → List (Reported M)
  performance_reason r =
      if not (is_empty r.failed_traces)
      then with_log_tail (traces_failed r.id (length r.failed_traces) r.n_traces r.failed_traces)
          r.log_tail
        ∷ []
      else if not r.block_passed
      then with_log_tail (block_failed r.id r.reason) r.log_tail ∷ []
      else []

  unfoldable pub performance_reasons : List (PerformanceResult A M) → List (Reported M)
  performance_reasons [] = []
  performance_reasons (r ∷ rs) = performance_reason r ++ performance_reasons rs

  unfoldable pub performance_warnings : List (PerformanceResult A M) → List (List M)
  performance_warnings [] = []
  performance_warnings (r ∷ rs) =
      if not (is_empty r.warning)
      then r.warning ∷ performance_warnings rs
      else performance_warnings rs

  -- `if not baseline_entries`
  unfoldable pub missing_baseline_reasons : List (CorrectnessResult A M) → List (Reported M)
  missing_baseline_reasons baseline_entries =
      if is_empty baseline_entries then plain no_baseline_entry ∷ [] else []

  -- `if not results.smoke_ok`
  unfoldable pub smoke_reasons : TestPlanResults A M → List (Reported M)
  smoke_reasons results =
      if not results.smoke_ok
      then with_log_tail (smoke_failed results.smoke_failures) results.smoke_log_tail ∷ []
      else []

  -- What `check_gate` collects after the build condition, in its order.
  unfoldable pub gate_reasons : TestPlanResults A M → List (Reported M)
  gate_reasons results =
      let baseline_entries = keep is_baseline results.correctness in
      missing_baseline_reasons baseline_entries
      ++ (baseline_reasons baseline_entries
          ++ (correctness_reasons results.correctness
              ++ (smoke_reasons results ++ performance_reasons results.performance)))

  unfoldable pub check_gate : TestPlanResults A M → GateResult M
  check_gate results =
      if not results.build_ok
      then record {
        passed = false;
        reasons = plain (build_failed (last_chars 4000 results.build_log_tail)) ∷ [];
        warnings = [];
      }
      else record {
        passed = is_empty (gate_reasons results);
        reasons = gate_reasons results;
        warnings = performance_warnings results.performance;
      }
