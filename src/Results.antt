-- ===== src/Results.antt =====
-- The outcome records that the plan runner fills and the gate reads
-- (loop/plan_runner.py, "outcomes" and "results"). `A` is the type of Python's numbers, `M` that of
-- the runner's messages. A reason that the source joins from parts with "; " is the list of its
-- parts, and the empty text is the empty list.
use paper_to_pipeline.Base.{ℕ, String, Bool, Option, List}
use paper_to_pipeline.Base.Dict.{Dict}
use paper_to_pipeline.Base.Int.{ℤ}

pub record BuildOutcome (H : Type 0) : Type 0 where
  pub succeeded : Bool
  pub log : String
  pub handle : Option H

pub record ShellOutcome : Type 0 where
  pub exit_code : ℤ
  pub output : String
  pub timed_out : Bool

pub record TraceOutcome (A : Type 0) : Type 0 where
  pub succeeded : Bool
  pub metrics : Dict A
  pub failed : List String
  pub log_tail : String

pub record CorrectnessResult (A M : Type 0) : Type 0 where
  pub id : String
  pub kind : String
  pub passed : Bool
  pub reason : List M
  pub metrics : Dict A

pub record PerformanceResult (A M : Type 0) : Type 0 where
  pub id : String
  pub metric : String
  pub direction : String
  pub baseline : Option A
  pub measured : Option A
  pub relative_improvement : Option A
  pub block_passed : Bool
  pub warn_passed : Bool
  pub reason : List M
  pub warning : List M
  pub n_traces : ℕ
  pub failed_traces : List String
  pub log_tail : String

-- An item of `smoke_failures`: a trace that failed, or the sentence that names a missing list.
pub data SmokeFailure : Type 0 where
  trace : String → SmokeFailure
  no_trace_list : Option String → SmokeFailure

pub record TestPlanResults (A M : Type 0) : Type 0 where
  pub build_ok : Bool
  pub build_log_tail : String
  pub feature_off_metrics : Dict A
  pub correctness : List (CorrectnessResult A M)
  pub performance : List (PerformanceResult A M)
  pub smoke_ok : Bool
  pub smoke_failures : List SmokeFailure
  pub smoke_log_tail : String
