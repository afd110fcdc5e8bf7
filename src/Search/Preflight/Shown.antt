-- ===== src/Search/Preflight/Shown.antt =====
-- What a preflight without a blocking item has shown (loop/dse.py, `preflight`).
use paper_to_pipeline.Base.{◌≡◌, String, List, [], ◌++◌, string_eq}
use paper_to_pipeline.Base.Numbers.{Arith}
use paper_to_pipeline.Constraints.Ranges.{Python}
use paper_to_pipeline.Constraints.Knobs.{Knob}
use paper_to_pipeline.Constraints.Storage.{Spec, PortPlan}
use paper_to_pipeline.Search.Header.{Printer}
use paper_to_pipeline.Search.Preflight.{Kit, Trees, KnobEntry, BuildNote, BuildReport}
use paper_to_pipeline.Search.Preflight.Passes.{AllPass}

module _ {S A B : Type 0} ⦃n : Arith A⦄ (python : Python A) (printer : Printer A) (trees : Trees)
    (kit : Kit S B) (spec : Spec A) (plan : PortPlan A) where
  -- What the loop adds to a report.
  record AddsAll (first : String) (knobs : List (Knob A)) (s : S) (report after : BuildReport A)
      (t : S) : Type 0 where
    pub was_clear : report.blocking ≡ []
    pub entries : List (KnobEntry A)
    pub ws : List (BuildNote A)
    pub added : after.knobs ≡ report.knobs ++ entries
    pub warned : after.warnings ≡ report.warnings ++ ws
    pub passes : AllPass python printer trees kit spec plan first knobs s entries ws t
