-- ===== src/Gate/Bounds.antt =====
-- How much of a log a reason carries into the debug prompt (loop/gate.py, `_with_log_tail` and
-- the build branch of `check_gate`).
use paper_to_pipeline.Base.{◌≤◌, String, Option, none, some}
use paper_to_pipeline.Base.Text.{char_count}
use paper_to_pipeline.Gate.{Reason, Reported, build_failed}

abbrev pub ShortLog : Option String → Type 0
ShortLog none = Unit
ShortLog (some log) = char_count log ≤ 1500

module _ {M : Type 0} where
  abbrev pub ShortReason : Reason M → Type 0
  ShortReason (build_failed tail) = char_count tail ≤ 4000
  ShortReason _ = Unit

  -- A reason quotes at most 1500 characters of a run's log, and 4000 of a build's.
  abbrev pub IsShort : Reported M → Type 0
  IsShort reported = ShortLog reported.log × ShortReason reported.reason
