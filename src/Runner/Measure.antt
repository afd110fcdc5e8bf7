-- ===== src/Runner/Measure.antt =====
-- Measuring over a trace list (loop/plan_runner.py, `_measure`, `_side_tail`, `_traces_of`;
-- helpers.py, `load_trace_list`).
use paper_to_pipeline.Base.{
  ℕ, String, Bool, false, Option, none, some, List, [], ◌∷◌, ◌++◌, ◌||◌, ◌==◌, string_eq, is_empty,
  length, not, any, all, keep, map, if◌then◌else◌, ◌&&◌,
}
use paper_to_pipeline.Base.Int.{pos, int_eq}
use paper_to_pipeline.Base.Text.{last_chars, replace, replace_from, append, strip, starts_with}
use paper_to_pipeline.Base.Dict.{Dict, get, has}
use paper_to_pipeline.Base.Numbers.{Arith, zero_num}
use paper_to_pipeline.Results.{ShellOutcome, TraceOutcome}
use paper_to_pipeline.Runner.Plan.{
  Executor, Library, RunMode, host_adapter, command_per_trace, Workload, default_timeout,
}

-- A line that names a trace.
abbrev is_trace : String → Bool
is_trace line = not (strip line == "") && not (starts_with "#" (strip line))

-- `load_trace_list`, on the file's lines
unfoldable pub load_trace_list : List String → List String
load_trace_list lines = map strip (keep is_trace lines)

-- A missing `trace_list` without `traces` breaks the schema.
unfoldable pub traces_of : Library → Workload → List String
unfolding load_trace_list
traces_of lib entry = if not (is_empty entry.traces) then entry.traces else elim entry.trace_list [
  | none ↦ []
  | some path ↦ elim (lib.read_lines path) [ none ↦ [] | some lines ↦ load_trace_list lines ]
]

abbrev pub timeout_of : Option ℕ → ℕ
timeout_of none = default_timeout
timeout_of (some seconds) = seconds

-- `rows`, `failed` and `tail`
pub record Tally (A : Type 0) : Type 0 where
  pub rows : List (Dict A)
  pub failed : List String
  pub tail : String

module _ {A : Type 0} where
  -- What one trace's command adds.
  unfoldable pub count_trace : String → ShellOutcome → Dict A → Tally A → Tally A
  unfolding last_chars
  count_trace trace outcome row t =
      let tail = last_chars 2000 outcome.output in
      if outcome.timed_out || not (outcome.exit_code == pos 0)
      then record { rows = t.rows; failed = t.failed ++ trace ∷ []; tail = tail }
      else if not (is_empty row)
      then record { rows = t.rows ++ row ∷ []; failed = t.failed; tail = tail }
      else record { rows = t.rows; failed = t.failed ++ trace ∷ []; tail = tail }

  -- The keys of the first row that all rows have, in its order; the source's order is a `set`'s.
  unfoldable pub common_keys : List (Dict A) → List String
  common_keys [] = []
  common_keys (row ∷ rows) = keep (λ k. all (has k) rows) (map (λ entry. entry.0) row)

module _ {A : Type 0} ⦃n : Arith A⦄ where
  -- `sum(r[k] for r in rows)`, from what is summed already
  unfoldable pub sum_metric : A → String → List (Dict A) → A
  sum_metric total k [] = total
  sum_metric total k (row ∷ rows) =
      sum_metric (elim (get k row) [ none ↦ total | some v ↦ n.add total v ]) k rows

  unfoldable pub means : List (Dict A) → Dict A
  unfolding sum_metric common_keys
  means rows =
      map (λ k. (k, n.div (sum_metric zero_num k rows) (n.from_count (length rows))))
        (common_keys rows)

  unfoldable pub tally_outcome : Tally A → TraceOutcome A
  unfolding means
  tally_outcome t =
      if is_empty t.rows
      then record { succeeded = false; metrics = []; failed = t.failed; log_tail = t.tail }
      else record {
        succeeded = is_empty t.failed;
        metrics = means t.rows;
        failed = t.failed;
        log_tail = t.tail;
      }

module _ {S A H : Type 0} ⦃n : Arith A⦄ (executor : Executor S A H) where
  -- The loop of `command_per_trace`; no environment is passed.
  unfoldable pub run_each :
      (template : String) (feature_on : Bool) (timeout : ℕ)
      → List String
      → Tally A
      → S
      → Tally A × S
  unfolding count_trace replace_from
  run_each template on timeout [] t s = (t, s)
  run_each template on timeout (trace ∷ traces) t s =
      let (outcome, s') = executor.shell (replace "{trace}" trace template) on [] timeout s in
      run_each template on timeout traces
        (count_trace trace outcome (executor.parse_metrics outcome.output) t) s'

  unfoldable pub measure :
      (traces : List String) → RunMode → (feature_on : Bool) (timeout : ℕ) → S → TraceOutcome A × S
  unfolding run_each tally_outcome
  measure traces host_adapter on timeout s = executor.run_traces traces on timeout s
  measure traces (command_per_trace template) on timeout s =
      let (t, s') =
        run_each template on timeout traces (record { rows = []; failed = []; tail = "" }) s in
      (tally_outcome t, s')

module _ {A : Type 0} where
  unfoldable pub side_tail : (label : String) → TraceOutcome A → (wanted : List String) → String
  side_tail label outcome wanted =
      if outcome.log_tail == ""
      then ""
      else if not (is_empty outcome.failed) || any (λ k. not (has k outcome.metrics)) wanted
      then append label (append " log:\n" outcome.log_tail)
      else ""
