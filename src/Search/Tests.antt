-- ===== src/Search/Tests.antt =====
-- A search over one knob, `size` from 1 to 8, whose structure costs 16 bits for each unit.
use paper_to_pipeline.Base.{
  inl, Option, ℕ, suc, ◌≡◌, refl, String, true, false, none, some, List, [], ◌∷◌, ◌*◌, contains,
  string_eq, eqb, ◌==◌, if◌then◌else◌,
}
use paper_to_pipeline.Base.Text.{has_part, lstrip, rstrip}
use paper_to_pipeline.Base.Int.{ℤ, pos, pos_part, div_ℤ, int_eq, int_arith, int_order}
use paper_to_pipeline.Base.Json.{num, null, bool, str, arr, obj, json_beq, items_beq, fields_beq}
use paper_to_pipeline.Revision.Documents.{find, set_item}
use paper_to_pipeline.Runner.Plan.{less_equal}
use paper_to_pipeline.Constraints.Ranges.{Python, parse_range}
use paper_to_pipeline.Constraints.Header.{Reader, knob_values}
use paper_to_pipeline.Constraints.Formulas.{
  Expr, variable, constant, binary, mult_op, Result, gives, Operators,
}
use paper_to_pipeline.Constraints.Storage.{Spec, PortPlan, all_knobs, storage_bits}
use paper_to_pipeline.Constraints.Static.{Constraint, check_static}
use paper_to_pipeline.Search.Header.{Printer, params_header}
use paper_to_pipeline.Search.Preflight.{Kit, Trees}
use paper_to_pipeline.Search.Finalists.{Program, Finalist, PassedOver, knob_key, select_finalists}
use paper_to_pipeline.Base.Dict.{Dict}
use paper_to_pipeline.Search.Scores.{TraceRuns, run_of}
use paper_to_pipeline.Search.Compare.Runs.{HasMetrics, AllReport}
use paper_to_pipeline.Search.Compare.{Decision, VariantComparison, decided, compare_variants}
use paper_to_pipeline.Search.Compare.Ends.{IsDecision}
use paper_to_pipeline.Search.Compare.Winner.{compare_variants-IsDecision}
use paper_to_pipeline.Search.Finalists.Selection.{IsSelection, select_finalists-IsSelection}

abbrev digit : ℤ → String
digit x = if eqb (pos_part x) 1 then "1" else if eqb (pos_part x) 2 then "2" else "8"

abbrev python : Python ℤ
python = record {
  is_int = λ x. true;
  is_integer = λ x. true;
  to_int = λ x. x;
  mul = λ x y. pos (pos_part x * pos_part y);
  floor_div = div_ℤ;
  bit_and = λ x y. pos 0;
  text_of = λ v. elim v [
    | num x ↦ digit x
    | null ↦ ""
    | bool b ↦ ""
    | str s ↦ s
    | arr xs ↦ ""
    | obj d ↦ ""
  ];
  read_float = λ s. some (if s == "1" then pos 1 else pos 8);
  lower = λ s. s;
  split_bar = λ s. [];
  match_choices = λ s. none;
  match_interval = λ s. some ("1", "8", "");
}

-- A header is read as its one definition; the default's is any other text.
abbrev reader : Reader ℤ
reader = record {
  split_lines = λ s. s ∷ [];
  match_define =
      λ s. some ("SR_SIZE", if s == "small" then "1" else if s == "large" then "8" else "2");
  match_int = λ s. true;
  match_float = λ s. true;
  read_hex = λ s. pos 4;
  read_decimal = λ s. if s == "1" then pos 1 else if s == "8" then pos 8 else pos 2;
  read_float = λ s. pos 4;
  lower = λ s. s;
}

abbrev operators : Operators ℤ
operators = record {
  is_float = λ x. false;
  is_integer = λ x. true;
  to_int = λ x. x;
  mul = λ x y. pos (pos_part x * pos_part y);
  divide = λ op x y. none;
  power = λ x y. none;
  shift = λ op x y. x;
  log2 = λ x. x;
  apply = λ f xs. pos 0;
}

abbrev parse : String → Result (Expr ℤ)
parse s = gives (binary mult_op (variable "size") (constant (pos 16)))

abbrev printer : Printer ℤ
printer = record {
  upper = λ s. "SIZE";
  general = λ x. "64";
  digits = λ v. none;
  renamed = λ formula names. "SR_SIZE * 16";
}

abbrev spec : Spec ℤ
spec = record {
  parameters =
      record {
        macro = none;
        name = "size";
        type = some "int";
        default = num (pos 2);
        range = some "[1, 8]";
        host_symbol = none;
      }
      ∷ [];
  state = record { name = "table"; size_formula = some "size * 16"; size_bits = none } ∷ [];
}

abbrev plan : PortPlan ℤ
plan = record { host_knobs = []; terms = [] }

abbrev trees : Trees
trees = record { read_names = λ s. "size" ∷ []; called_names = λ s. [] }

-- The binary is the header itself.
abbrev kit : Kit ℕ String
kit = record { build = λ header s. (some header, suc s); has_bytes = λ b. true; hash = λ b. b }

abbrev track : Constraint ℤ
track = record {
  metric = "storage_bits";
  comparison = less_equal;
  allowance = pos 64;
  name = "track";
}

abbrev scored : String → ℤ → Program ℤ
scored header score = record {
  id = some header;
  iteration_found = none;
  evaluation = none;
  solution = header;
  metrics = ("mpki", score) ∷ [];
}

-- One program is too large, one is the defaults, one was not scored, and two have the same knobs.
abbrev population : List (Program ℤ)
population =
    scored "large" (pos 1)
    ∷ scored "default" (pos 1)
    ∷ record {
      id = none;
      iteration_found = none;
      evaluation = none;
      solution = "small";
      metrics = [];
    }
    ∷ scored "small" (pos 3)
    ∷ scored "small" (pos 2)
    ∷ []

abbrev chosen : List (Finalist ℤ) × PassedOver
chosen = (
  record { program = scored "small" (pos 2); storage_bits = some (pos 16) } ∷ [],
  record { not_scored = 1; fails_static_check = 1; defaults = 1; duplicate = 1 },
)

run_selection :
    select_finalists python reader operators parse printer "mpki" spec plan
      (track ∷ [])
      population
      3
    ≡ chosen
unfolding select_finalists params_header all_knobs check_static knob_values storage_bits rstrip
    lstrip has_part json_beq items_beq fields_beq find set_item contains parse_range knob_key
run_selection = refl

select_finalists-IsSelection_example :
    (let (finalists, passed) =
        select_finalists python reader operators parse printer "mpki" spec plan
          (track ∷ [])
          population
          3 in
      IsSelection python reader operators parse printer "mpki" spec plan
        (track ∷ [])
        population
        3
        finalists
        passed)
select_finalists-IsSelection_example =
    select_finalists-IsSelection python reader operators parse printer "mpki" spec plan (track ∷ [])
      population 3

abbrev metrics : ℕ → Option (Dict ℤ)
metrics mpki = some (
    ("brmispki_50perc_amean", pos mpki)
    ∷ ("cycwppki_50perc_amean", pos 1)
    ∷ ("ipc_50perc_amean", pos 2)
    ∷ [])

abbrev per_trace : Dict (TraceRuns ℤ)
per_trace =
    ("baseline", ("t1", metrics 5) ∷ [])
    ∷ ("defaults", ("t1", metrics 4) ∷ [])
    ∷ ("finalist_1", ("t1", none) ∷ [])
    ∷ ("finalist_2", ("t1", metrics 2) ∷ [])
    ∷ []

abbrev labels : List String
labels = "finalist_1" ∷ "finalist_2" ∷ []

abbrev decision : Option (VariantComparison ℤ) → Option (Decision ℤ)
decision none = none
decision (some c) = some c.decision

-- The finalist that ran every trace wins, although it comes second.
run_comparison :
    decision (compare_variants "brmispki_50perc_amean" per_trace ("t1" ∷ []) labels [])
    ≡ some (
        decided (record {
          winner = "finalist_2";
          screening_winner_held = false;
          tuned_beats_baseline = true;
          tuned_beats_defaults = true;
          defaults_beat_baseline = true;
        }))
unfolding compare_variants run_of
run_comparison = refl

-- A run without the metric is a `KeyError`.
run_without_metric :
    decision (
      compare_variants "brmispki_50perc_amean"
        (("baseline", ("t1", metrics 5) ∷ [])
          ∷ ("defaults", ("t1", some (("ipc_50perc_amean", pos 2) ∷ [])) ∷ [])
          ∷ [])
        ("t1" ∷ [])
        labels
        [])
    ≡ none
unfolding compare_variants run_of
run_without_metric = refl

run_reports :
    (mpki : ℕ)
    → HasMetrics
        ("brmispki_50perc_amean" ∷ "brmispki_50perc_amean" ∷ "cycwppki_50perc_amean" ∷ [])
        (metrics mpki)
run_reports mpki = ((pos mpki, refl), ((pos mpki, refl), ((pos 1, refl), tt)))

-- Each run of `per_trace` that did not fail reports the compared metrics.
all_report :
    AllReport
      ("brmispki_50perc_amean" ∷ "brmispki_50perc_amean" ∷ "cycwppki_50perc_amean" ∷ [])
      per_trace
all_report = ((run_reports 5, tt), ((run_reports 4, tt), ((tt, tt), ((run_reports 2, tt), tt))))

compare_variants-IsDecision_example :
    (c : VariantComparison ℤ) × (compare_variants "brmispki_50perc_amean" per_trace
        ("t1" ∷ [])
        labels
        []
      ≡ some c)
    × IsDecision "brmispki_50perc_amean" per_trace ("t1" ∷ []) labels [] c.decision
compare_variants-IsDecision_example =
    compare_variants-IsDecision int_order "brmispki_50perc_amean" per_trace ("t1" ∷ []) labels []
      (inl refl) (λ e. cc) all_report
