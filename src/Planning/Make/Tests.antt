-- ===== src/Planning/Make/Tests.antt =====
-- Stage 2 with a planner that answers with one pair.
use paper_to_pipeline.Base.{ℕ, ◌≢◌, String, false, some, none, [], ◌∷◌, arith, string_eq, ==_iff}
use paper_to_pipeline.Base.Json.{end}
use paper_to_pipeline.Base.Int.{ℤ, int_eq, int_arith}
use paper_to_pipeline.Planning.Calls.{Called, returned}
use paper_to_pipeline.Planning.Tests.{reader, checks}
use paper_to_pipeline.Planning.Make.{PlannerPrompt, Settings, Desk, make_plan}
use paper_to_pipeline.Planning.Make.Settled.{Settles, make_plan-Settles}

abbrev answer_plan : PlannerPrompt ℤ String String → ℕ → Called String × ℕ
answer_plan prompt s = (returned "plan", s)

abbrev settings : Settings
settings = record {
  turns = 2;
  allow_gaps = false;
  stamp = "run_1_";
  revision = some "abc";
  rounds = 3;
}

-- Stage 2 ran before, one revision is left of it, and an escalation is open.
abbrev desk : Desk ℕ ℤ String
desk = record {
  agent = 0;
  store = record { port_plan = λ i. some (some end); test_plan = λ i. none };
  escalations = some (record { body = "floor"; resolved = "" } ∷ []);
}

stamp_given : settings.stamp ≢ ""
stamp_given h = let same = (==_iff "run_1_" "").1 h in cc

make_plan-Settles_example :
    Settles reader checks answer_plan settings desk
      (make_plan reader checks answer_plan settings desk)
make_plan-Settles_example =
    make_plan-Settles reader checks answer_plan settings desk stamp_given (omega arith)
