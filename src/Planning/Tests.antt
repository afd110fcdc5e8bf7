-- ===== src/Planning/Tests.antt =====
-- The review at a reply with one block.
use paper_to_pipeline.Base.{◌≡◌, ◌↔◌, String, true, some, none, [], ◌∷◌}
use paper_to_pipeline.Base.Json.{Fields, end, field, str}
use paper_to_pipeline.Base.Int.{ℤ, int_eq, int_arith}
use paper_to_pipeline.Planning.Calls.{returned}
use paper_to_pipeline.Planning.Reply.{Reader}
use paper_to_pipeline.Planning.Review.{Checks, review, accepted}
use paper_to_pipeline.Planning.Review.Verdict.{IsAcceptable, accepted-IsAcceptable}

abbrev pub Document : Type 0
Document = Fields ℤ

abbrev pub plan : Document
plan = field "feature_name" (str "sr") (field "host_revision" (str "abc") end)

-- Every block is the plan.
abbrev pub reader : Reader Document
reader = record {
  loads = λ s. returned plan;
  find_blocks = λ s. "port" ∷ "tests" ∷ [];
  count_fences = λ s. 4;
  lower = λ s. s;
  match_escalation = λ s. none;
  has_jsonschema = true;
}

abbrev pub checks : Checks ℤ String
checks = record {
  port_schema = record { required = []; violations = λ d. [] };
  tests_schema = record { required = []; violations = λ d. [] };
  run_checks = λ p t. [];
}

accepted-IsAcceptable_example :
    (accepted (review reader checks plan plan "## Plan revision") ≡ some (plan, plan))
    ↔ IsAcceptable reader checks plan plan "## Plan revision" plan plan
accepted-IsAcceptable_example =
    accepted-IsAcceptable reader checks plan plan "## Plan revision" plan plan
