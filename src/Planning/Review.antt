-- ===== src/Planning/Review.antt =====
-- The judgement of a proposed revision (loop/plan_revision.py, `review`). The plan checks are a
-- parameter, with a message type `M` of their own.
pub mod Verdict
use paper_to_pipeline.Base.{
  String, Bool, true, false, Option, none, some, List, [], ◌∷◌, ◌++◌, map, Eq, ◌&&◌, is_empty,
  if◌then◌else◌,
}
use paper_to_pipeline.Base.Json.{Fields}
use paper_to_pipeline.Base.Numbers.{Arith}
use paper_to_pipeline.Findings.{Finding, blocking}
use paper_to_pipeline.Revision.Guard.{Segment, Note, guard}
use paper_to_pipeline.Planning.Reply.{Reader, Schema, ReplyError, parse_reply}

-- A message of the guard, or of the plan checks.
pub data Remark (A M : Type 0) : Type 0 where
  of_guard : Note A → Remark A M
  of_checks : M → Remark A M

abbrev pub Findings : Type 0 → Type 0 → Type 0
Findings A M = List (Finding (List (Segment A)) (Remark A M))

module _ {A M : Type 0} where
  abbrev pub with_remark :
      Finding (List (Segment A)) (Note A) → Finding (List (Segment A)) (Remark A M)
  with_remark f = record {
    pointer = f.pointer;
    code = f.code;
    severity = f.severity;
    message = of_guard f.message;
  }

-- The schemas of the pair, and `plan_checks.run_checks` at the spec and the checkout.
pub record Checks (A M : Type 0) : Type 0 where
  pub port_schema : Schema (Fields A)
  pub tests_schema : Schema (Fields A)
  pub run_checks : (port tests : Fields A) → Findings A M

-- What `review` returns.
pub record Reviewed (A M : Type 0) : Type 0 where
  pub port : Option (Fields A)
  pub tests : Option (Fields A)
  pub errors : List ReplyError
  pub findings : Findings A M

module _ {A M : Type 0} ⦃e : Eq A⦄ ⦃n : Arith A⦄ (reader : Reader (Fields A))
    (checks : Checks A M) where
  unfoldable pub review_pair :
      (old_port old_tests : Fields A) (port tests : Option (Fields A))
      → List ReplyError
      → Reviewed A M
  review_pair old_port old_tests (some port) (some tests) errors = record {
    port = some port;
    tests = some tests;
    errors = errors;
    findings =
        checks.run_checks port tests ++ map with_remark (guard old_port old_tests port tests);
  }
  review_pair old_port old_tests port tests errors = record {
    port = port;
    tests = tests;
    errors = errors;
    findings = [];
  }

  unfoldable pub review : (old_port old_tests : Fields A) (reply : String) → Reviewed A M
  unfolding review_pair
  review old_port old_tests reply =
      let (port, tests, errors) = parse_reply reader checks.port_schema checks.tests_schema reply in
      review_pair old_port old_tests port tests errors

-- `if not errors and not blocking(findings)`, with the pair that is then committed. A document that
-- did not parse comes with an error.
module _ {D : Type 0} where
  unfoldable pub accepted_pair : Option D → Option D → (clean : Bool) → Option (D × D)
  accepted_pair (some port) (some tests) true = some (port, tests)
  accepted_pair _ _ _ = none

module _ {A M : Type 0} where
  unfoldable pub accepted : Reviewed A M → Option (Fields A × Fields A)
  unfolding accepted_pair blocking
  accepted r = accepted_pair r.port r.tests (is_empty r.errors && is_empty (blocking r.findings))
