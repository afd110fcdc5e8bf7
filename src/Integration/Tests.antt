-- ===== src/Integration/Tests.antt =====
-- A run with a scripted agent: its first debug turn answers `reply`, and the gate passes from the
-- second attempt on.
use paper_to_pipeline.Base.{
  ℕ, suc, ◌≡◌, refl, String, Bool, true, none, some, [], ◌∷◌, ◌==◌, string_eq, leb, if◌then◌else◌,
  contains, eqb, ◌++◌, ◌+◌, ◌≤◌, ◌≢◌, ◌⊎◌, subst, sym, arith,
}
use paper_to_pipeline.Base.Text.{has_part, lstrip, rstrip}
use paper_to_pipeline.Base.Json.{
  str, arr, nil, item, Fields, end, field, json_beq, items_beq, fields_beq,
}
use paper_to_pipeline.Base.Int.{ℤ, int_eq, int_arith}
use paper_to_pipeline.Findings.{blocking}
use paper_to_pipeline.Revision.Store.{
  latest, count, count_from, record_escalation, commit, open_escalations,
}
use paper_to_pipeline.Revision.Documents.{
  sorted_set, insert_name, find, set_default, set_item, add_entry, entries_from, entries, index_of,
  by_text_from, by_text,
}
use paper_to_pipeline.Revision.Guard.{
  fidelity, check_fields, check_entry, check_entries, check_collection, check_collections,
  check_identity, check_frozen_top, dropped, check_metric_keys, check_tolerance, check_smoke,
  check_host_storage, enable_refusals, enable_remarks, check_feature_enable, is_recorded, check_run,
  check_runs, check_performance_run, check_alternative, check_alternatives,
  check_rejected_alternatives, check_status, check_statuses, check_fidelity, guard,
}
use paper_to_pipeline.Gate.{GateResult}
use paper_to_pipeline.Planning.Calls.{raised, returned}
use paper_to_pipeline.Planning.Reply.{Reader, Claim, parse_reply, proposed, escalation}
use paper_to_pipeline.Planning.Review.{Checks, review, accepted}
use paper_to_pipeline.Integration.Whole.{Run, integrate-Run, first_in_force}
use paper_to_pipeline.Integration.Disk.{IsInStep}
use paper_to_pipeline.Integration.Promises.{
  integrate-guarded, integrate-judged, integrate-escalations, integrate-latest, integrate-budgets,
}
use paper_to_pipeline.Integration.{
  consider_revision, load_plans, Host, Budgets, Raised, World, InForce, Final, reports, integrate,
  started_pair,
}

abbrev Document : Type 0
Document = Fields ℤ

abbrev port : String → Document
port note = field "feature_name" (str "sr") (field "notes" (str note) end)

abbrev tests : Document
tests = field "metric_keys" (arr (item (str "ipc") nil)) end

abbrev reader : Reader Document
reader = record {
  loads = λ s.
      if s == "port"
      then returned (port "second")
      else if s == "tests"
      then returned tests
      else raised "no JSON";
  find_blocks = λ s. "port" ∷ "tests" ∷ [];
  count_fences = λ s. 4;
  lower = λ s. s;
  match_escalation = λ s. if s == "escalate" then some ("/hooks/0,", " no such file ") else none;
  has_jsonschema = true;
}

abbrev checks : Checks ℤ String
checks = record {
  port_schema = record { required = []; violations = λ d. [] };
  tests_schema = record { required = []; violations = λ d. [] };
  run_checks = λ p t. [];
}

abbrev gate : Bool → GateResult String
gate b = record { passed = b; reasons = []; warnings = [] }

abbrev host : String → Host ℕ ℤ String String ℕ
host reply = record {
  run_llm = λ prompt s. (returned (if eqb s 1 then reply else "done"), suc s);
  run_gate = λ b p t s. (returned (gate (leb 2 s)), s);
  baseline = λ s. (some 7, s);
  preflight = none;
}

abbrev budgets : Budgets
budgets = record { attempts = 3; revisions = 2; repair_turns = 1; rounds = 5 }

abbrev before : World ℕ ℤ String
before = record {
  host = 0;
  store = record {
    port_plan = λ i. if eqb i 0 then some (port "first") else none;
    test_plan = λ i. if eqb i 0 then some tests else none;
  };
  escalations = none;
}

opened : Unit {0}
unfolding integrate review accepted proposed escalation parse_reply has_part contains json_beq
    items_beq fields_beq blocking latest consider_revision guard check_frozen_top check_identity
    check_metric_keys dropped check_tolerance check_smoke check_performance_run check_runs check_run
    entries entries_from check_feature_enable enable_refusals enable_remarks check_host_storage
    check_rejected_alternatives check_alternatives check_alternative check_fidelity check_statuses
    check_status fidelity by_text by_text_from find add_entry set_item set_default index_of
    sorted_set insert_name check_collections check_collection check_entries check_entry check_fields
    is_recorded
opened = tt

abbrev second : InForce ℤ
second = record { port = port "second"; tests = tests; revision = 1 }

abbrev revised_end : Final ℤ
revised_end = record {
  status = "passed";
  attempts = 2;
  in_force = second;
  escalation = none;
  backend_error = none;
}

abbrev after : World ℕ ℤ String
after = record { host = 2; store = commit 1 (port "second") tests before.store; escalations = none }

-- The agent revises the plan after the first attempt.
run_revised :
    integrate reader checks (host "## Plan revision") budgets none before
    ≡ (reports revised_end 1, after)
unfolding opened
run_revised = refl

abbrev claimed : Claim
claimed = record { pointer = "/hooks/0"; reason = "no such file" }

abbrev first : InForce ℤ
first = record { port = port "first"; tests = tests; revision = 0 }

abbrev escalated_end : Final ℤ
escalated_end = record {
  status = "needs_replan";
  attempts = 1;
  in_force = first;
  escalation = some claimed;
  backend_error = none;
}

abbrev entry : Raised String
entry = record {
  claim = claimed;
  attempt = 1;
  plan_revision = 0;
  gate_reasons = [];
  raised_in = "debug turn";
}

abbrev after_escalation : World ℕ ℤ String
after_escalation = record {
  host = 2;
  store = before.store;
  escalations = some (record { body = entry; resolved = "" } ∷ []);
}

-- The agent escalates after the first attempt.
run_escalated :
    integrate reader checks (host "escalate") budgets none before
    ≡ (reports escalated_end 0, after_escalation)
unfolding opened lstrip rstrip record_escalation
run_escalated = refl

abbrev answers : Host ℕ ℤ String String ℕ
answers = host "## Plan revision"

abbrev start_pair : Document × Document
start_pair = (port "first", tests)

started : started_pair reader checks answers budgets none before.store ≡ some start_pair
unfolding load_plans latest
started = refl

integrate-Run_example :
    (let (r, w') = integrate reader checks answers budgets none before in
      Run reader checks answers budgets none before r w')
integrate-Run_example = integrate-Run reader checks answers budgets none before

integrate-guarded_example : blocking (guard (port "first") tests (port "second") tests) ≡ []
integrate-guarded_example =
    integrate-guarded reader checks answers budgets none before start_pair revised_end 1 after
      started run_revised

integrate-judged_example :
    (baseline : ℕ) × (s : ℕ) × (g : GateResult String) × ((some 7) ≡ some baseline)
    × (answers.run_gate baseline (port "second") tests s ≡ (returned g, 2))
    × (g.passed ≡ true)
integrate-judged_example =
    integrate-judged reader checks answers budgets none before revised_end 1 after run_revised refl

integrate-escalations_example :
    ((escalated_end.status ≢ "needs_replan")
      × (some claimed ≡ none)
      × (after_escalation.escalations ≡ none))
    ⊎ ((escalated_end.status ≡ "needs_replan")
        × ((x : Raised String) × (some claimed ≡ some x.claim)
            × (x.attempt ≡ 1)
            × (x.plan_revision ≡ 0)
            × (open_escalations after_escalation.escalations
                ≡ open_escalations none ++ record { body = x; resolved = "" } ∷ [])))
integrate-escalations_example =
    integrate-escalations reader checks (host "escalate") budgets none before escalated_end 0
      after_escalation run_escalated

start-IsInStep : IsInStep first before.store
start-IsInStep = record {
  highest = record { earlier = λ i low high. absurd (omega (arith, low, high)); next = refl };
  above = λ i over. ground (arith, over);
  port = refl;
  tests = refl;
}

counted : count 5 before.store ≡ 0
unfolding count_from
counted = refl

first-IsInStep :
    IsInStep (first_in_force reader checks answers budgets start_pair before.store) before.store
first-IsInStep =
    subst
      (λ (k : ℕ).
        IsInStep (record { port = port "first"; tests = tests; revision = k }) before.store)
      (sym counted) start-IsInStep

integrate-latest_example : latest 5 after.store ≡ (some (port "second"), some tests, 1)
integrate-latest_example =
    integrate-latest reader checks answers budgets none before start_pair revised_end 1 after
      started first-IsInStep (subst (λ (k : ℕ). k ≤ 5) (sym counted) (omega arith)) (omega arith)
      run_revised

integrate-budgets_example :
    (2 ≤ budgets.attempts)
    × (revised_end.status ≡ "failed" → ◌≡◌ {A = ℕ} 2 3)
    × (1 ≡ count 5 before.store + 1)
    × ((◌≡◌ {A = ℕ} 1 0) ⊎ (1 ≤ budgets.revisions))
integrate-budgets_example =
    integrate-budgets reader checks answers budgets none before revised_end 1 after run_revised
