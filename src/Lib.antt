-- ===== src/Lib.antt =====
-- The verification library of paper-to-pipeline: the part of the pipeline that decides whether a
-- generated port is accepted. Stage 2 writes a port plan and a test plan, and repairs them until they
-- are clean. In stage 3 the plan runner runs the test plan on a host and fills a record of results,
-- which the verify gate judges; between two attempts the integration agent may propose a revision of
-- the pair, which the revision guard compares with the pair in force; when it escalates, the re-plan
-- loop asks stage 2 for a new pair. A reviewed spec is accepted or rejected by comparing the findings
-- before and after. Once a port is accepted, stage 4 searches its parameters: a candidate is a header
-- whose knobs must have legal values, a preflight builds at a second value of each knob, the best
-- candidates run again on other traces, and their comparison with the untuned port and the baseline
-- names the winner.
--
-- Files and the code they model:
--   Base        lists, dictionaries, JSON documents, text and numbers that the parts share; no code
--               of its own
--   Results     the outcome records of loop/plan_runner.py, between the runner and the gate
--   Runner      loop/plan_runner.py: Plan (the test plan and the `HostExecutor`), Pointer
--               (`_resolve`), Conditions (`evaluate_condition`), Measure (`_measure`, `_side_tail`,
--               `_traces_of`, and `load_trace_list` of loop/helpers.py), Performance
--               (`_run_performance`), Run (`run_test_plan` with the cache of `run_once`)
--   Gate        loop/gate.py: `check_gate`, `metric_differences`, `_with_log_tail`
--   Findings    loop/spec_checks.py: `Finding`, `severity_counts`, `new_errors`, `is_worse`, and
--               `blocking` of loop/plan_revision.py
--   Revision    loop/plan_revision.py: `guard` and its checks, and Store (`count`, `latest`, `commit`,
--               `retire` and the escalations)
--   Planning    Calls (a call that may raise), Reply (`parse_reply` of loop/plan_node.py,
--               `validate_json` of loop/helpers.py, `proposed` and `escalation` of
--               loop/plan_revision.py), Review (`review`), Make (`make_plan`, `_checks`)
--   Integration loop/adopt_a_paper_loop.py: `integrate`, `_consider_revision`, `load_plans`, with the
--               agent's backend and the `HostAdapter` as parameters
--   Replan      loop/replan.py: `design_changes`, `integrate_with_replans`
--   Constraints loop/constraints.py: Ranges (`parse_range` of loop/spec_checks.py), Knobs
--               (`range_error`, `is_pinned`, `alternate_value`), Header (`parse_header`,
--               `knob_values`), Formulas (`evaluate`), Storage (`storage_bits`), Static
--               (`check_static`, `check_measured`)
--   Search      loop/dse.py: Header (`params_header`), Preflight (`preflight`), Finalists
--               (`select_finalists`), Scores (`_versus`), Compare (`compare_variants`)
-- Below each, the modules named for what they prove, and Tests with runs and witnesses.
--
-- How the code is read. A stage, the host, `re` and the file system are parameters: records of
-- functions over a world type, threaded through the calls in the source's order. Python's numbers
-- are a type with the operations of `Arith`; a theorem that needs a law of them takes it as a
-- hypothesis (`SignLaws`, `FiniteLaws`, `OrderLaws`), which the integers of Base.Int satisfy. Where the
-- source's `==` has to decide equality it is an instance of `Eq`, so that 1, 1.0 and True are told apart by
-- the type and not by the model. A JSON object lists its fields in the order of their names, so
-- that equality of lists is equality of dicts. A field of the wrong type reads as the default that
-- the source gives a missing one. A message is a value with the parts that its sentence is written
-- from; a message joined from parts is the list of them. `RunMode` and `Condition` have one
-- constructor for each string that the source tells apart.
--
-- Where loop/dse.py reads a metric that a run or a mean may lack, the comparison of variants is an
-- `Option`, `none` being the `KeyError` or `TypeError`. The plan checks are a function of the pair,
-- though the source's also look at the checkout, which does not change while a reply is judged.
--
-- Recursion is structural. The re-plan loop, the attempts and the repair turns recurse on their
-- budgets, the source's own bounds. The loops on fuel are `count` and `retire` of Revision.Store,
-- which pass one revision a round, so that as much fuel as there are revisions is enough.
--
-- Not modelled: loop/llm.py and loop/llm_gateway.py (network calls), the host adapters under hosts/
-- (they run compilers and simulators), `run_dse`, `check_llm` and `promote_finalists` of loop/dse.py
-- (they drive the search and the cluster), the parts of loop/adopt_a_paper_loop.py before and after
-- stage 3 (the distillation, the recording of baselines, the cluster jobs, the command line), and the
-- checks of specs and plans in loop/spec_checks.py and loop/plan_checks.py beyond the comparison of
-- their findings. `KeyError`s on documents that break their schema are not represented, nor are the
-- texts of prompts and the artifacts of a run.
pub mod Base
pub mod Results
pub mod Gate
pub mod Findings
pub mod Revision
pub mod Replan
pub mod Runner
pub mod Constraints
pub mod Planning
pub mod Integration
pub mod Search
