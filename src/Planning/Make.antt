-- ===== src/Planning/Make.antt =====
-- Stage 2 (loop/plan_node.py, `make_plan`, `_checks`, `_blocking`): a plan pair is asked for,
-- checked and repaired, and written with what an earlier plan left behind put away. The artifacts
-- that `dump` writes are left out. A document is `none` where Python's is `None`.
pub mod Settled
mod Tests
use paper_to_pipeline.Base.{
  ℕ, zero, suc, String, Bool, true, false, Option, none, some, List, [], ◌∷◌, ◌++◌, map, Eq, not,
  ◌&&◌, is_empty, if◌then◌else◌,
}
use paper_to_pipeline.Base.Json.{Json, Fields, str, json_beq}
use paper_to_pipeline.Base.Numbers.{Arith}
use paper_to_pipeline.Findings.{Finding, blocking}
use paper_to_pipeline.Revision.Documents.{value}
use paper_to_pipeline.Revision.Guard.{Segment, name}
use paper_to_pipeline.Revision.Store.{
  Store, commit, retire, Escalation, open_escalations, clear_escalations,
}
use paper_to_pipeline.Planning.Calls.{Called, on_call, raised, returned}
use paper_to_pipeline.Planning.Reply.{Reader, ReplyError, parse_reply}
use paper_to_pipeline.Planning.Review.{Remark, Checks}

-- A message of the plan checks, or `revision_not_measured`.
pub data PlanRemark (A M : Type 0) : Type 0 where
  of_plan_checks : Remark A M → PlanRemark A M
  not_measured : (recorded : Json A) (revision : String) → PlanRemark A M

abbrev pub PlanFindings : Type 0 → Type 0 → Type 0
PlanFindings A M = List (Finding (List (Segment A)) (PlanRemark A M))

-- A pair as it came out of a reply.
pub record Draft (A M : Type 0) : Type 0 where
  pub port : Option (Fields A)
  pub tests : Option (Fields A)
  pub errors : List ReplyError
  pub findings : PlanFindings A M

-- What the planner is told.
pub data PlannerPrompt (A M B : Type 0) : Type 0 where
  plan_port : List (Escalation B) → PlannerPrompt A M B
  repair_plan : List ReplyError → PlanFindings A M → PlannerPrompt A M B

-- `C.PLAN_REPAIR_TURNS`, `C.PLAN_ALLOW_GAPS`, `dump.prefix`, the checkout's commit, and the rounds
-- allowed to `retire`.
pub record Settings : Type 0 where
  pub turns : ℕ
  pub allow_gaps : Bool
  pub stamp : String
  pub revision : Option String
  pub rounds : ℕ

pub record Desk (S A B : Type 0) : Type 0 where
  pub agent : S
  pub store : Store (Option (Fields A))
  pub escalations : Option (List (Escalation B))

-- An exception of the backend, `SystemExit`, or the pair that is written.
pub data Made (A M : Type 0) : Type 0 where
  crashes : (error : String) → Made A M
  refuses : List ReplyError → PlanFindings A M → Made A M
  writes : (port tests : Option (Fields A)) → Made A M

module _ {A M : Type 0} where
  abbrev pub with_plan_remark :
      Finding (List (Segment A)) (Remark A M) → Finding (List (Segment A)) (PlanRemark A M)
  with_plan_remark f = record {
    pointer = f.pointer;
    code = f.code;
    severity = f.severity;
    message = of_plan_checks f.message;
  }

  abbrev pub is_clean : Draft A M → Bool
  is_clean d = is_empty d.errors && is_empty (blocking d.findings)

module _ {A M : Type 0} ⦃e : Eq A⦄ where
  unfoldable pub revision_findings : Option String → (port : Fields A) → PlanFindings A M
  revision_findings none port = []
  revision_findings (some revision) port =
      if not (json_beq (value "host_revision" port) (str revision))
      then record {
        pointer = name "plan" ∷ name "host_revision" ∷ [];
        code = "revision_not_measured";
        severity = "error";
        message = not_measured (value "host_revision" port) revision;
      }
        ∷ []
      else []

  -- `_checks`
  unfoldable pub check_plan :
      Checks A M → Option String → (port tests : Option (Fields A)) → PlanFindings A M
  unfolding revision_findings
  check_plan checks revision (some port) (some tests) =
      map with_plan_remark (checks.run_checks port tests) ++ revision_findings revision port
  check_plan checks revision port tests = []

module _ {S A M B : Type 0} ⦃e : Eq A⦄ (reader : Reader (Fields A)) (checks : Checks A M)
    (run_llm : PlannerPrompt A M B → S → Called String × S) (settings : Settings) where
  unfoldable pub draft_of : String → Draft A M
  unfolding check_plan
  draft_of reply =
      let (port, tests, errors) = parse_reply reader checks.port_schema checks.tests_schema reply in
      record {
        port = port;
        tests = tests;
        errors = errors;
        findings = check_plan checks settings.revision port tests;
      }

  -- The loop over the repair turns, `left` of them.
  unfoldable pub repair_turns : (left : ℕ) → Draft A M → S → Called (Draft A M) × S
  repair_turns zero d s = (returned d, s)
  repair_turns (suc left) d s =
      if is_clean d
      then (returned d, s)
      else on_call (run_llm (repair_plan d.errors d.findings) s) (λ error s'. (raised error, s'))
          (λ reply s'. repair_turns left (draft_of reply) s')

  -- From the verdict on: the pair is refused, or written, the old revisions retired and the open
  -- escalations marked.
  unfoldable pub settle_plan : Draft A M → Desk S A B → Made A M × Desk S A B
  settle_plan d desk =
      if not (is_clean d) && not settings.allow_gaps
      then (refuses d.errors (blocking d.findings), desk)
      else (
        writes d.port d.tests,
        record desk {
          store = (retire settings.rounds (commit 0 d.port d.tests desk.store)).0;
          escalations = (clear_escalations settings.stamp desk.escalations).1;
        },
      )

  unfoldable pub make_plan : Desk S A B → Made A M × Desk S A B
  unfolding repair_turns settle_plan
  make_plan desk =
      on_call (run_llm (plan_port (open_escalations desk.escalations)) desk.agent)
        (λ error s. (crashes error, record desk { agent = s }))
        λ reply s.
          on_call (repair_turns settings.turns (draft_of reply) s)
            (λ error s'. (crashes error, record desk { agent = s' }))
            (λ d s'. settle_plan d (record desk { agent = s' }))
