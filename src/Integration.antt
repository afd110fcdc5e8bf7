-- ===== src/Integration.antt =====
-- Stage 3 (loop/adopt_a_paper_loop.py, `load_plans`, `_consider_revision`, `integrate`): the agent
-- ports, the gate judges, and between two attempts the agent may revise the plan pair or escalate.
-- The agent's backend and the host are parameters over a world `S`. A call that raises an
-- `Exception` gives `raised`; the artifacts that `dump` writes and the printed lines are left out.
pub mod Invariant
pub mod Refines
pub mod Whole
pub mod Promises
pub mod Verdict
pub mod Disk
mod Tests
use paper_to_pipeline.Base.{
  ℕ, zero, suc, ◌+◌, ◌-◌, String, Bool, true, false, Option, none, some, List, [], ◌∷◌, Eq, leb,
  not, ◌&&◌, if◌then◌else◌,
}
use paper_to_pipeline.Base.Json.{Fields}
use paper_to_pipeline.Base.Numbers.{Arith}
use paper_to_pipeline.Gate.{Reported, GateResult}
use paper_to_pipeline.Revision.Store.{
  Store, exists, count, latest, commit, Escalation, record_escalation,
}
use paper_to_pipeline.Planning.Calls.{Called, on_call, on_some, raised, returned}
use paper_to_pipeline.Planning.Reply.{Reader, ReplyError, Claim, proposed, escalation}
use paper_to_pipeline.Planning.Review.{Findings, Checks, Reviewed, review, accepted}

-- What the agent is told.
pub data Prompt (A M N : Type 0) : Type 0 where
  start : (port tests : Fields A) → Prompt A M N
  debug : GateResult N → (attempt : ℕ) → Prompt A M N
  repair : List ReplyError → Findings A M → Prompt A M N
  budget_spent : (budget : ℕ) → Prompt A M N

-- The backend (`run_llm`), the gate (`HostAdapter.run_gate` at the recorded baseline), the recorded
-- baseline, and the preflight, which stops the job with a message.
pub record Host (S A M N B : Type 0) : Type 0 where
  pub run_llm : Prompt A M N → S → Called String × S
  pub run_gate : B → (port tests : Fields A) → S → Called (GateResult N) × S
  pub baseline : S → Option B × S
  pub preflight : Option (B → (tests : Fields A) → S → Option String × S)

-- `NUM_INTEGRATION_ATTEMPTS`, `PLAN_REVISIONS` and `PLAN_REPAIR_TURNS`, and the rounds allowed to
-- the search for the latest revision.
pub record Budgets : Type 0 where
  pub attempts : ℕ
  pub revisions : ℕ
  pub repair_turns : ℕ
  pub rounds : ℕ

-- The record that is kept of an escalation.
pub record Raised (N : Type 0) : Type 0 where
  pub claim : Claim
  pub attempt : ℕ
  pub plan_revision : ℕ
  pub gate_reasons : List (Reported N)
  pub raised_in : String

pub record World (S A N : Type 0) : Type 0 where
  pub host : S
  pub store : Store (Fields A)
  pub escalations : Option (List (Escalation (Raised N)))

-- The pair in force and its revision.
pub record InForce (A : Type 0) : Type 0 where
  pub port : Fields A
  pub tests : Fields A
  pub revision : ℕ

-- The local variables from which the result is built.
pub record Final (A : Type 0) : Type 0 where
  pub status : String
  pub attempts : ℕ
  pub in_force : InForce A
  pub escalation : Option Claim
  pub backend_error : Option String

-- `SystemExit`, or the result with `plan_revisions`.
pub data Integrated (A : Type 0) : Type 0 where
  exits : (message : String) → Integrated A
  reports : Final A → (plan_revisions : ℕ) → Integrated A

module _ {S A M N B : Type 0} ⦃e : Eq A⦄ ⦃n : Arith A⦄ (reader : Reader (Fields A))
    (checks : Checks A M) (host : Host S A M N B) (budgets : Budgets) where
  abbrev pub ask : Prompt A M N → World S A N → Called String × World S A N
  ask prompt w = let (answer, s) = host.run_llm prompt w.host in (answer, record w { host = s })

  -- `plan_revision.commit`, and the pair that is in force after it.
  abbrev pub commit_pair :
      InForce A
      → Fields A × Fields A
      → World S A N
      → Called (InForce A × Option Claim) × World S A N
  commit_pair p (port, tests) w = (
    returned (record { port = port; tests = tests; revision = suc p.revision }, none),
    record w { store = commit (suc p.revision) port tests w.store },
  )

  -- The turns of the review from a reply on, with `left` repair turns to spend.
  unfoldable pub review_turns :
      (left : ℕ) (reply : String)
      → InForce A
      → World S A N
      → Called (InForce A × Option Claim) × World S A N
  review_turns zero reply p w =
      on_some (accepted (review reader checks p.port p.tests reply)) (returned (p, none), w)
        (λ pair. commit_pair p pair w)
  review_turns (suc left) reply p w =
      let reviewed = review reader checks p.port p.tests reply in
      on_some (accepted reviewed)
        (on_call (ask (repair reviewed.errors reviewed.findings) w) (λ error w'. (raised error, w'))
          λ answer w'.
            on_some (escalation reader answer)
              (if not (proposed reader answer)
                then (returned (p, none), w')
                else review_turns left answer p w')
              (λ claim. (returned (p, some claim), w')))
        (λ pair. commit_pair p pair w)

  unfoldable pub consider_revision :
      (reply : String) → InForce A → World S A N → Called (InForce A × Option Claim) × World S A N
  unfolding review_turns
  consider_revision reply p w =
      if not (proposed reader reply)
      then (returned (p, none), w)
      else if leb budgets.revisions p.revision
      then on_call (ask (budget_spent budgets.revisions) w) (λ error w'. (raised error, w'))
          (λ _ w'. (returned (p, none), w'))
      else review_turns budgets.repair_turns reply p w

  -- The end of a run.
  abbrev pub fails_backend : (attempts : ℕ) → InForce A → String → Final A
  fails_backend attempts p error = record {
    status = "backend_error";
    attempts = attempts;
    in_force = p;
    escalation = none;
    backend_error = some error;
  }

  abbrev pub fail_with : (attempts : ℕ) → InForce A → String → World S A N → Final A × World S A N
  fail_with attempts p error w = (fails_backend attempts p error, w)

  abbrev pub ends : (status : String) (attempts : ℕ) → InForce A → Final A
  ends status attempts p = record {
    status = status;
    attempts = attempts;
    in_force = p;
    escalation = none;
    backend_error = none;
  }

  -- `status = "needs_replan"`, with the escalation recorded beside the plan.
  abbrev pub escalate :
      (raised_in : String) (attempts : ℕ)
      → InForce A
      → GateResult N
      → Claim
      → World S A N
      → Final A × World S A N
  escalate raised_in attempts p g claim w = (
    record {
      status = "needs_replan";
      attempts = attempts;
      in_force = p;
      escalation = some claim;
      backend_error = none;
    },
    record w {
      escalations =
          record_escalation
            (record {
              body = record {
                claim = claim;
                attempt = attempts;
                plan_revision = p.revision;
                gate_reasons = g.reasons;
                raised_in = raised_in;
              };
              resolved = "";
            })
            w.escalations;
    },
  )

  abbrev pub run_gate : B → InForce A → World S A N → Called (GateResult N) × World S A N
  run_gate baseline p w =
      let (answer, s) = host.run_gate baseline p.port p.tests w.host in
      (answer, record w { host = s })

  -- The attempts from `attempt` on, `left` of them.
  unfoldable pub attempt_loop :
      B → (left attempt : ℕ) → InForce A → World S A N → Final A × World S A N
  attempt_loop baseline zero attempt p w = (ends "failed" attempt p, w)
  attempt_loop baseline (suc left) attempt p w =
      on_call (run_gate baseline p w) (fail_with (suc attempt) p) λ g w1.
        if g.passed
        then (ends "passed" (suc attempt) p, w1)
        else on_call (ask (debug g (suc attempt)) w1) (fail_with (suc attempt) p) λ reply w2.
          on_some (escalation reader reply)
            (on_call (consider_revision reply p w2) (fail_with (suc attempt) p) λ considered w3.
              on_some considered.1 (attempt_loop baseline left (suc attempt) considered.0 w3)
                (λ claim.
                  escalate "plan revision repair turn" (suc attempt) considered.0 g claim w3))
            (λ claim. escalate "debug turn" (suc attempt) p g claim w2)

  -- The `try` block.
  unfoldable pub run_attempts : B → InForce A → World S A N → Final A × World S A N
  unfolding attempt_loop
  run_attempts baseline p w =
      on_call (ask (start p.port p.tests) w) (fail_with 0 p)
        (λ _ w'. attempt_loop baseline budgets.attempts 0 p w')

  -- `load_plans`, where stage 2's pair is there.
  unfoldable pub load_plans : Store (Fields A) → Option (Fields A × Fields A)
  load_plans store =
      let (port, tests, _) = latest budgets.rounds store in
      if not (exists (store.port_plan 0) && exists (store.test_plan 0))
      then none
      else on_some port none λ p. on_some tests none λ t. some (p, t)

  abbrev pub started_pair :
      Option (Fields A × Fields A) → Store (Fields A) → Option (Fields A × Fields A)
  started_pair given store = on_some given (load_plans store) (λ pair. some pair)

  -- `if adapter.preflight is not None`
  abbrev pub run_preflight : B → (tests : Fields A) → World S A N → Option String × World S A N
  run_preflight baseline tests w =
      on_some host.preflight (none, w)
        λ preflight.
          let (message, s) = preflight baseline tests w.host in (message, record w { host = s })

  -- A run over the pair that the caller hands over, or over the pair on disk.
  unfoldable pub integrate : Option (Fields A × Fields A) → World S A N → Integrated A × World S A N
  unfolding run_attempts load_plans
  integrate given w =
      on_some (started_pair given w.store) (exits "no plan", w)
        λ pair.
          let revision = count budgets.rounds w.store in
          let (baseline, s) = host.baseline w.host in
          let w1 = record w { host = s } in
          on_some baseline (exits "no recorded baseline", w1)
            λ b.
              let (message, w2) = run_preflight b pair.1 w1 in
              on_some message
                (let p : InForce A = record {
                  port = pair.0;
                  tests = pair.1;
                  revision = revision;
                } in
                  let (final, w3) = run_attempts b p w2 in
                  (reports final (final.in_force.revision - revision), w3))
                (λ text. (exits text, w2))
