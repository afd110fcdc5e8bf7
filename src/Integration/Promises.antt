-- ===== src/Integration/Promises.antt =====
-- What the result of a run tells (loop/adopt_a_paper_loop.py, `integrate`).
use paper_to_pipeline.Base.{
  ℕ, ◌+◌, ◌-◌, ◌≤◌, ◌≡◌, sym, ◌∙◌, subst, ◌⊎◌, ◌≢◌, true, Option, none, some, [], ◌∷◌, ◌++◌, Eq,
  arith, ap,
}
use mathlib.Core.Option.{some-injective}
use paper_to_pipeline.Base.Json.{Fields}
use paper_to_pipeline.Base.Numbers.{Arith}
use paper_to_pipeline.Gate.{GateResult}
use paper_to_pipeline.Findings.{blocking}
use paper_to_pipeline.Revision.Guard.{guard}
use paper_to_pipeline.Revision.Store.{count, latest, open_escalations}
use paper_to_pipeline.Planning.Calls.{returned}
use paper_to_pipeline.Planning.Reply.{Reader}
use paper_to_pipeline.Planning.Review.{Checks}
use paper_to_pipeline.Integration.{
  Host, Budgets, Raised, World, Final, Integrated, reports, started_pair, integrate,
}
use paper_to_pipeline.Integration.Refines.{Revises, Revises-guard, Revises-budget}
use paper_to_pipeline.Integration.Verdict.{
  Outcome, passed_judged, escalations_after, attempts_bound,
}
use paper_to_pipeline.Integration.Disk.{IsInStep, Revises-IsInStep, latest-IsInStep}
use paper_to_pipeline.Integration.Whole.{
  Run, no_plan, no_baseline, stopped, ran, first_in_force, integrate-Run,
}

module _ {S A M N B : Type 0} ⦃e : Eq A⦄ ⦃n : Arith A⦄ (reader : Reader (Fields A))
    (checks : Checks A M) (host : Host S A M N B) (budgets : Budgets) where
  record IsReport (given : Option (Fields A × Fields A)) (w : World S A N) (final : Final A)
      (plan_revisions : ℕ) (w' : World S A N) : Type 0 where
    pair : Fields A × Fields A
    baseline : B
    host_after : S
    started : started_pair reader checks host budgets given w.store ≡ some pair
    recorded : host.baseline w.host ≡ (some baseline, host_after)
    revises :
        Revises reader checks budgets.revisions
          (first_in_force reader checks host budgets pair w.store)
          w.store
          final.in_force
          w'.store
    outcome : Outcome reader checks host budgets baseline w.escalations final w'
    counted : plan_revisions ≡ final.in_force.revision - count budgets.rounds w.store

  IsReport-Run :
      (given : Option (Fields A × Fields A)) (w : World S A N) (final : Final A) (k : ℕ)
      (r : Integrated A) (w' : World S A N)
      → Run reader checks host budgets given w r w'
      → r ≡ reports final k
      → IsReport given w final k w'
  IsReport-Run given w final k r w' (no_plan gone) same = cc
  IsReport-Run given w final k r w' (no_baseline here gone) same = cc
  IsReport-Run given w final k r w' (stopped here there said) same = cc
  IsReport-Run given w final k r w'
        (ran {pair = pair} {b = b} {s = s} {final = f} here there silent revises outcome) same =
      let e : f ≡ final = cc in
      let counted : (f.in_force.revision - count budgets.rounds w.store) ≡ k = cc in
      record {
        pair = pair;
        baseline = b;
        host_after = s;
        started = here;
        recorded = there;
        revises =
            subst
              (λ (x : Final A).
                Revises reader checks budgets.revisions
                  (first_in_force reader checks host budgets pair w.store) w.store x.in_force
                  w'.store)
              e revises;
        outcome =
            subst (λ (x : Final A). Outcome reader checks host budgets b w.escalations x w') e
              outcome;
        counted =
            sym counted
            ∙ ap (λ (x : Final A). x.in_force.revision - count budgets.rounds w.store) e;
      }

  is_report :
      (given : Option (Fields A × Fields A)) (w : World S A N) (final : Final A) (k : ℕ)
      (w' : World S A N)
      → integrate reader checks host budgets given w ≡ (reports final k, w')
      → IsReport given w final k w'
  is_report given w final k w' h =
      subst (λ (x : World S A N). IsReport given w final k x) (ap (λ x. x.1) h)
        (IsReport-Run given w final k _ _ (integrate-Run reader checks host budgets given w)
          (ap (λ x. x.0) h))

  -- Whatever the agent and the host answer, the guard refuses nothing from the pair that the run
  -- starts from to the pair that it ends with.
  pub integrate-guarded :
      (given : Option (Fields A × Fields A)) (w : World S A N) (pair : Fields A × Fields A)
      (final : Final A) (k : ℕ) (w' : World S A N)
      → started_pair reader checks host budgets given w.store ≡ some pair
      → integrate reader checks host budgets given w ≡ (reports final k, w')
      → blocking (guard pair.0 pair.1 final.in_force.port final.in_force.tests) ≡ []
  integrate-guarded given w pair final k w' started h =
      let r = is_report given w final k w' h in
      let same : r.pair ≡ pair = some-injective _ _ (sym r.started ∙ started) in
      subst
        (λ (x : Fields A × Fields A).
          blocking (guard x.0 x.1 final.in_force.port final.in_force.tests) ≡ [])
        same (Revises-guard reader checks budgets.revisions _ _ _ _ r.revises)

  -- A run that reports "passed" has judged the pair that is in force at its end: its last call was
  -- the gate at this pair, with the recorded baseline, and the gate passed.
  pub integrate-judged :
      (given : Option (Fields A × Fields A)) (w : World S A N) (final : Final A) (k : ℕ)
      (w' : World S A N)
      → integrate reader checks host budgets given w ≡ (reports final k, w')
      → final.status ≡ "passed"
      → (baseline : B) × (s : S) × (g : GateResult N) × ((host.baseline w.host).0 ≡ some baseline)
        × (host.run_gate baseline final.in_force.port final.in_force.tests s
            ≡ (returned g, w'.host))
        × (g.passed ≡ true)
  integrate-judged given w final k w' h passes =
      let r = is_report given w final k w' h in
      let (s, g, judged, good) =
        passed_judged reader checks host budgets r.baseline w.escalations final w' r.outcome
          passes in
      (r.baseline, s, g, ap (λ x. x.0) r.recorded, judged, good)

  -- A run that reports "needs_replan" leaves exactly one more open escalation, which holds the
  -- reported claim, the attempt and the revision; any other leaves the escalations as they were.
  pub integrate-escalations :
      (given : Option (Fields A × Fields A)) (w : World S A N) (final : Final A) (k : ℕ)
      (w' : World S A N)
      → integrate reader checks host budgets given w ≡ (reports final k, w')
      → ((final.status ≢ "needs_replan")
          × (final.escalation ≡ none)
          × (w'.escalations ≡ w.escalations))
        ⊎ ((final.status ≡ "needs_replan")
            × ((entry : Raised N) × (final.escalation ≡ some entry.claim)
                × (entry.attempt ≡ final.attempts)
                × (entry.plan_revision ≡ final.in_force.revision)
                × (open_escalations w'.escalations
                    ≡ open_escalations w.escalations
                      ++ record { body = entry; resolved = "" } ∷ [])))
  integrate-escalations given w final k w' h =
      let r = is_report given w final k w' h in
      escalations_after reader checks host budgets r.baseline w.escalations final w' r.outcome

  -- Where the files hold the pair that the run starts from as the highest revision and none above
  -- it, and the rounds of the search reach the start and the budget: `latest` reads the pair that is
  -- in force at the end.
  pub integrate-latest :
      (given : Option (Fields A × Fields A)) (w : World S A N) (pair : Fields A × Fields A)
      (final : Final A) (k : ℕ) (w' : World S A N)
      → started_pair reader checks host budgets given w.store ≡ some pair
      → IsInStep (first_in_force reader checks host budgets pair w.store) w.store
      → count budgets.rounds w.store ≤ budgets.rounds
      → budgets.revisions ≤ budgets.rounds
      → integrate reader checks host budgets given w ≡ (reports final k, w')
      → latest budgets.rounds w'.store
        ≡ (some final.in_force.port, some final.in_force.tests, final.in_force.revision)
  integrate-latest given w pair final k w' started in_step found enough h =
      let r = is_report given w final k w' h in
      let same : pair ≡ r.pair = some-injective _ _ (sym started ∙ r.started) in
      let first =
        subst
          (λ (x : Fields A × Fields A).
            IsInStep (first_in_force reader checks host budgets x w.store) w.store)
          same in_step in
      let (_, within) = Revises-budget reader checks budgets.revisions _ _ _ _ r.revises in
      latest-IsInStep budgets.rounds final.in_force w'.store
        (Revises-IsInStep reader checks budgets.revisions _ _ _ _ r.revises first)
        (ground (arith, within, found, enough))

  -- The attempts are within the budget, and "failed" means that all are spent. The pair in force at
  -- the end has the number that the run starts with plus `plan_revisions`, which is 0 or leads to a
  -- number within the budget of revisions.
  pub integrate-budgets :
      (given : Option (Fields A × Fields A)) (w : World S A N) (final : Final A) (k : ℕ)
      (w' : World S A N)
      → integrate reader checks host budgets given w ≡ (reports final k, w')
      → (final.attempts ≤ budgets.attempts)
        × (final.status ≡ "failed" → final.attempts ≡ budgets.attempts)
        × (final.in_force.revision ≡ count budgets.rounds w.store + k)
        × ((k ≡ 0) ⊎ (final.in_force.revision ≤ budgets.revisions))
  integrate-budgets given w final k w' h =
      let r = is_report given w final k w' h in
      let (up, within) = Revises-budget reader checks budgets.revisions _ _ _ _ r.revises in
      let (tried, spent) =
        attempts_bound reader checks host budgets r.baseline w.escalations final w' r.outcome in
      (tried, spent, omega (arith, up, r.counted), ground (arith, up, within, r.counted))
