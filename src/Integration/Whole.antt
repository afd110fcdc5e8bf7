-- ===== src/Integration/Whole.antt =====
-- A whole run (loop/adopt_a_paper_loop.py, `integrate`).
use paper_to_pipeline.Base.{◌-◌, ◌≡◌, refl, subst, String, Option, none, some, List, Eq, ap}
use paper_to_pipeline.Base.Json.{Fields}
use paper_to_pipeline.Base.Numbers.{Arith}
use paper_to_pipeline.Revision.Store.{Store, count, Escalation}
use paper_to_pipeline.Planning.Calls.{on_some_ind}
use paper_to_pipeline.Planning.Reply.{Reader}
use paper_to_pipeline.Planning.Review.{Checks}
use paper_to_pipeline.Integration.{
  Host, Budgets, Raised, World, InForce, Final, Integrated, exits, reports, started_pair,
  run_preflight, run_attempts, integrate,
}
use paper_to_pipeline.Integration.Refines.{Revises, run_attempts-Revises}
use paper_to_pipeline.Integration.Verdict.{Outcome, run_attempts-Outcome}

module _ {S A M N B : Type 0} ⦃e : Eq A⦄ ⦃n : Arith A⦄ (reader : Reader (Fields A))
    (checks : Checks A M) (host : Host S A M N B) (budgets : Budgets) where
  -- The pair that a run starts from.
  abbrev pub first_in_force : Fields A × Fields A → Store (Fields A) → InForce A
  first_in_force pair store = record {
    port = pair.0;
    tests = pair.1;
    revision = count budgets.rounds store;
  }

  -- The runs: without a plan, without a recorded baseline or with a preflight that objects, nothing
  -- beside the plan changes; else the attempts revise the plan and end.
  pub data Run (given : Option (Fields A × Fields A)) (w : World S A N)
      : Integrated A → World S A N → Type 0 where
    no_plan :
        started_pair reader checks host budgets given w.store ≡ none
        → Run given w (exits "no plan") w
    no_baseline :
        {pair : Fields A × Fields A} {s : S}
        → started_pair reader checks host budgets given w.store ≡ some pair
        → host.baseline w.host ≡ (none, s)
        → Run given w (exits "no recorded baseline") (record w { host = s })
    stopped :
        {pair : Fields A × Fields A} {b : B} {s : S} {text : String}
        → started_pair reader checks host budgets given w.store ≡ some pair
        → host.baseline w.host ≡ (some b, s)
        → (run_preflight reader checks host budgets b pair.1 (record w { host = s })).0 ≡ some text
        → Run given w
            (exits text)
            (run_preflight reader checks host budgets b pair.1 (record w { host = s })).1
    ran :
        {pair : Fields A × Fields A} {b : B} {s : S} {final : Final A} {w' : World S A N}
        → started_pair reader checks host budgets given w.store ≡ some pair
        → host.baseline w.host ≡ (some b, s)
        → (run_preflight reader checks host budgets b pair.1 (record w { host = s })).0 ≡ none
        → Revises reader checks budgets.revisions
            (first_in_force pair w.store)
            w.store
            final.in_force
            w'.store
        → Outcome reader checks host budgets b w.escalations final w'
        → Run given w (reports final (final.in_force.revision - count budgets.rounds w.store)) w'

  -- The preflight leaves the plan files and the escalations as they are.
  run_preflight_kept :
      (b : B) (tests : Fields A) (w : World S A N)
      → (let w' = (run_preflight reader checks host budgets b tests w).1 in
          (w'.store ≡ w.store) × (w'.escalations ≡ w.escalations))
  run_preflight_kept b tests w =
      on_some_ind
        (λ (r : Option String × World S A N).
          (r.1.store ≡ w.store) × (r.1.escalations ≡ w.escalations))
        host.preflight _ _ (λ _. (refl, refl)) (λ preflight _. (refl, refl))

  -- The attempts of a world that the preflight has left as it was.
  attempts_ran :
      (b : B) (p : InForce A) (w : World S A N) (store : Store (Fields A))
      (before : Option (List (Escalation (Raised N))))
      → w.store ≡ store
      → w.escalations ≡ before
      → (let (final, w') = run_attempts reader checks host budgets b p w in
          Revises reader checks budgets.revisions p store final.in_force w'.store
          × Outcome reader checks host budgets b before final w')
  attempts_ran b p w store before same kept =
      let (final, w') = run_attempts reader checks host budgets b p w in
      (
        subst
            (λ (x : Store (Fields A)).
              Revises reader checks budgets.revisions p x final.in_force w'.store)
            same (run_attempts-Revises reader checks host budgets b p w),
        subst
            (λ (x : Option (List (Escalation (Raised N)))).
              Outcome reader checks host budgets b x final w')
            kept (run_attempts-Outcome reader checks host budgets b p w),
      )

  abbrev Runs : Option (Fields A × Fields A) → World S A N → Integrated A × World S A N → Type 0
  Runs given w (r, w') = Run given w r w'

  -- Every call of `integrate` is a run, whatever the agent and the host answer: without a plan it
  -- exits and changes nothing; without a recorded baseline, or with a preflight that objects, it exits
  -- and changes the host only; else the plan changes by acceptable revisions within the budget, the
  -- attempts end in one of the four ways of `Outcome`, and the revisions that it earned are reported.
  pub integrate-Run :
      (given : Option (Fields A × Fields A)) (w : World S A N)
      → (let (r, w') = integrate reader checks host budgets given w in Run given w r w')
  unfolding integrate
  integrate-Run given w =
      on_some_ind (Runs given w) (started_pair reader checks host budgets given w.store) _ _ no_plan
        λ pair here.
          let (baseline, s) = host.baseline w.host in
          on_some_ind (Runs given w) baseline _ _ (λ gone. no_baseline here (ap (λ x. (x, s)) gone))
            λ b recorded.
              let w1 : World S A N = record w { host = s } in
              let (message, w2) = run_preflight reader checks host budgets b pair.1 w1 in
              let (stored, raised) = run_preflight_kept b pair.1 w1 in
              on_some_ind (Runs given w) message _ _
                (λ silent.
                  let p = first_in_force pair w.store in
                  let (revises, ends) = attempts_ran b p w2 w.store w.escalations stored raised in
                  let (final, w3) = run_attempts reader checks host budgets b p w2 in
                  ran {final = final} {w' = w3} here (ap (λ x. (x, s)) recorded) silent revises
                    ends)
                (λ text said. stopped here (ap (λ x. (x, s)) recorded) said)
