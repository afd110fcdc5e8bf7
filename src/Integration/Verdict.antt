-- ===== src/Integration/Verdict.antt =====
-- How a run ends (loop/adopt_a_paper_loop.py, `integrate`): its status, its attempts, and what is
-- written beside the plan.
use paper_to_pipeline.Base.{
  if_ind, ℕ, zero, suc, ◌+◌, ◌≤◌, ◌≡◌, refl, String, Bool, true, false, Option, none, some, List,
  [], Eq, arith, ◌==◌, string_eq, ==_iff, ◌++◌, ◌∷◌, keep, inl, inr, ◌⊎◌, ◌≢◌, ap, ◌∙◌,
}
use paper_to_pipeline.Base.Json.{Fields}
use paper_to_pipeline.Base.Numbers.{Arith}
use paper_to_pipeline.Gate.{GateResult}
use paper_to_pipeline.Revision.Store.{
  Escalation, open_escalations, record_escalation, is_open, entries_of,
}
use paper_to_pipeline.Planning.Calls.{on_call_ind, on_some_ind, returned}
use paper_to_pipeline.Planning.Reply.{Reader, Claim, escalation}
use paper_to_pipeline.Planning.Review.{Checks}
use paper_to_pipeline.Integration.{
  Host, Budgets, Raised, World, InForce, Final, ask, run_gate, ends, fails_backend, escalate,
  consider_revision, attempt_loop, run_attempts, start, debug,
}
use paper_to_pipeline.Integration.Invariant.{IsTurnKept, considered_ind, consider-Considered}

clash : (s t : String) → s ≡ t → (s == t) ≡ false → ⊥
clash s t h differs = cc (differs, (==_iff s t).1 h)

module _ {X : Type 0} where
  keep-append : (p : X → Bool) (xs ys : List X) → keep p (xs ++ ys) ≡ keep p xs ++ keep p ys
  keep-append p [] ys = refl
  keep-append p (x ∷ xs) ys = ground (arith, keep-append p xs ys)

module _ {X : Type 0} where
  -- A recorded escalation is open.
  pub open-record :
      (entry : X) (file : Option (List (Escalation X)))
      → open_escalations (record_escalation (record { body = entry; resolved = "" }) file)
        ≡ open_escalations file ++ record { body = entry; resolved = "" } ∷ []
  unfolding open_escalations record_escalation
  open-record entry file = keep-append is_open (entries_of file) _

module _ {S A M N B : Type 0} ⦃e : Eq A⦄ ⦃n : Arith A⦄ (reader : Reader (Fields A))
    (checks : Checks A M) (host : Host S A M N B) (budgets : Budgets) where
  -- The ends of a run: the last call of all is a gate that passed the pair in force; or every
  -- attempt is spent; or a call raised; or the pair in force failed the gate and an escalation is
  -- recorded.
  pub data Outcome (baseline : B) (before : Option (List (Escalation (Raised N))))
      : Final A → World S A N → Type 0 where
    passed :
        {attempts : ℕ} {p : InForce A} {w : World S A N} (s : S) (g : GateResult N)
        → host.run_gate baseline p.port p.tests s ≡ (returned g, w.host)
        → g.passed ≡ true
        → attempts ≤ budgets.attempts
        → w.escalations ≡ before
        → Outcome baseline before (ends reader checks host budgets "passed" attempts p) w
    exhausted :
        {p : InForce A} {w : World S A N}
        → w.escalations ≡ before
        → Outcome baseline before (ends reader checks host budgets "failed" budgets.attempts p) w
    broke :
        {attempts : ℕ} {p : InForce A} {error : String} {w : World S A N}
        → attempts ≤ budgets.attempts
        → w.escalations ≡ before
        → Outcome baseline before (fails_backend reader checks host budgets attempts p error) w
    escalated :
        {attempts : ℕ} {p : InForce A} {claim : Claim} {w : World S A N} (raised_in : String)
        (g : GateResult N)
        → g.passed ≡ false
        → attempts ≤ budgets.attempts
        → w.escalations ≡ before
        → Outcome baseline before
            (escalate reader checks host budgets raised_in attempts p g claim w).0
            (escalate reader checks host budgets raised_in attempts p g claim w).1

  same_escalations :
      (before : Option (List (Escalation (Raised N))))
      → IsTurnKept reader checks host budgets (λ p w. w.escalations ≡ before)
  same_escalations before = record {
    by_host = λ p w s h. h;
    by_revision = λ p w reply port tests h good room. h;
  }

  abbrev Ends : B → Option (List (Escalation (Raised N))) → Final A × World S A N → Type 0
  Ends baseline before (final, w) = Outcome baseline before final w

  attempt_loop-Outcome :
      (baseline : B) (before : Option (List (Escalation (Raised N)))) (left attempt : ℕ)
      (p : InForce A) (w : World S A N)
      → w.escalations ≡ before
      → left + attempt ≡ budgets.attempts
      → Ends baseline before (attempt_loop reader checks host budgets baseline left attempt p w)
  unfolding attempt_loop
  attempt_loop-Outcome baseline before zero attempt p w h count =
      let same : attempt ≡ budgets.attempts = omega (arith, count) in rw same (exhausted h)
  attempt_loop-Outcome baseline before (suc left) attempt p w h count =
      let (gate, w1) = run_gate reader checks host budgets baseline p w in
      let within : suc attempt ≤ budgets.attempts = omega (arith, count) in
      on_call_ind (Ends baseline before) gate w1 _ _ (λ _ _. broke within h)
        λ g judged.
          if_ind (Ends baseline before) g.passed _ _
            (λ good. passed w.host g (ap (λ x. (x, w1.host)) judged) good within h)
            λ bad.
              let (answer, w2) = ask reader checks host budgets (debug g (suc attempt)) w1 in
              on_call_ind (Ends baseline before) answer w2 _ _ (λ _ _. broke within h)
                λ reply _.
                  on_some_ind (Ends baseline before) (escalation reader reply) _ _
                    (λ _.
                      let (considered, w3) =
                        consider_revision reader checks host budgets reply p w2 in
                      let I = λ (q : InForce A) (w' : World S A N). w'.escalations ≡ before in
                      let h3 =
                        consider-Considered reader checks host budgets I (same_escalations before)
                          reply p w2 h in
                      considered_ind reader checks host budgets I (same_escalations before) p w3
                        considered (Ends baseline before) _ _ h3 (λ _ h4. broke within h4)
                        λ q claim h4.
                          on_some_ind (Ends baseline before) claim _ _
                            (λ _.
                              attempt_loop-Outcome baseline before left (suc attempt) q w3 h4
                                (omega (arith, count)))
                            (λ c _. escalated _ g bad within h4))
                    (λ claim _. escalated _ g bad within h)

  -- A run ends in one of the four ways.
  pub run_attempts-Outcome :
      (baseline : B) (p : InForce A) (w : World S A N)
      → (let (final, w') = run_attempts reader checks host budgets baseline p w in
          Outcome baseline w.escalations final w')
  unfolding run_attempts
  run_attempts-Outcome baseline p w =
      let (answer, w') = ask reader checks host budgets (start p.port p.tests) w in
      on_call_ind (Ends baseline w.escalations) answer w' _ _ (λ _ _. broke (omega arith) refl)
        λ _ _.
          attempt_loop-Outcome baseline w.escalations budgets.attempts 0 p w' refl (omega arith)

  -- What `status = "passed"` tells.
  pub passed_judged :
      (baseline : B) (before : Option (List (Escalation (Raised N)))) (final : Final A)
      (w : World S A N)
      → Outcome baseline before final w
      → final.status ≡ "passed"
      → (s : S) × (g : GateResult N) × (host.run_gate baseline final.in_force.port
            final.in_force.tests s
          ≡ (returned g, w.host))
        × (g.passed ≡ true)
  passed_judged baseline before final w (passed s g judged good within same) h =
      (s, g, judged, good)
  passed_judged baseline before final w (exhausted same) h = absurd (clash "failed" "passed" h refl)
  passed_judged baseline before final w (broke within same) h =
      absurd (clash "backend_error" "passed" h refl)
  passed_judged baseline before final w (escalated raised_in g bad within same) h =
      absurd (clash "needs_replan" "passed" h refl)

  -- What is left of the escalations.
  pub escalations_after :
      (baseline : B) (before : Option (List (Escalation (Raised N)))) (final : Final A)
      (w : World S A N)
      → Outcome baseline before final w
      → ((final.status ≢ "needs_replan") × (final.escalation ≡ none) × (w.escalations ≡ before))
        ⊎ ((final.status ≡ "needs_replan")
            × ((entry : Raised N) × (final.escalation ≡ some entry.claim)
                × (entry.attempt ≡ final.attempts)
                × (entry.plan_revision ≡ final.in_force.revision)
                × (open_escalations w.escalations
                    ≡ open_escalations before ++ record { body = entry; resolved = "" } ∷ [])))
  escalations_after baseline before final w (passed s g judged good within same) =
      inl (λ h. clash "passed" "needs_replan" h refl, refl, same)
  escalations_after baseline before final w (exhausted same) =
      inl (λ h. clash "failed" "needs_replan" h refl, refl, same)
  escalations_after baseline before final w (broke within same) =
      inl (λ h. clash "backend_error" "needs_replan" h refl, refl, same)
  escalations_after baseline before final w
        (escalated {attempts = k} {p = p} {claim = claim} {w = w0} raised_in g bad within same) =
      let entry : Raised N = record {
        claim = claim;
        attempt = k;
        plan_revision = p.revision;
        gate_reasons = g.reasons;
        raised_in = raised_in;
      } in
      let added =
        ap (λ x. open_escalations (record_escalation (record { body = entry; resolved = "" }) x))
          same in
      inr (refl, (entry, refl, refl, refl, added ∙ open-record entry before))

  pub attempts_bound :
      (baseline : B) (before : Option (List (Escalation (Raised N)))) (final : Final A)
      (w : World S A N)
      → Outcome baseline before final w
      → (final.attempts ≤ budgets.attempts)
        × (final.status ≡ "failed" → final.attempts ≡ budgets.attempts)
  attempts_bound baseline before final w (passed s g judged good within same) =
      (within, λ h. absurd (clash "passed" "failed" h refl))
  attempts_bound baseline before final w (exhausted same) = (omega arith, λ h. refl)
  attempts_bound baseline before final w (broke within same) =
      (within, λ h. absurd (clash "backend_error" "failed" h refl))
  attempts_bound baseline before final w (escalated raised_in g bad within same) =
      (within, λ h. absurd (clash "needs_replan" "failed" h refl))
