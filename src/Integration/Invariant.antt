-- ===== src/Integration/Invariant.antt =====
-- The invariant rule of a run (loop/adopt_a_paper_loop.py, `_consider_revision`, `integrate`): what
-- the host's calls keep, and an accepted revision keeps, holds when the run ends.
use paper_to_pipeline.Base.{
  if_ind, ℕ, zero, suc, ◌<◌, ◌≡◌, String, Option, some, List, Eq, leb, not, arith,
}
use paper_to_pipeline.Base.Json.{Fields}
use paper_to_pipeline.Base.Numbers.{Arith}
use paper_to_pipeline.Revision.Store.{commit, Escalation}
use paper_to_pipeline.Planning.Calls.{Called, on_call, on_call_ind, on_some_ind, raised, returned}
use paper_to_pipeline.Planning.Reply.{Reader, Claim, proposed, escalation}
use paper_to_pipeline.Planning.Review.{Checks, review, accepted}
use paper_to_pipeline.Planning.Review.Verdict.{IsAcceptable, accepted-IsAcceptable}
use paper_to_pipeline.Integration.{
  Host, Budgets, World, InForce, Final, ask, commit_pair, review_turns, consider_revision, run_gate,
  attempt_loop, run_attempts, Raised, repair, debug, start, budget_spent,
}

module _ {S A M N B : Type 0} ⦃e : Eq A⦄ ⦃n : Arith A⦄ (reader : Reader (Fields A))
    (checks : Checks A M) (host : Host S A M N B) (budgets : Budgets) where
  -- What is kept by the host's calls, and by a revision that is acceptable and within the budget.
  pub record IsTurnKept (I : InForce A → World S A N → Type 0) : Type 0 where
    pub by_host : (p : InForce A) (w : World S A N) (s : S) → I p w → I p (record w { host = s })
    pub by_revision :
        (p : InForce A) (w : World S A N) (reply : String) (port tests : Fields A)
        → I p w
        → IsAcceptable reader checks p.port p.tests reply port tests
        → p.revision < budgets.revisions
        → I
            (record { port = port; tests = tests; revision = suc p.revision })
            (record w { store = commit (suc p.revision) port tests w.store })

  module _ (I : InForce A → World S A N → Type 0) (kept : IsTurnKept I) where
    -- The invariant after a turn that may have raised, which leaves the pair as it was.
    abbrev pub Considered : InForce A → Called (InForce A × Option Claim) × World S A N → Type 0
    Considered p (raised error, w) = I p w
    Considered p (returned (q, claim), w) = I q w

    pub considered_ind :
        {R : Type 0} (p : InForce A) (w : World S A N) (x : Called (InForce A × Option Claim))
        (P : R → Type 0) (f : String → World S A N → R)
        (g : InForce A × Option Claim → World S A N → R)
        → Considered p (x, w)
        → ((error : String) → I p w → P (f error w))
        → ((q : InForce A) (claim : Option Claim) → I q w → P (g (q, claim) w))
        → P (on_call (x, w) f g)
    considered_ind p w (raised error) P f g h failed goes = failed error h
    considered_ind p w (returned (q, claim)) P f g h failed goes = goes q claim h

    commit-Considered :
        (p : InForce A) (w : World S A N) (reply : String) (pair : Fields A × Fields A)
        → I p w
        → p.revision < budgets.revisions
        → accepted (review reader checks p.port p.tests reply) ≡ some pair
        → Considered p (commit_pair reader checks host budgets p pair w)
    commit-Considered p w reply (port, tests) h left a =
        kept.by_revision p w reply port tests h
          ((accepted-IsAcceptable reader checks p.port p.tests reply port tests).0 a) left

    review_turns-Considered :
        (left : ℕ) (reply : String) (p : InForce A) (w : World S A N)
        → I p w
        → p.revision < budgets.revisions
        → Considered p (review_turns reader checks host budgets left reply p w)
    unfolding review_turns
    review_turns-Considered zero reply p w h room =
        on_some_ind (Considered p) (accepted (review reader checks p.port p.tests reply)) _ _
          (λ _. h) (λ pair a. commit-Considered p w reply pair h room a)
    review_turns-Considered (suc left) reply p w h room =
        let reviewed = review reader checks p.port p.tests reply in
        let (answer, w') =
          ask reader checks host budgets (repair reviewed.errors reviewed.findings) w in
        let h' = kept.by_host p w _ h in
        on_some_ind (Considered p) (accepted reviewed) _ _
          (λ _.
            on_call_ind (Considered p) answer w' _ _ (λ error _. h')
              λ text _.
                on_some_ind (Considered p) (escalation reader text) _ _
                  (λ _.
                    if_ind (Considered p) (not (proposed reader text)) _ _ (λ _. h')
                      λ _. review_turns-Considered left text p w' h' room)
                  (λ claim _. h'))
          (λ pair a. commit-Considered p w reply pair h room a)

    pub consider-Considered :
        (reply : String) (p : InForce A) (w : World S A N)
        → I p w
        → Considered p (consider_revision reader checks host budgets reply p w)
    unfolding consider_revision
    consider-Considered reply p w h =
        if_ind (Considered p) (not (proposed reader reply)) _ _ (λ _. h)
          λ _.
            if_ind (Considered p) (leb budgets.revisions p.revision) _ _
              (λ _.
                let (answer, w') =
                  ask reader checks host budgets (budget_spent budgets.revisions) w in
                let h' = kept.by_host p w _ h in
                on_call_ind (Considered p) answer w' _ _ (λ _ _. h') (λ _ _. h'))
              λ room.
                review_turns-Considered budgets.repair_turns reply p w h (ground (arith, room))

  module _ (I : InForce A → World S A N → Type 0) (kept : IsTurnKept I)
      (by_escalation : (p : InForce A) (w : World S A N) (x : Option (List (Escalation (Raised N))))
        → I p w
        → I p (record w { escalations = x })) where
    abbrev Ended : Final A × World S A N → Type 0
    Ended (final, w) = I final.in_force w

    attempt_loop-Ended :
        (baseline : B) (left attempt : ℕ) (p : InForce A) (w : World S A N)
        → I p w
        → Ended (attempt_loop reader checks host budgets baseline left attempt p w)
    unfolding attempt_loop
    attempt_loop-Ended baseline zero attempt p w h = h
    attempt_loop-Ended baseline (suc left) attempt p w h =
        let (gate, w1) = run_gate reader checks host budgets baseline p w in
        let h1 = kept.by_host p w _ h in
        on_call_ind Ended gate w1 _ _ (λ _ _. h1)
          λ g _.
            if_ind Ended g.passed _ _ (λ _. h1)
              λ _.
                let (answer, w2) = ask reader checks host budgets (debug g (suc attempt)) w1 in
                let h2 = kept.by_host p w1 _ h1 in
                on_call_ind Ended answer w2 _ _ (λ _ _. h2)
                  λ reply _.
                    on_some_ind Ended (escalation reader reply) _ _
                      (λ _.
                        let (considered, w3) =
                          consider_revision reader checks host budgets reply p w2 in
                        let h3 = consider-Considered I kept reply p w2 h2 in
                        considered_ind I kept p w3 considered Ended _ _ h3 (λ _ h4. h4)
                          λ q claim h4.
                            on_some_ind Ended claim _ _
                              (λ _. attempt_loop-Ended baseline left (suc attempt) q w3 h4)
                              (λ c _. by_escalation q w3 _ h4))
                      (λ claim _. by_escalation p w2 _ h2)

    pub run_attempts_inv :
        (baseline : B) (p : InForce A) (w : World S A N)
        → I p w
        → (let (final, w') = run_attempts reader checks host budgets baseline p w in
            I final.in_force w')
    unfolding run_attempts
    run_attempts_inv baseline p w h =
        let (answer, w') = ask reader checks host budgets (start p.port p.tests) w in
        let h' = kept.by_host p w _ h in
        on_call_ind Ended answer w' _ _ (λ _ _. h')
          λ _ _. attempt_loop-Ended baseline budgets.attempts 0 p w' h'
