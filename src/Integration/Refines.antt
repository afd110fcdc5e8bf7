-- ===== src/Integration/Refines.antt =====
-- What a run may do to the plan (loop/adopt_a_paper_loop.py, `integrate`, `_consider_revision`), as a
-- relation: the pair in force and the files beside it change only by revisions that are acceptable.
use paper_to_pipeline.Base.{ℕ, suc, ◌<◌, ◌≤◌, ◌≡◌, refl, String, [], Eq, arith}
use paper_to_pipeline.Base.Json.{Fields}
use paper_to_pipeline.Base.Numbers.{Arith}
use paper_to_pipeline.Findings.{blocking}
use paper_to_pipeline.Revision.Guard.{guard}
use paper_to_pipeline.Revision.Chain.{guard_self, guard_trans}
use paper_to_pipeline.Revision.Store.{Store, commit}
use paper_to_pipeline.Planning.Reply.{Reader}
use paper_to_pipeline.Planning.Review.{Checks}
use paper_to_pipeline.Planning.Review.Verdict.{IsAcceptable}
use paper_to_pipeline.Integration.{Host, Budgets, World, InForce, run_attempts}
use paper_to_pipeline.Integration.Invariant.{IsTurnKept, run_attempts_inv}

-- The pairs in force and the files that acceptable revisions, one after another, lead to.
pub data Revises {A M : Type 0} ⦃e : Eq A⦄ ⦃n : Arith A⦄ (reader : Reader (Fields A))
    (checks : Checks A M) (budget : ℕ) (first : InForce A) (before : Store (Fields A))
    : InForce A → Store (Fields A) → Type 0 where
  stays : Revises reader checks budget first before first before
  revised :
      {p : InForce A} {store : Store (Fields A)} {reply : String} {port tests : Fields A}
      → Revises reader checks budget first before p store
      → IsAcceptable reader checks p.port p.tests reply port tests
      → p.revision < budget
      → Revises reader checks budget first before
          (record { port = port; tests = tests; revision = suc p.revision })
          (commit (suc p.revision) port tests store)

module _ {A M : Type 0} ⦃e : Eq A⦄ ⦃n : Arith A⦄ (reader : Reader (Fields A)) (checks : Checks A M)
    (budget : ℕ) where
  -- No sequence of acceptable revisions lowers what the plan demands.
  pub Revises-guard :
      (p : InForce A) (before : Store (Fields A)) (q : InForce A) (after : Store (Fields A))
      → Revises reader checks budget p before q after
      → blocking (guard p.port p.tests q.port q.tests) ≡ []
  Revises-guard p before q after stays = guard_self p.port p.tests
  Revises-guard p before q after (revised steps good room) =
      guard_trans p.port p.tests _ _ q.port q.tests (Revises-guard p before _ _ steps) good.guarded

  -- The number of the pair in force never falls, and stays within the budget.
  pub Revises-budget :
      (p : InForce A) (before : Store (Fields A)) (q : InForce A) (after : Store (Fields A))
      → Revises reader checks budget p before q after
      → (p.revision ≤ q.revision) × (budget < q.revision → q.revision ≡ p.revision)
  Revises-budget p before q after stays = (omega arith, λ _. refl)
  Revises-budget p before q after (revised {p = mid} steps good room) =
      let (up, _) = Revises-budget p before mid _ steps in
      (omega (arith, up), λ over. absurd (omega (arith, over, room)))

module _ {S A M N B : Type 0} ⦃e : Eq A⦄ ⦃n : Arith A⦄ (reader : Reader (Fields A))
    (checks : Checks A M) (host : Host S A M N B) (budgets : Budgets) where
  Revises-IsTurnKept :
      (p : InForce A) (w : World S A N)
      → IsTurnKept reader checks host budgets
          (λ q w'. Revises reader checks budgets.revisions p w.store q w'.store)
  Revises-IsTurnKept p w = record {
    by_host = λ q w' s h. h;
    by_revision = λ q w' reply port tests h good room. revised h good room;
  }

  -- Whatever the host and the agent answer, the pair in force and the plan files change only by
  -- acceptable revisions, each of the pair in force before it, within the budget.
  pub run_attempts-Revises :
      (baseline : B) (p : InForce A) (w : World S A N)
      → (let (final, w') = run_attempts reader checks host budgets baseline p w in
          Revises reader checks budgets.revisions p w.store final.in_force w'.store)
  run_attempts-Revises baseline p w =
      run_attempts_inv reader checks host budgets _ (Revises-IsTurnKept p w) (λ q w' x h. h)
        baseline p w stays
