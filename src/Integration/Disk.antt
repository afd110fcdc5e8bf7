-- ===== src/Integration/Disk.antt =====
-- The plan files after a run (loop/adopt_a_paper_loop.py, `integrate`; loop/plan_revision.py,
-- `latest`, `commit`).
use paper_to_pipeline.Base.{ℕ, suc, ◌<◌, ◌≤◌, ◌≡◌, refl, some, false, Eq, arith}
use paper_to_pipeline.Base.Json.{Fields}
use paper_to_pipeline.Base.Numbers.{Arith}
use paper_to_pipeline.Revision.Store.{Store, has_both, latest, commit}
use paper_to_pipeline.Revision.Store.Latest.{
  IsHighest, count_from-IsHighest, commit-IsHighest, commit_read,
}
use paper_to_pipeline.Planning.Reply.{Reader}
use paper_to_pipeline.Planning.Review.{Checks}
use paper_to_pipeline.Integration.{InForce}
use paper_to_pipeline.Integration.Refines.{Revises, stays, revised}

-- The files hold the pair in force as the highest revision, and none above it.
pub record IsInStep {A : Type 0} (p : InForce A) (store : Store (Fields A)) : Type 0 where
  pub highest : IsHighest store p.revision
  pub above : (i : ℕ) → p.revision < i → has_both store i ≡ false
  pub port : store.port_plan p.revision ≡ some p.port
  pub tests : store.test_plan p.revision ≡ some p.tests

module _ {A : Type 0} where
  commit-IsInStep :
      (p : InForce A) (store : Store (Fields A)) (port tests : Fields A)
      → IsInStep p store
      → IsInStep
          (record { port = port; tests = tests; revision = suc p.revision })
          (commit (suc p.revision) port tests store)
  unfolding commit
  commit-IsInStep p store port tests h =
      let written = commit_read store (suc p.revision) port tests in
      record {
        highest =
            commit-IsHighest store p.revision port tests h.highest
              (h.above (suc (suc p.revision)) (omega arith));
        above = λ i over. ground (arith, h.above i (omega (arith, over)), over);
        port = written.0;
        tests = written.1;
      }

  -- Where the files hold the pair in force, it is the pair that `latest` reads.
  pub latest-IsInStep :
      (fuel : ℕ) (p : InForce A) (store : Store (Fields A))
      → IsInStep p store
      → p.revision ≤ fuel
      → latest fuel store ≡ (some p.port, some p.tests, p.revision)
  unfolding latest
  latest-IsInStep fuel p store h enough =
      let counted =
        count_from-IsHighest fuel 0 p.revision store h.highest (omega arith)
          (omega (arith, enough)) in
      rw (counted, h.port, h.tests) refl

module _ {A M : Type 0} ⦃e : Eq A⦄ ⦃n : Arith A⦄ (reader : Reader (Fields A)) (checks : Checks A M)
    (budget : ℕ) where
  -- Revisions leave the files in step with the pair in force.
  pub Revises-IsInStep :
      (p : InForce A) (before : Store (Fields A)) (q : InForce A) (after : Store (Fields A))
      → Revises reader checks budget p before q after
      → IsInStep p before
      → IsInStep q after
  Revises-IsInStep p before q after stays h = h
  Revises-IsInStep p before q after
        (revised {p = mid} {store = store} {port = port} {tests = tests} steps good room) h =
      commit-IsInStep mid store port tests (Revises-IsInStep p before mid store steps h)
