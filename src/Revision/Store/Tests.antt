-- ===== src/Revision/Store/Tests.antt =====
-- A plan with one revision, and two escalations.
use paper_to_pipeline.Base.{
  ◌≡◌, refl, ℕ, false, String, Option, none, some, List, [], ◌∷◌, length, arith, eqb, if◌then◌else◌,
  ==_iff, string_eq,
}
use mathlib.Core.Bool.{false≢true}
use paper_to_pipeline.Revision.Store.{
  Store, latest, commit, Escalation, entries_of, open_escalations, clear_escalations, retire,
}
use paper_to_pipeline.Revision.Store.Retired.{Kept, retire-Kept}
use paper_to_pipeline.Revision.Store.Latest.{IsHighest, latest-commit}
use paper_to_pipeline.Revision.Store.Escalations.{bodies, clear_escalations-answered}

abbrev store : Store String
store = record {
  port_plan = λ i. if eqb i 0 then some "port" else if eqb i 1 then some "port1" else none;
  test_plan = λ i. if eqb i 0 then some "tests" else if eqb i 1 then some "tests1" else none;
}

store-IsHighest : IsHighest store 1
store-IsHighest = record { earlier = λ i low high. ground (arith, low, high); next = refl }

latest-run : latest 5 store ≡ (some "port1", some "tests1", 1)
unfolding latest
latest-run = refl

latest-commit_example :
    latest 5 (commit 2 "port2" "tests2" store) ≡ (some "port2", some "tests2", 2)
latest-commit_example = latest-commit 5 1 store "port2" "tests2" store-IsHighest refl (omega arith)

abbrev escalated : Option (List (Escalation String))
escalated =
    some
      (record { body = "/tests"; resolved = "" } ∷ record { body = "/port"; resolved = "r1" } ∷ [])

clear_escalations-answered_example :
    ((clear_escalations "r2" escalated).0 ≡ length (open_escalations escalated))
    × (open_escalations (clear_escalations "r2" escalated).1 ≡ [])
    × (bodies (entries_of (clear_escalations "r2" escalated).1) ≡ bodies (entries_of escalated))
clear_escalations-answered_example =
    clear_escalations-answered "r2" escalated λ e. false≢true ((==_iff "r2" "").1 e)

-- A revision with a port plan only is moved.
abbrev half_pair : Store ℕ
half_pair = record { port_plan = λ i. if eqb i 1 then some 7 else none; test_plan = λ i. none }

retire-Kept_example : Kept 1 false 7 (retire 2 half_pair)
retire-Kept_example = retire-Kept 2 1 false half_pair 7 refl
