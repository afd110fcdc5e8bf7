-- ===== src/Replan.antt =====
-- The re-plan loop around stage 3 (loop/replan.py, `integrate_with_replans`). The driver's stages
-- are parameters that read and change a world `S`; `E` is the type of an escalation, and a plan
-- document is its fields. `dump.child` (loop/helpers.py) only lengthens a prefix.
pub mod Design
pub mod Rounds
pub mod Recorded
mod Tests
use paper_to_pipeline.Base.Json.{Fields}
use paper_to_pipeline.Replan.Design.{design_changes}
use paper_to_pipeline.Base.{
  Eq, ℕ, zero, suc, ◌+◌, String, Bool, true, false, Option, none, some, List, [], ◌∷◌, ◌++◌,
  if◌then◌else◌, ◌==◌, string_eq, not, is_empty, ◌||◌,
}

-- What `integrate` returns; `body` is the rest of the dict, which the loop passes on.
pub record Result (E B : Type 0) : Type 0 where
  pub status : String
  pub attempts : Option ℕ
  pub escalation : Option E
  pub replan_error : Option String
  pub body : B

-- An entry's `replan` key.
pub data Replanned : Type 0 where
  refused : (error : String) → Replanned
  replanned : (artifacts : String) (design_changes : List String) (fresh : Bool) → Replanned

pub record Entry (E : Type 0) : Type 0 where
  pub round : ℕ
  pub artifacts : String
  pub status : String
  pub attempts : Option ℕ
  pub escalation : Option E
  pub replan : Option Replanned

-- What stage 2 does: it raises, or it returns the new pair.
pub data Planned (A : Type 0) : Type 0 where
  raised : String → Planned A
  pair : (port tests : Fields A) → Planned A

pub record Outcome (E B : Type 0) : Type 0 where
  pub result : Result E B
  pub replans : ℕ
  pub rounds : List (Entry E)

-- The names that `dump.child(f"replan{n + 1}")` gives, and the driver's stages.
pub record Driver (S A E B : Type 0) : Type 0 where
  pub child : String → ℕ → String
  pub integrate :
      (prefix : String) (port tests : Fields A) (fresh : Option Bool) → S → Result E B × S
  pub plan : (prefix : String) → S → Planned A × S
  pub save_port : Option (String → S → S)

module _ {E : Type 0} where
  -- `sum("replan" in r for r in rounds)`
  unfoldable pub count_replans : List (Entry E) → ℕ
  count_replans [] = 0
  count_replans (r ∷ rs) = elim r.replan [
    | none ↦ count_replans rs
    | some _ ↦ suc (count_replans rs)
  ]

module _ {E B : Type 0} where
  abbrev pub entry_of : ℕ → String → Result E B → Entry E
  entry_of n prefix result = record {
    round = n;
    artifacts = prefix;
    status = result.status;
    attempts = result.attempts;
    escalation = result.escalation;
    replan = none;
  }

  abbrev pub finish : Result E B → List (Entry E) → Outcome E B
  finish result rounds = record { result = result; replans = count_replans rounds; rounds = rounds }

  -- The `except` branch.
  abbrev pub failed : Result E B → Entry E → List (Entry E) → String → Outcome E B
  failed result entry rounds error =
      finish (record result { status = "replan_failed"; replan_error = some error })
        (rounds ++ record entry { replan = some (refused error) } ∷ [])

-- The end of a round: `break`, the `except` branch, or the next round.
abbrev pub answer {ℓ} :
    {S A : Type 0} {R : Type ℓ}
    → (escalated : Bool) → Planned A × S
    → (stop : R) → (refuse : String → S → R) → (again : Fields A → Fields A → S → R) → R
answer false _ stop refuse again = stop
answer true (raised error, t) stop refuse again = refuse error t
answer true (pair port tests, t) stop refuse again = again port tests t

module _ {S A E B : Type 0} ⦃e : Eq A⦄ (driver : Driver S A E B) where
  -- `if save_port is not None: save_port(round_dump)`
  abbrev pub saved : String → S → S
  saved prefix s = elim driver.save_port [ none ↦ s | some save ↦ save prefix s ]

  -- The loop from round `n`, with `left` re-plans still to spend.
  unfoldable pub run_rounds :
      (left n : ℕ) (root prefix : String) (port tests : Fields A) (fresh : Option Bool)
      (rounds : List (Entry E))
      → S
      → Outcome E B × S
  unfolding design_changes
  run_rounds zero n root prefix port tests fresh rounds s =
      let (result, s') = driver.integrate prefix port tests fresh s in
      (finish result (rounds ++ entry_of n prefix result ∷ []), saved prefix s')
  run_rounds (suc left) n root prefix port tests fresh rounds s =
      let (result, s') = driver.integrate prefix port tests fresh s in
      let s'' = saved prefix s' in
      let entry = entry_of n prefix result in
      let next = driver.child root (suc n) in
      answer (result.status == "needs_replan") (driver.plan next s'')
        (finish result (rounds ++ entry ∷ []), s'')
        (λ error t. (failed result entry rounds error, t))
        λ new_port new_tests t.
          let changes = design_changes port new_port in
          let renew = not (is_empty changes) in
          run_rounds left (suc n) root next new_port new_tests (some renew)
            (rounds ++ record entry { replan = some (replanned next changes renew) } ∷ []) t

  unfoldable pub integrate_with_replans :
      (budget : ℕ) (dump : String) (port tests : Fields A) → S → Outcome E B × S
  unfolding run_rounds count_replans
  integrate_with_replans budget dump port tests s =
      run_rounds budget 0 dump dump port tests none [] s
