-- ===== src/Replan/Recorded.antt =====
-- What the re-plan loop records is what it did (loop/replan.py, `integrate_with_replans`).
use paper_to_pipeline.Base.{
  ℕ, zero, suc, ◌≡◌, refl, sym, ◌∙◌, subst, ◌↔◌, String, Bool, false, Option, none, some, List, [],
  ◌∷◌, ◌++◌, not, is_empty, ap, ◌==◌, string_eq, ==_iff, Eq, arith,
}
use paper_to_pipeline.Base.Json.{Fields}
use paper_to_pipeline.Replan.{
  Result, Replanned, refused, replanned, Entry, raised, pair, Outcome, Driver, run_rounds,
  integrate_with_replans, entry_of, saved,
}
use paper_to_pipeline.Replan.Rounds.{answer_ind}
use paper_to_pipeline.Replan.Design.{design_changes}
use paper_to_pipeline.Replan.Design.Same.{SameDesign, design_changes-SameDesign}
use mathlib.Core.Bool.{false≢true}

append_assoc {ℓ} : {X : Type ℓ} (xs ys zs : List X) → (xs ++ ys) ++ zs ≡ xs ++ (ys ++ zs)
append_assoc [] ys zs = refl
append_assoc (x ∷ xs) ys zs = rw (append_assoc xs ys zs)

not-empty_iff : {X : Type 0} (xs : List X) → (not (is_empty xs) ≡ false) ↔ (xs ≡ [])
not-empty_iff [] = ground arith
not-empty_iff (x ∷ xs) = (λ h. cc, λ h. cc)

module _ {S A E B : Type 0} ⦃e : Eq A⦄ (driver : Driver S A E B) where
  -- An entry says when and where stage 3 ran, and what it returned.
  pub record IsEntry (n : ℕ) (prefix : String) (result : Result E B) (entry : Entry E)
      : Type 0 where
    pub round : entry.round ≡ n
    pub artifacts : entry.artifacts ≡ prefix
    pub status : entry.status ≡ result.status
    pub attempts : entry.attempts ≡ result.attempts
    pub escalation : entry.escalation ≡ result.escalation

  -- One call of stage 3, and the world after `save_port`.
  pub record Integrates (prefix : String) (port tests : Fields A) (fresh : Option Bool) (s : S)
      (result : Result E B) (t : S) : Type 0 where
    pub world : S
    pub is_call : driver.integrate prefix port tests fresh s ≡ (result, world)
    pub not_saved : driver.save_port ≡ none → t ≡ world
    pub is_saved : (save : String → S → S) → driver.save_port ≡ some save → t ≡ save prefix world

  -- The runs of the loop from round `n`, with `left` re-plans to spend: the entries that they record,
  -- the result, and the world that they leave.
  pub data IsRun (root : String)
      : (left n : ℕ) (prefix : String) (port tests : Fields A) (fresh : Option Bool)
        → S
        → List (Entry E)
        → Result E B
        → S
        → Type 0 where
    -- Stage 3 did not escalate, or there is no re-plan left.
    stops :
        (left n : ℕ) (prefix : String) (port tests : Fields A) (fresh : Option Bool) (s t : S)
        (result : Result E B) (entry : Entry E)
        → Integrates prefix port tests fresh s result t
        → IsEntry n prefix result entry
        → entry.replan ≡ none
        → (result.status ≡ "needs_replan" → left ≡ 0)
        → IsRun root left n prefix port tests fresh s (entry ∷ []) result t
    -- Stage 2 raised.
    refuses :
        (left n : ℕ) (prefix : String) (port tests : Fields A) (fresh : Option Bool) (s t u : S)
        (result : Result E B) (entry : Entry E) (error : String)
        → Integrates prefix port tests fresh s result t
        → IsEntry n prefix result entry
        → result.status ≡ "needs_replan"
        → driver.plan (driver.child root (suc n)) t ≡ (raised error, u)
        → entry.replan ≡ some (refused error)
        → IsRun root
            (suc left)
            n
            prefix
            port
            tests
            fresh
            s
            (entry ∷ [])
            (record result { status = "replan_failed"; replan_error = some error })
            u
    -- Stage 2 gave a new pair, and the next round integrates it: in a fresh tree unless the designs
    -- of the two port plans are the same.
    again :
        (left n : ℕ) (prefix : String) (port tests : Fields A) (fresh : Option Bool) (s t u v : S)
        (result last : Result E B) (entry : Entry E) (entries : List (Entry E))
        (new_port new_tests : Fields A) (renew : Bool)
        → Integrates prefix port tests fresh s result t
        → IsEntry n prefix result entry
        → result.status ≡ "needs_replan"
        → driver.plan (driver.child root (suc n)) t ≡ (pair new_port new_tests, u)
        → entry.replan
          ≡ some (replanned (driver.child root (suc n)) (design_changes port new_port) renew)
        → (renew ≡ false) ↔ SameDesign port new_port
        → IsRun root left
            (suc n)
            (driver.child root (suc n))
            new_port
            new_tests
            (some renew)
            u
            entries
            last
            v
        → IsRun root (suc left) n prefix port tests fresh s (entry ∷ entries) last v

  -- What the loop adds to the entries that it began with.
  abbrev Adds :
      (root : String) (left n : ℕ) (prefix : String) (port tests : Fields A) (fresh : Option Bool)
      (s : S) (rounds : List (Entry E))
      → Outcome E B × S
      → Type 0
  Adds root left n prefix port tests fresh s rounds (out, t) =
      (later : List (Entry E)) × (out.rounds ≡ rounds ++ later)
      × IsRun root left n prefix port tests fresh s later out.result t

  entry_of-IsEntry :
      (n : ℕ) (prefix : String) (result : Result E B) (r : Option Replanned)
      → IsEntry n prefix result (record (entry_of n prefix result) { replan = r })
  entry_of-IsEntry n prefix result r = record {
    round = refl;
    artifacts = refl;
    status = refl;
    attempts = refl;
    escalation = refl;
  }

  call-Integrates :
      (prefix : String) (port tests : Fields A) (fresh : Option Bool) (s : S)
      → (let (result, s') = driver.integrate prefix port tests fresh s in
          Integrates prefix port tests fresh s result (saved driver prefix s'))
  call-Integrates prefix port tests fresh s = record {
    world = (driver.integrate prefix port tests fresh s).1;
    is_call = refl;
    not_saved = λ e. ap after_save e;
    is_saved = λ save e. ap after_save e;
  }
    where
      after_save : Option (String → S → S) → S
      after_save found =
          let world = (driver.integrate prefix port tests fresh s).1 in
          elim found [ none ↦ world | some save ↦ save prefix world ]

  renew_iff :
      (old new : Fields A) → (not (is_empty (design_changes old new)) ≡ false) ↔ SameDesign old new
  renew_iff old new =
      let empty = not-empty_iff (design_changes old new) in
      let same = design_changes-SameDesign old new in
      (λ h. same.0 (empty.0 h), λ h. empty.1 (same.1 h))

  run_rounds-IsRun :
      (left n : ℕ) (root prefix : String) (port tests : Fields A) (fresh : Option Bool)
      (rounds : List (Entry E)) (s : S)
      → Adds root left n prefix port tests fresh s rounds
          (run_rounds driver left n root prefix port tests fresh rounds s)
  unfolding run_rounds
  run_rounds-IsRun zero n root prefix port tests fresh rounds s =
      let (result, s') = driver.integrate prefix port tests fresh s in
      let entry = entry_of n prefix result in
      (
        entry ∷ [],
        refl,
        stops zero n prefix port tests fresh s (saved driver prefix s') result entry
            (call-Integrates prefix port tests fresh s) (entry_of-IsEntry n prefix result none) refl
            (λ _. refl),
      )
  run_rounds-IsRun (suc left) n root prefix port tests fresh rounds s =
      let (result, s') = driver.integrate prefix port tests fresh s in
      let t = saved driver prefix s' in
      let next = driver.child root (suc n) in
      let called = call-Integrates prefix port tests fresh s in
      answer_ind {R = Outcome E B × S} (Adds root (suc left) n prefix port tests fresh s rounds)
        (result.status == "needs_replan") (driver.plan next t)
        (λ other. (
          entry_of n prefix result ∷ [],
          refl,
          stops (suc left) n prefix port tests fresh s t result (entry_of n prefix result) called
              (entry_of-IsEntry n prefix result none) refl
              (λ u. absurd (false≢true (sym other ∙ (==_iff _ _).1 u))),
        ))
        (λ error u asks planned. (
          record (entry_of n prefix result) { replan = some (refused error) } ∷ [],
          refl,
          refuses left n prefix port tests fresh s t u result _ error called
              (entry_of-IsEntry n prefix result _) ((==_iff _ _).0 asks) planned refl,
        ))
        λ new_port new_tests u asks planned.
          let changes = design_changes port new_port in
          let renew = not (is_empty changes) in
          let entry = record (entry_of n prefix result) {
            replan = some (replanned next changes renew);
          } in
          let (later, same, run) =
            run_rounds-IsRun left (suc n) root next new_port new_tests (some renew)
              (rounds ++ entry ∷ []) u in
          (
            entry ∷ later,
            same ∙ append_assoc rounds (entry ∷ []) later,
            again left n prefix port tests fresh s t u _ result _ entry later new_port new_tests
                renew called (entry_of-IsEntry n prefix result _) ((==_iff _ _).0 asks) planned refl
                (renew_iff port new_port) run,
          )

  -- The rounds that are recorded, the result and the world that is left are those of a run of the
  -- loop: round 0 integrates the given pair under the given prefix without an override of `fresh`;
  -- each entry has its number and what that call of stage 3 returned; a round that escalates with a
  -- re-plan left is followed by one call of stage 2 under the next prefix, in the world after the
  -- port was saved; a refusal ends the run as `replan_failed`; and a new pair is integrated by the
  -- next round with `fresh` false exactly if the designs of the two port plans are the same, the value
  -- and the changes being those that the entry records.
  pub integrate_with_replans-IsRun :
      (budget : ℕ) (dump : String) (port tests : Fields A) (s : S)
      → (let (out, t) = integrate_with_replans driver budget dump port tests s in
          IsRun dump budget 0 dump port tests none s out.rounds out.result t)
  unfolding integrate_with_replans
  integrate_with_replans-IsRun budget dump port tests s =
      let (out, t) = integrate_with_replans driver budget dump port tests s in
      let (later, same, run) = run_rounds-IsRun budget 0 dump dump port tests none [] s in
      subst
        (λ (rounds : List (Entry E)).
          IsRun dump budget 0 dump port tests none s rounds out.result t)
        (sym same) run
