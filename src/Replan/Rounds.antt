-- ===== src/Replan/Rounds.antt =====
-- How many rounds the re-plan loop runs, and where it stops (loop/replan.py).
use paper_to_pipeline.Base.Json.{Fields}
use paper_to_pipeline.Replan.Design.{design_changes}
use paper_to_pipeline.Base.{
  Eq, ℕ, zero, suc, ◌+◌, ◌≤◌, ◌≡◌, refl, ◌⊎◌, inl, inr, String, Bool, true, false, Option, none,
  some, List, [], ◌∷◌, ◌++◌, length, not, is_empty, arith, ◌==◌, string_eq, ==_iff, sym, ◌∙◌,
}
use paper_to_pipeline.Replan.{
  Result, Replanned, refused, replanned, Entry, Planned, raised, pair, Outcome, Driver,
  count_replans, run_rounds, integrate_with_replans, entry_of, saved, finish, failed, answer,
}
use mathlib.Core.Bool.{false≢true}

length-append {ℓ} : {A : Type ℓ} (xs ys : List A) → length (xs ++ ys) ≡ length xs + length ys
length-append [] ys = omega arith
length-append (x ∷ xs) ys = omega (arith, length-append xs ys)

module _ {E : Type 0} where
  count_replans-append :
      (xs ys : List (Entry E)) → count_replans (xs ++ ys) ≡ count_replans xs + count_replans ys
  unfolding count_replans
  count_replans-append [] ys = omega arith
  count_replans-append (x ∷ xs) ys = ground (arith, count_replans-append xs ys)

  -- One more entry, and whether it re-planned.
  count_snoc :
      (xs : List (Entry E)) (x : Entry E)
      → (x.replan ≡ none → count_replans (xs ++ x ∷ []) ≡ count_replans xs)
        × ((r : Replanned)
            → x.replan ≡ some r
            → count_replans (xs ++ x ∷ []) ≡ count_replans xs + 1)
  unfolding count_replans
  count_snoc xs x = (
    λ e. ground (arith, e, count_replans-append xs (x ∷ [])),
    λ r e. ground (arith, e, count_replans-append xs (x ∷ [])),
  )

module _ {E B : Type 0} where
  -- Where the loop may stop, having begun with `spent` re-plans and as many rounds, and with `left`
  -- to spend.
  pub record Stops (spent left : ℕ) (out : Outcome E B) : Type 0 where
    pub replans_bound : out.replans ≤ spent + left
    pub rounds_count :
        (length out.rounds ≡ out.replans + 1)
        ⊎ (length out.rounds ≡ out.replans) × (out.result.status ≡ "replan_failed")
    pub unanswered : out.result.status ≡ "needs_replan" → out.replans ≡ spent + left

  failed-Stops :
      (spent left : ℕ) (result : Result E B) (entry : Entry E) (rounds : List (Entry E))
      (error : String)
      → length rounds ≡ spent
      → count_replans rounds ≡ spent
      → Stops spent (suc left) (failed result entry rounds error)
  failed-Stops spent left result entry rounds error l c =
      let entry' = record entry { replan = some (refused error) } in
      let n = (count_snoc rounds entry').1 _ refl in
      record {
        replans_bound = omega (arith, n);
        rounds_count = inr (omega (arith, n, length-append rounds (entry' ∷ [])), refl);
        unanswered = λ u. absurd (false≢true ((==_iff "replan_failed" "needs_replan").1 u));
      }

  again-Stops :
      (spent left : ℕ) (out : Outcome E B) → Stops (suc spent) left out → Stops spent (suc left) out
  again-Stops spent left out h = record {
    replans_bound = omega (arith, h.replans_bound);
    rounds_count = h.rounds_count;
    unanswered = λ u. omega (arith, h.unanswered u);
  }

pub answer_ind {ℓ κ} :
    {S A : Type 0} {R : Type ℓ} (P : R → Type κ) (escalated : Bool) (planned : Planned A × S)
    {stop : R} {refuse : String → S → R} {again : Fields A → Fields A → S → R}
    → (escalated ≡ false → P stop)
    → ((error : String) (t : S)
        → escalated ≡ true
        → planned ≡ (raised error, t)
        → P (refuse error t))
    → ((port tests : Fields A) (t : S)
        → escalated ≡ true
        → planned ≡ (pair port tests, t)
        → P (again port tests t))
    → P (answer escalated planned stop refuse again)
answer_ind P false _ h i j = h refl
answer_ind P true (raised error, t) h i j = i error t refl refl
answer_ind P true (pair port tests, t) h i j = j port tests t refl refl

module _ {S A E B : Type 0} ⦃e : Eq A⦄ (driver : Driver S A E B) where
  finish-Stops :
      (spent left : ℕ) (result : Result E B) (entry : Entry E) (rounds : List (Entry E))
      → entry.replan ≡ none
      → length rounds ≡ spent
      → count_replans rounds ≡ spent
      → (result.status ≡ "needs_replan" → left ≡ 0)
      → Stops spent left (finish result (rounds ++ entry ∷ []))
  finish-Stops spent left result entry rounds e l c h =
      let n = (count_snoc rounds entry).0 e in
      record {
        replans_bound = omega (arith, n);
        rounds_count = inl (omega (arith, n, length-append rounds (entry ∷ [])));
        unanswered = λ u. omega (arith, n, h u);
      }

  run_rounds-Stops :
      (left n : ℕ) (root prefix : String) (port tests : Fields A) (fresh : Option Bool)
      (rounds : List (Entry E)) (s : S)
      → length rounds ≡ n
      → count_replans rounds ≡ n
      → Stops n left (run_rounds driver left n root prefix port tests fresh rounds s).0
  unfolding run_rounds
  run_rounds-Stops zero n root prefix port tests fresh rounds s l c =
      finish-Stops n 0 _ _ rounds refl l c (λ _. refl)
  run_rounds-Stops (suc left) n root prefix port tests fresh rounds s l c =
      let (result, s') = driver.integrate prefix port tests fresh s in
      answer_ind {R = Outcome E B × S} (λ r. Stops n (suc left) r.0)
        (result.status == "needs_replan")
        (driver.plan (driver.child root (suc n)) (saved driver prefix s'))
        (λ other.
          finish-Stops n (suc left) result _ rounds refl l c
            (λ u. absurd (false≢true (sym other ∙ (==_iff _ _).1 u))))
        (λ error t _ _. failed-Stops n left result (entry_of n prefix result) rounds error l c)
        λ new_port new_tests t _ _.
          let renew = not (is_empty (design_changes port new_port)) in
          let entry = record (entry_of n prefix result) {
            replan =
                some (replanned (driver.child root (suc n)) (design_changes port new_port) renew);
          } in
          again-Stops n left _ (
            run_rounds-Stops left (suc n) root (driver.child root (suc n)) new_port new_tests
              (some renew) (rounds ++ entry ∷ []) t
              (omega (arith, length-append rounds (entry ∷ [])))
              (omega (arith, (count_snoc rounds entry).1 _ refl)))

  -- The rounds are bounded by the budget: at most `budget` re-plans run, each but a refused one
  -- followed by a round, and the result asks for a re-plan only if the whole budget was spent.
  pub integrate_with_replans-Stops :
      (budget : ℕ) (dump : String) (port tests : Fields A) (s : S)
      → Stops 0 budget (integrate_with_replans driver budget dump port tests s).0
  unfolding integrate_with_replans
  integrate_with_replans-Stops budget dump port tests s =
      run_rounds-Stops budget 0 dump dump port tests none [] s refl refl
