-- ===== src/Planning/Review/Verdict.antt =====
-- What an accepted revision has passed (loop/plan_revision.py, `review`).
use paper_to_pipeline.Base.{
  ◌≡◌, refl, ◌↔◌, String, Bool, true, false, Option, none, some, List, [], ◌∷◌, ◌++◌, map, arith,
  Eq, append-eq-nil, is_empty_iff, ◌&&◌, is_empty, ap,
}
use mathlib.Core.Option.{some-injective}
use paper_to_pipeline.Base.Json.{Fields}
use paper_to_pipeline.Base.Numbers.{Arith}
use paper_to_pipeline.Findings.{Finding, blocking}
use paper_to_pipeline.Revision.Guard.{Segment, Note, guard}
use paper_to_pipeline.Planning.Reply.{Reader, parse_reply, ReplyError}
use paper_to_pipeline.Planning.Review.{
  with_remark, Checks, review_pair, review, accepted_pair, accepted,
}

module _ {P M : Type 0} where
  pub blocking-append :
      (xs ys : List (Finding P M)) → blocking (xs ++ ys) ≡ blocking xs ++ blocking ys
  unfolding blocking
  blocking-append [] ys = refl
  blocking-append (x ∷ xs) ys = ground (arith, blocking-append xs ys)

module _ {A M : Type 0} where
  blocking-remarks :
      (fs : List (Finding (List (Segment A)) (Note A)))
      → (blocking (map (with_remark {M = M}) fs) ≡ []) ↔ (blocking fs ≡ [])
  unfolding blocking
  blocking-remarks [] = ground arith
  blocking-remarks (f ∷ fs) = ground (arith, blocking-remarks fs)

triple_eq :
    {X Y Z : Type 0} (x : X × Y × Z) {a : X} {b : Y} {c : Z}
    → x.0 ≡ a
    → x.1 ≡ b
    → x.2 ≡ c
    → x ≡ (a, b, c)
triple_eq (x, y, z) e f g = rw (e, f, g) refl

accepted_lem :
    {D : Type 0} (p t port tests : D) (clean : Bool)
    → (accepted_pair (some p) (some t) clean ≡ some (port, tests))
      ↔ ((p ≡ port) × (t ≡ tests) × (clean ≡ true))
unfolding accepted_pair
accepted_lem p t port tests true = (
  λ h.
      let same : (p, t) ≡ (port, tests) = some-injective _ _ h in
      (ap (λ x. x.0) same, ap (λ x. x.1) same, refl),
  λ (e, f, _). rw (e, f),
)
accepted_lem p t port tests false = (λ h. cc, λ (e, f, no_way). cc)

module _ {A M : Type 0} ⦃e : Eq A⦄ ⦃n : Arith A⦄ (reader : Reader (Fields A))
    (checks : Checks A M) where
  -- The reply is a pair without a schema error, the plan checks find no error in it, and the guard
  -- refuses nothing of it.
  pub record IsAcceptable (old_port old_tests : Fields A) (reply : String) (port tests : Fields A)
      : Type 0 where
    pub parsed :
        parse_reply reader checks.port_schema checks.tests_schema reply
        ≡ (some port, some tests, [])
    pub checked : blocking (checks.run_checks port tests) ≡ []
    pub guarded : blocking (guard old_port old_tests port tests) ≡ []

  clean_iff :
      (old_port old_tests port tests : Fields A) (errors : List ReplyError)
      → ((is_empty errors
            && is_empty (
                blocking
                  (review_pair reader checks old_port old_tests
                    (some port)
                    (some tests)
                    errors).findings))
          ≡ true)
        ↔ ((errors ≡ [])
            × (blocking (checks.run_checks port tests) ≡ [])
            × (blocking (guard old_port old_tests port tests) ≡ []))
  unfolding review_pair
  clean_iff old_port old_tests port tests errors =
      let found = guard old_port old_tests port tests in
      let own = checks.run_checks port tests in
      let all = own ++ map (with_remark {M = M}) found in
      ground (
        arith,
        is_empty_iff errors,
        is_empty_iff (blocking all),
        blocking-append own (map (with_remark {M = M}) found),
        append-eq-nil (blocking own) (blocking (map (with_remark {M = M}) found)),
        blocking-remarks {M = M} found,
      )

  pair_sound :
      (old_port old_tests port tests : Fields A) (p t : Option (Fields A))
      (errors : List ReplyError)
      → accepted (review_pair reader checks old_port old_tests p t errors) ≡ some (port, tests)
      → (p ≡ some port)
        × (t ≡ some tests)
        × (errors ≡ [])
        × (blocking (checks.run_checks port tests) ≡ [])
        × (blocking (guard old_port old_tests port tests) ≡ [])
  unfolding accepted review_pair accepted_pair
  pair_sound old_port old_tests port tests (some p) (some t) errors h =
      let (e, f, clean) = (accepted_lem p t port tests _).0 h in
      let parts = (clean_iff old_port old_tests p t errors).0 clean in
      (ap some e, ap some f, parts.0, rw (e, f) at parts.1, rw (e, f) at parts.2)
  pair_sound old_port old_tests port tests none t errors h = cc
  pair_sound old_port old_tests port tests (some p) none errors h = cc

  pair_complete :
      (old_port old_tests port tests : Fields A)
      → (blocking (checks.run_checks port tests) ≡ [])
        × (blocking (guard old_port old_tests port tests) ≡ [])
      → accepted (review_pair reader checks old_port old_tests (some port) (some tests) [])
        ≡ some (port, tests)
  unfolding accepted review_pair
  pair_complete old_port old_tests port tests (checked, guarded) =
      (accepted_lem port tests port tests _).1
        (refl, refl, (clean_iff old_port old_tests port tests []).1 (refl, checked, guarded))

  -- A revision is accepted exactly when the reply is a pair without a schema error, the plan checks
  -- find no error in it, and the guard refuses nothing of it.
  pub accepted-IsAcceptable :
      (old_port old_tests : Fields A) (reply : String) (port tests : Fields A)
      → (accepted (review reader checks old_port old_tests reply) ≡ some (port, tests))
        ↔ IsAcceptable old_port old_tests reply port tests
  unfolding review
  accepted-IsAcceptable old_port old_tests reply port tests = (
    λ h.
        let (p, t, errors) = parse_reply reader checks.port_schema checks.tests_schema reply in
        let (e, f, clean, checked, guarded) =
          pair_sound old_port old_tests port tests p t errors h in
        record { parsed = triple_eq _ e f clean; checked = checked; guarded = guarded },
    λ a. rw a.parsed (pair_complete old_port old_tests port tests (a.checked, a.guarded)),
  )
