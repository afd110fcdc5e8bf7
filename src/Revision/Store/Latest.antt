-- ===== src/Revision/Store/Latest.antt =====
-- The pair in force (loop/plan_revision.py, `latest` after `commit`).
use paper_to_pipeline.Base.{
  ℕ, zero, suc, ◌+◌, ◌≤◌, ◌≡◌, refl, inl, inr, true, false, some, ltb, eqb, arith, Bool-cases,
}
use paper_to_pipeline.Revision.Store.{Store, has_both, count_from, latest, commit}

module _ {D : Type 0} where
  -- The revisions 1 to `n` are there, and the next is not.
  pub record IsHighest (store : Store D) (n : ℕ) : Type 0 where
    pub earlier : (i : ℕ) → 1 ≤ i → i ≤ n → has_both store i ≡ true
    pub next : has_both store (suc n) ≡ false

  pub count_from-IsHighest :
      (fuel index n : ℕ) (store : Store D)
      → IsHighest store n
      → index ≤ n
      → n ≤ index + fuel
      → count_from fuel index store ≡ n
  unfolding count_from
  count_from-IsHighest zero index n store h low high = omega (arith, low, high)
  count_from-IsHighest (suc fuel) index n store h low high = elim (Bool-cases (ltb index n)) [
    | inl e ↦
        let there = h.earlier (suc index) (omega arith) (ground (arith, e)) in
        rw there (
          count_from-IsHighest fuel (suc index) n store h (ground (arith, e)) (omega (arith, high)))
    | inr e ↦
        let same : index ≡ n = ground (arith, e, low) in let gone = h.next in rw (same, gone) refl
  ]

  pub commit-IsHighest :
      (store : Store D) (n : ℕ) (port tests : D)
      → IsHighest store n
      → has_both store (suc (suc n)) ≡ false
      → IsHighest (commit (suc n) port tests store) (suc n)
  unfolding commit
  commit-IsHighest store n port tests h free = record {
    earlier = λ i low high. elim (Bool-cases (eqb i (suc n))) [
      | inl e ↦ rw e refl
      | inr e ↦ rw e (h.earlier i low (ground (arith, e, high)))
    ];
    next = ground (arith, free);
  }

  pub commit_read :
      (store : Store D) (n : ℕ) (port tests : D)
      → ((commit n port tests store).port_plan n ≡ some port)
        × ((commit n port tests store).test_plan n ≡ some tests)
  unfolding commit
  commit_read store n port tests = (ground arith, ground arith)

  -- Where the revisions 1 to n are there, n + 1 is not, and the pair after it is not either: a pair
  -- that is committed as revision n + 1 is the pair in force, for a loop of at least n + 1 rounds.
  pub latest-commit :
      (fuel n : ℕ) (store : Store D) (port tests : D)
      → IsHighest store n
      → has_both store (suc (suc n)) ≡ false
      → suc n ≤ fuel
      → latest fuel (commit (suc n) port tests store) ≡ (some port, some tests, suc n)
  unfolding latest
  latest-commit fuel n store port tests h free enough =
      let counted =
        count_from-IsHighest fuel 0 (suc n) (commit (suc n) port tests store)
          (commit-IsHighest store n port tests h free) (omega arith) (omega (arith, enough)) in
      let written = commit_read store (suc n) port tests in rw (counted, written.0, written.1) refl
