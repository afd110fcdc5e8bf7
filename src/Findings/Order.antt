-- ===== src/Findings/Order.antt =====
-- The order on rounds of findings that `is_worse` decides (loop/spec_checks.py).
use paper_to_pipeline.Base.{
  ℕ, ◌+◌, ◌≤◌, ◌≡◌, refl, ◌↔◌, String, Bool, true, false, List, [], ◌∷◌, ◌&&◌, ◌||◌, not, is_empty,
  is_empty_iff, In, Eq, if◌then◌else◌, ltb, arith, ◌==◌, string_eq, nat_eq, eqb_iff, sym, ◌∙◌,
}
use paper_to_pipeline.Base.Dict.{Dict, put, get-put}
use text.Mathlib.TextEquality.{eq_iff}
use paper_to_pipeline.Findings.{
  Finding, Key, key_eq, error_keys, new_errors, get_count, counts_from, severity_counts, is_worse,
}
use paper_to_pipeline.Findings.Fresh.{new_errors-nil}

module _ {P M : Type 0} where
  -- How many findings have a severity.
  abbrev pub number : String → List (Finding P M) → ℕ
  number severity [] = 0
  number severity (f ∷ fs) = (if f.severity == severity then 1 else 0) + number severity fs

  get_count-counts_from :
      (severity : String) (out : Dict ℕ) (fs : List (Finding P M))
      → get_count severity (counts_from out fs) ≡ get_count severity out + number severity fs
  unfolding counts_from
  get_count-counts_from severity out [] = omega arith
  get_count-counts_from severity out (f ∷ fs) = ground (
    arith,
    get_count-counts_from severity (put f.severity (get_count f.severity out + 1) out) fs,
    get-put f.severity severity (get_count f.severity out + 1) out,
    eq_iff f.severity severity,
  )

  -- `severity_counts` holds, for every severity, the number of findings that have it.
  pub severity_counts-number :
      (severity : String) (fs : List (Finding P M))
      → get_count severity (severity_counts fs) ≡ number severity fs
  unfolding severity_counts
  severity_counts-number severity fs =
      ground
        (arith, get_count-counts_from severity (("error", 0) ∷ ("warn", 0) ∷ ("info", 0) ∷ []) fs)

-- The last lines of `is_worse`, on the counts alone.
verdict : ℕ → ℕ → ℕ → ℕ → Bool → Bool
verdict be ae bw aw fresh = if ltb be ae || fresh then true else (ae == be) && ltb bw aw

verdict_iff :
    (be ae bw aw : ℕ) (fresh : Bool)
    → (verdict be ae bw aw fresh ≡ false) ↔ ((ae ≤ be) × (fresh ≡ false) × (ae ≡ be → aw ≤ bw))
unfolding verdict
verdict_iff be ae bw aw fresh = ground (arith, eqb_iff ae be)

module _ {P M : Type 0} ⦃e : Eq P⦄ where
  -- `after` holds no more errors than `before`, none at a new code and pointer, and, where it
  -- holds as many, no more warnings.
  pub record NoWorse (before after : List (Finding P M)) : Type 0 where
    pub errors : number "error" after ≤ number "error" before
    pub known : (k : Key P) → In k (error_keys after) → In k (error_keys before)
    pub warnings :
        number "error" after ≡ number "error" before → number "warn" after ≤ number "warn" before

  is_worse-verdict :
      (before after : List (Finding P M))
      → is_worse before after
        ≡ verdict
            (number "error" before)
            (number "error" after)
            (number "warn" before)
            (number "warn" after)
            (not (is_empty (new_errors before after)))
  unfolding is_worse verdict
  is_worse-verdict before after =
      rw
        (
          severity_counts-number "error" before,
          severity_counts-number "error" after,
          severity_counts-number "warn" before,
          severity_counts-number "warn" after,
        )
        refl

  -- A round is accepted exactly when it is no worse: errors dominate, and warnings decide only
  -- between rounds with as many errors.
  pub is_worse-NoWorse :
      (before after : List (Finding P M)) → (is_worse before after ≡ false) ↔ NoWorse before after
  is_worse-NoWorse before after = (
    λ h.
        let parts = (iff before after).0 (sym (is_worse-verdict before after) ∙ h) in
        record {
          errors = parts.0;
          known = (new_errors-nil before after).0 ((is_empty_iff _).0 (ground (arith, parts.1)));
          warnings = parts.2;
        },
    λ n.
        is_worse-verdict before after
        ∙ (iff before after).1
            (n.errors, rw ((new_errors-nil before after).1 n.known) refl, n.warnings),
  )
    where
      iff :
          (before after : List (Finding P M))
          → (verdict
                (number "error" before)
                (number "error" after)
                (number "warn" before)
                (number "warn" after)
                (not (is_empty (new_errors before after)))
              ≡ false)
            ↔ ((number "error" after ≤ number "error" before)
                × (not (is_empty (new_errors before after)) ≡ false)
                × (number "error" after ≡ number "error" before
                    → number "warn" after ≤ number "warn" before))
      iff before after = verdict_iff _ _ _ _ _

  -- A round that changes nothing is accepted.
  pub is_worse_self : (fs : List (Finding P M)) → is_worse fs fs ≡ false
  is_worse_self fs =
      (is_worse-NoWorse fs fs).1
        (record { errors = omega arith; known = λ k m. m; warnings = λ _. omega arith })

  -- Accepted rounds compose: if no round of a chain is worse than the one before it, its end is no
  -- worse than its start.
  pub is_worse_trans :
      (a b c : List (Finding P M))
      → is_worse a b ≡ false
      → is_worse b c ≡ false
      → is_worse a c ≡ false
  is_worse_trans a b c ab bc =
      let first = (is_worse-NoWorse a b).0 ab in
      let second = (is_worse-NoWorse b c).0 bc in
      (is_worse-NoWorse a c).1 (record {
        errors = omega (arith, first.errors, second.errors);
        known = λ k m. first.known k (second.known k m);
        warnings =
            λ same. omega (arith, first.errors, second.errors, first.warnings, second.warnings);
      })
