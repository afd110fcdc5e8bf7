-- ===== src/Revision/Accepted/Rules.antt =====
-- The rules of loop/plan_revision.py about single values and lists.
use paper_to_pipeline.Base.{
  ◌≡◌, refl, ◌↔◌, Bool, true, false, List, [], ◌∷◌, Eq, String, All, In, contains_iff, is_empty,
  is_empty_iff, keep-eq-nil, All_mono, arith, ◌||◌,
}
use paper_to_pipeline.Base.Json.{Json, Fields, json_beq, json_beq_lem, json_eq}
use paper_to_pipeline.Base.Numbers.{Arith, zero_num}
use paper_to_pipeline.Revision.Documents.{value, or_zero, is_null, list_at, dict_at}
use paper_to_pipeline.Revision.Guard.{
  check_identity, dropped, check_metric_keys, check_tolerance, check_smoke, check_host_storage,
}
use paper_to_pipeline.Revision.Accepted.Entries.{IsClear, IsClear-append, IsClear_nil, refusal_iff}

module _ {A : Type 0} ⦃e : Eq A⦄ where
  abbrev pub Same : List String → Fields A → Fields A → Type 0
  Same ks old new = All (λ k. value k old ≡ value k new) ks

  -- Every element of `before` is one of `after`.
  abbrev pub Covers : List (Json A) → List (Json A) → Type 0
  Covers before after = All (λ x. In x after) before

  pub same_iff : (old new : Json A) → (json_beq old new ≡ true) ↔ (old ≡ new)
  same_iff old new = json_beq_lem old new

  pub check_identity-IsClear :
      (label : String) (old new : Fields A) (ks : List String)
      → IsClear (check_identity label old new ks) ↔ Same ks old new
  unfolding check_identity
  check_identity-IsClear label old new [] = (λ _. tt, λ _. IsClear_nil _ _)
  check_identity-IsClear label old new (k ∷ ks) = (
    λ h.
        let parts = (IsClear-append _ _).0 h in
        (
          (same_iff _ _).0 ((refusal_iff _ _ _ _).0 parts.0),
          (check_identity-IsClear label old new ks).0 parts.1,
        ),
    λ h. (IsClear-append _ _).1 (
      (refusal_iff _ _ _ _).1 ((same_iff _ _).1 h.0),
      (check_identity-IsClear label old new ks).1 h.1,
    ),
  )

  dropped_iff :
      (before after : List (Json A))
      → (is_empty (dropped before after) ≡ true) ↔ Covers before after
  unfolding dropped
  dropped_iff before after = (
    λ h.
        All_mono _ _ before (λ x _ gone. (contains_iff after x).0 (ground (arith, gone)))
          ((keep-eq-nil _ before).0 ((is_empty_iff _).0 h)),
    λ h. (is_empty_iff _).1 (
        (keep-eq-nil _ before).1
          (All_mono _ _ before (λ x _ m. rw ((contains_iff after x).1 m) refl) h)),
  )

  pub check_metric_keys-IsClear :
      (old new : Fields A)
      → IsClear (check_metric_keys old new)
        ↔ Covers (list_at "metric_keys" old) (list_at "metric_keys" new)
  unfolding check_metric_keys
  check_metric_keys-IsClear old new = (
    λ h. (dropped_iff _ _).0 ((refusal_iff _ _ _ _).0 h),
    λ h. (refusal_iff _ _ _ _).1 ((dropped_iff _ _).1 h),
  )

  pub check_tolerance-IsClear :
      ⦃n : Arith A⦄ (old new : Fields A)
      → IsClear (check_tolerance old new) ↔ (
          or_zero zero_num (value "baseline_rel_tol" old)
          ≡ or_zero zero_num (value "baseline_rel_tol" new))
  unfolding check_tolerance
  check_tolerance-IsClear old new = (
    λ h. (same_iff _ _).0 ((refusal_iff _ _ _ _).0 h),
    λ h. (refusal_iff _ _ _ _).1 ((same_iff _ _).1 h),
  )

  pub check_smoke-IsClear :
      (old new : Fields A)
      → IsClear (check_smoke old new) ↔ (
          (value "trace_list" (dict_at "smoke" old) ≡ value "trace_list" (dict_at "smoke" new))
          × Covers
              (list_at "traces" (dict_at "smoke" old))
              (list_at "traces" (dict_at "smoke" new)))
  unfolding check_smoke
  check_smoke-IsClear old new = (
    λ h.
        let parts = (IsClear-append _ _).0 h in
        (
          (same_iff _ _).0 ((refusal_iff _ _ _ _).0 parts.0),
          (dropped_iff _ _).0 ((refusal_iff _ _ _ _).0 parts.1),
        ),
    λ h. (IsClear-append _ _).1 (
      (refusal_iff _ _ _ _).1 ((same_iff _ _).1 h.0),
      (refusal_iff _ _ _ _).1 ((dropped_iff _ _).1 h.1),
    ),
  )

  abbrev pub baseline_bits : Fields A → Json A
  baseline_bits port = value "baseline_bits" (dict_at "host_storage" port)

  pub check_host_storage-IsClear :
      (old new : Fields A)
      → IsClear (check_host_storage old new)
        ↔ (is_null (baseline_bits old) ≡ false → baseline_bits new ≡ baseline_bits old)
  unfolding check_host_storage
  check_host_storage-IsClear old new = (
    λ h given. (same_iff _ _).0 (second _ _ ((refusal_iff _ _ _ _).0 h) given),
    λ h. (refusal_iff _ _ _ _).1 (either _ _ (λ given. (same_iff _ _).1 (h given))),
  )
    where
      second : (a b : Bool) → (a || b) ≡ true → a ≡ false → b ≡ true
      second a b = ground arith

      either : (a b : Bool) → (a ≡ false → b ≡ true) → (a || b) ≡ true
      either a b = ground arith
