-- ===== src/Gate/Baseline.antt =====
-- The comparator behind G2 (loop/gate.py, `metric_differences`).
use paper_to_pipeline.Base.{
  ◌≡◌, refl, All_mono, ◌↔◌, String, true, false, Option, none, some, List, [], ◌∷◌, All, arith,
  append-eq-nil,
}
use paper_to_pipeline.Base.Dict.{Dict, get}
use paper_to_pipeline.Base.Numbers.{Arith, FiniteLaws, zero_num}
use paper_to_pipeline.Gate.{key_difference, metric_differences}

module _ {A : Type 0} ⦃n : Arith A⦄ where
  -- Both sides have the metric: a zero baseline is met by a zero alone, and any other within the
  -- relative tolerance.
  pub record Agrees (baseline measured : Option A) (rel_tol : A) : Type 0 where
    pub base : A
    pub seen : A
    pub recorded : baseline ≡ some base
    pub observed : measured ≡ some seen
    pub at_zero : n.eq base zero_num ≡ true → n.eq seen zero_num ≡ true
    pub within :
        n.eq base zero_num ≡ false
        → n.lt rel_tol (n.div (n.abs (n.sub seen base)) (n.abs base)) ≡ false

  key_difference-Agrees :
      (key : String) (baseline measured : Option A) (rel_tol : A)
      → (key_difference key baseline measured rel_tol ≡ [])
      → Agrees baseline measured rel_tol
  unfolding key_difference
  key_difference-Agrees key (some base) (some seen) rel_tol h = record {
    base = base;
    seen = seen;
    recorded = refl;
    observed = refl;
    at_zero = ground arith;
    within = ground arith;
  }
  key_difference-Agrees key none none rel_tol h = cc
  key_difference-Agrees key none (some _) rel_tol h = cc
  key_difference-Agrees key (some _) none rel_tol h = cc

  Agrees-key_difference :
      (key : String) (baseline measured : Option A) (rel_tol : A)
      → Agrees baseline measured rel_tol
      → (key_difference key baseline measured rel_tol ≡ [])
  unfolding key_difference
  Agrees-key_difference key baseline measured rel_tol a =
      ground (arith, a.recorded, a.observed, a.at_zero, a.within)

  -- Nothing is reported exactly when every declared metric agrees.
  pub metric_differences-Agrees :
      (baseline measured : Dict A) (keys : List String) (rel_tol : A)
      → (metric_differences baseline measured keys rel_tol ≡ [])
        ↔ All (λ key. Agrees (get key baseline) (get key measured) rel_tol) keys
  unfolding metric_differences
  metric_differences-Agrees baseline measured [] rel_tol = (λ _. tt, λ _. refl)
  metric_differences-Agrees baseline measured (key ∷ keys) rel_tol = (
    λ h.
        let parts = (append-eq-nil _ _).0 h in
        (
          key_difference-Agrees key _ _ rel_tol parts.0,
          (metric_differences-Agrees baseline measured keys rel_tol).0 parts.1,
        ),
    λ all. (append-eq-nil _ _).1 (
      Agrees-key_difference key _ _ rel_tol all.0,
      (metric_differences-Agrees baseline measured keys rel_tol).1 all.1,
    ),
  )

  Agrees-self :
      (IsFinite : A → Type 0) (laws : FiniteLaws A n IsFinite) (rel_tol base : A)
      → IsFinite base
      → n.lt rel_tol zero_num ≡ false
      → Agrees (some base) (some base) rel_tol
  Agrees-self IsFinite laws rel_tol base finite tolerant = record {
    base = base;
    seen = base;
    recorded = refl;
    observed = refl;
    at_zero = λ h. h;
    within =
        λ h. rw (laws.sub_self base finite, laws.abs_zero, laws.zero_div base finite h) tolerant;
  }

  -- A run that repeats the baseline differs from it nowhere: for declared metrics that the baseline
  -- has, at finite values, and a tolerance that is not negative.
  pub metric_differences_self :
      (IsFinite : A → Type 0) (laws : FiniteLaws A n IsFinite) (metrics : Dict A)
      (keys : List String) (rel_tol : A)
      → n.lt rel_tol zero_num ≡ false
      → All (λ key. (v : A) × (get key metrics ≡ some v) × IsFinite v) keys
      → metric_differences metrics metrics keys rel_tol ≡ []
  metric_differences_self IsFinite laws metrics keys rel_tol tolerant found =
      (metric_differences-Agrees metrics metrics keys rel_tol).1 (
        All_mono _ _ keys
          (λ key m (v, e, finite). rw e (Agrees-self IsFinite laws rel_tol v finite tolerant))
          found)
