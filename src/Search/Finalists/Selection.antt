-- ===== src/Search/Finalists/Selection.antt =====
-- What the finalists are (loop/dse.py, `select_finalists`).
use paper_to_pipeline.Base.{
  ℕ, suc, ◌+◌, ◌≡◌, refl, sym, ◌∙◌, ap, ◌≢◌, String, none, List, [], ◌∷◌, map, Eq, All, All_mono,
  All_lookup, All_intro, length, leb, arith, Bool-cases, inl, inr, if◌then◌else◌,
}
use paper_to_pipeline.Base.Json.{Json, json_beq, json_eq}
use paper_to_pipeline.Base.Numbers.{Arith}
use paper_to_pipeline.Revision.Documents.{Table, find}
use paper_to_pipeline.Revision.Chain.Tables.{Unique}
use paper_to_pipeline.Constraints.Ranges.{Python}
use paper_to_pipeline.Constraints.Header.{Reader}
use paper_to_pipeline.Constraints.Formulas.{Expr, Result, Operators}
use paper_to_pipeline.Constraints.Storage.{Spec, PortPlan}
use paper_to_pipeline.Constraints.Static.{Constraint}
use paper_to_pipeline.Search.Header.{Printer}
use paper_to_pipeline.Search.Finalists.{
  Program, Finalist, PassedOver, sort_ranked, pick_all, no_picks, select_finalists,
}
use paper_to_pipeline.Search.Finalists.Picked.{total, Qualifies, key, entry, pick_all-IsPicked}
use paper_to_pipeline.Search.Finalists.Ranked.{
  Separate, take-All, length-take, sort_ranked-All, length-sort_ranked, sort_ranked-Separate,
  take-Separate,
}

module _ {A V : Type 0} ⦃e : Eq A⦄ where
  find-none : (h : Json A) (t : Table A V) → find h t ≡ none → All (λ row. row.0 ≢ h) t
  unfolding find
  find-none h [] gone = tt
  find-none h ((j, c) ∷ t) gone = elim (Bool-cases (json_beq j h)) [
    | inl same ↦ (let g = rw same at gone in cc)
    | inr other ↦
        (λ same. (let equal = (json_eq.decides j h).1 same in cc), find-none h t (rw other at gone))
  ]

  values-All :
      (P : V → Type 0) (t : Table A V) → All (λ row. P row.1) t → All P (map (λ row. row.1) t)
  values-All P [] all = tt
  values-All P (row ∷ t) all = (all.0, values-All P t all.1)

  length-values : (t : Table A V) → length (map (λ row. row.1) t) ≡ length t
  length-values [] = refl
  length-values (row ∷ t) = ap suc (length-values t)

module _ {A : Type 0} ⦃e : Eq A⦄ ⦃n : Arith A⦄ (screen_metric : String)
    (key_at : Finalist A → Json A) where
  values-Separate :
      (t : Table A (Finalist A))
      → Unique t
      → All (λ row. row.0 ≡ key_at row.1) t
      → Separate screen_metric key_at (map (λ row. row.1) t)
  values-Separate [] unique keyed = tt
  values-Separate ((h, f) ∷ t) unique keyed = (
    values-All (λ g. key_at g ≢ key_at f) t
        (All_mono _ _ t
          (λ row m other same. other (All_lookup _ t row keyed.1 m ∙ (same ∙ sym keyed.0)))
          (find-none h t unique.0)),
    values-Separate t unique.1 keyed.1,
  )

module _ {A : Type 0} ⦃e : Eq A⦄ ⦃n : Arith A⦄ (python : Python A) (reader : Reader A)
    (operators : Operators A) (parse : String → Result (Expr A)) (printer : Printer A)
    (screen_metric : String) (spec : Spec A) (plan : PortPlan A)
    (constraints : List (Constraint A)) where
  -- The finalists qualify, and carry the storage that their own header costs; no two have the same
  -- knob values; and each program is passed over, or is one of the candidates of which the finalists
  -- are as many as there are, `top_k` at most.
  pub record IsSelection (population : List (Program A)) (top_k : ℕ) (finalists : List (Finalist A))
      (passed : PassedOver) : Type 0 where
    pub qualified :
        All
          (λ f.
            Qualifies python reader operators parse printer screen_metric spec plan constraints
              population f.program
            × (f
                ≡ entry python reader operators parse printer screen_metric spec plan constraints
                    f.program))
          finalists
    pub separate :
        Separate screen_metric
          (λ f.
            key python reader operators parse printer screen_metric spec plan constraints f.program)
          finalists
    pub candidates : ℕ
    pub accounted : total passed + candidates ≡ length population
    pub count : length finalists ≡ (if leb candidates top_k then candidates else top_k)

  -- What `select_finalists` returns: finalists that were scored, pass every static constraint and are
  -- not at the defaults, each with the storage that its own header costs; no two with the same knob
  -- values; as many as there are candidates, `top_k` at most; and the programs passed over and the
  -- candidates make up the population.
  pub select_finalists-IsSelection :
      (population : List (Program A)) (top_k : ℕ)
      → (let (finalists, passed) =
            select_finalists python reader operators parse printer screen_metric spec plan
              constraints population top_k in
          IsSelection population top_k finalists passed)
  unfolding select_finalists
  select_finalists-IsSelection population top_k =
      let picked =
        pick_all-IsPicked python reader operators parse printer screen_metric spec plan constraints
          population population 0
          (no_picks python reader operators parse printer screen_metric spec plan constraints)
          (record { unique = tt; entries = tt; counted = refl })
          (All_intro _ population (λ p m. m)) in
      let best =
        (pick_all python reader operators parse printer screen_metric spec plan constraints
          population
          (no_picks python reader operators parse printer screen_metric spec plan
            constraints)).best in
      let values = map (λ row. row.1) best in
      let key_at : Finalist A → Json A = λ f.
        key python reader operators parse printer screen_metric spec plan constraints f.program in
      record {
        qualified = take-All _ top_k _ (
            sort_ranked-All screen_metric _ [] values tt
              (values-All _ best (All_mono _ _ best (λ row _ h. (h.0, h.2)) picked.entries)));
        separate = take-Separate screen_metric key_at top_k _ (
            sort_ranked-Separate screen_metric key_at [] values tt tt (
              values-Separate screen_metric key_at best picked.unique
                (All_mono _ _ best (λ row _ h. h.1) picked.entries)));
        candidates = length best;
        accounted = omega (arith, picked.counted);
        count =
            let counted : length (sort_ranked screen_metric [] values) ≡ length best =
              omega (arith, length-sort_ranked screen_metric [] values, length-values best) in
            rw counted at (length-take top_k (sort_ranked screen_metric [] values));
      }
