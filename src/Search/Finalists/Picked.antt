-- ===== src/Search/Finalists/Picked.antt =====
-- What the picks hold (loop/dse.py, `select_finalists`).
use paper_to_pipeline.Base.{
  if_ind, ℕ, suc, ◌+◌, ◌≡◌, refl, ap, ◌≢◌, inl, inr, String, true, Option, none, some, List, [],
  ◌∷◌, Eq, All, In, length, arith, Bool-cases, not,
}
use paper_to_pipeline.Base.Dict.{get}
use paper_to_pipeline.Base.Json.{Json, json_beq, json_eq}
use paper_to_pipeline.Base.Numbers.{Arith}
use paper_to_pipeline.Revision.Documents.{Table, find, set_item}
use paper_to_pipeline.Revision.Chain.Tables.{Unique, set_item-Unique}
use paper_to_pipeline.Constraints.Ranges.{Python}
use paper_to_pipeline.Constraints.Header.{Reader}
use paper_to_pipeline.Constraints.Knobs.{leq}
use paper_to_pipeline.Constraints.Formulas.{Expr, Result, Operators}
use paper_to_pipeline.Constraints.Storage.{Spec, PortPlan}
use paper_to_pipeline.Constraints.Static.{Constraint}
use paper_to_pipeline.Search.Header.{Printer}
use paper_to_pipeline.Search.Finalists.{
  Program, Finalist, PassedOver, Picks, triple_less, screen_rank, place, report_of, key_of,
  default_key, entry_of_program, pick_at, pick_all,
}

module _ {A V : Type 0} ⦃e : Eq A⦄ where
  set_item-All :
      (P : Json A × V → Type 0) (h : Json A) (v : V) (t : Table A V)
      → All P t
      → P (h, v)
      → All P (set_item h v t)
  unfolding set_item
  set_item-All P h v [] all here = (here, tt)
  set_item-All P h v ((j, c) ∷ t) all here = elim (Bool-cases (json_beq j h)) [
    | inl same ↦ let e' : j ≡ h = (json_eq.decides j h).0 same in rw same (rw e' here, all.1)
    | inr other ↦ rw other (all.0, set_item-All P h v t all.1 here)
  ]

  length-set_item_new :
      (h : Json A) (v : V) (t : Table A V)
      → find h t ≡ none
      → length (set_item h v t) ≡ suc (length t)
  unfolding set_item find
  length-set_item_new h v [] gone = refl
  length-set_item_new h v ((j, c) ∷ t) gone = elim (Bool-cases (json_beq j h)) [
    | inl same ↦ (let g = rw same at gone in cc)
    | inr other ↦ rw other (ap suc (length-set_item_new h v t (rw other at gone)))
  ]

  length-set_item_old :
      (h : Json A) (v old : V) (t : Table A V)
      → find h t ≡ some old
      → length (set_item h v t) ≡ length t
  unfolding set_item find
  length-set_item_old h v old [] there = cc
  length-set_item_old h v old ((j, c) ∷ t) there = elim (Bool-cases (json_beq j h)) [
    | inl same ↦ rw same refl
    | inr other ↦ rw other (ap suc (length-set_item_old h v old t (rw other at there)))
  ]

abbrev pub total : PassedOver → ℕ
total p = p.not_scored + (p.fails_static_check + (p.defaults + p.duplicate))

module _ {A : Type 0} ⦃e : Eq A⦄ ⦃n : Arith A⦄ (python : Python A) (reader : Reader A)
    (operators : Operators A) (parse : String → Result (Expr A)) (printer : Printer A)
    (screen_metric : String) (spec : Spec A) (plan : PortPlan A)
    (constraints : List (Constraint A)) where
  -- A program of the search that was scored, whose header passes every static constraint, and whose
  -- knobs are not at their defaults.
  pub record Qualifies (population : List (Program A)) (p : Program A) : Type 0 where
    pub found : In p population
    pub score : A
    pub scored : get screen_metric p.metrics ≡ some score
    pub passed :
        (report_of python reader operators parse printer screen_metric spec plan constraints
          p).passed
        ≡ true
    pub tuned :
        key_of python reader operators parse printer screen_metric spec plan constraints p
        ≢ default_key python reader operators parse printer screen_metric spec plan constraints

  abbrev pub key : Program A → Json A
  key p = key_of python reader operators parse printer screen_metric spec plan constraints p

  abbrev pub entry : Program A → Finalist A
  entry p =
      entry_of_program python reader operators parse printer screen_metric spec plan constraints p

  abbrev pub IsEntry : List (Program A) → Json A × Finalist A → Type 0
  IsEntry population (k, f) =
      Qualifies population f.program × (k ≡ key f.program) × (f ≡ entry f.program)

  -- The picks after a part of the population: each program of it is passed over or stands for its key.
  pub record IsPicked (population : List (Program A)) (seen : ℕ) (picks : Picks A) : Type 0 where
    pub unique : Unique picks.best
    pub entries : All (IsEntry population) picks.best
    pub counted : total picks.passed_over + length picks.best ≡ seen

  place-IsPicked :
      (population : List (Program A)) (seen : ℕ) (picks : Picks A) (p : Program A)
      (there : Option (Finalist A))
      → IsPicked population seen picks
      → Qualifies population p
      → find (key p) picks.best ≡ there
      → IsPicked population (suc seen) (place screen_metric (key p) (entry p) there picks)
  unfolding place
  place-IsPicked population seen picks p none h q there = record {
    unique = set_item-Unique (key p) (entry p) picks.best h.unique;
    entries =
        set_item-All (IsEntry population) (key p) (entry p) picks.best h.entries (q, refl, refl);
    counted = omega (arith, h.counted, length-set_item_new (key p) (entry p) picks.best there);
  }
  place-IsPicked population seen picks p (some old) h q there =
      elim (Bool-cases
        (triple_less leq (screen_rank screen_metric old) (screen_rank screen_metric (entry p)))) [
          | inl keeps ↦ rw keeps (record {
            unique = h.unique;
            entries = h.entries;
            counted = omega (arith, h.counted);
          })
          | inr replaces ↦ rw replaces (record {
            unique = set_item-Unique (key p) (entry p) picks.best h.unique;
            entries =
                set_item-All (IsEntry population) (key p) (entry p) picks.best h.entries
                  (q, refl, refl);
            counted =
                omega
                  (arith, h.counted, length-set_item_old (key p) (entry p) old picks.best there);
          })
        ]

  pick_at-IsPicked :
      (population : List (Program A)) (seen : ℕ) (picks : Picks A) (p : Program A)
      (score : Option A)
      → IsPicked population seen picks
      → In p population
      → get screen_metric p.metrics ≡ score
      → IsPicked population (suc seen) (
          pick_at python reader operators parse printer screen_metric spec plan constraints score p
            picks)
  unfolding pick_at
  pick_at-IsPicked population seen picks p none h m scored = record {
    unique = h.unique;
    entries = h.entries;
    counted = omega (arith, h.counted);
  }
  pick_at-IsPicked population seen picks p (some score) h m scored =
      let report =
        report_of python reader operators parse printer screen_metric spec plan constraints p in
      if_ind (IsPicked population (suc seen)) (not report.passed) _ _
        (λ _. record { unique = h.unique; entries = h.entries; counted = omega (arith, h.counted) })
        λ good.
          if_ind (IsPicked population (suc seen))
            (json_beq (key p) (
              default_key python reader operators parse printer screen_metric spec plan
                constraints))
            _ _
            (λ _. record {
              unique = h.unique;
              entries = h.entries;
              counted = omega (arith, h.counted);
            })
            λ tuned.
              place-IsPicked population seen picks p (find (key p) picks.best) h
                (record {
                  found = m;
                  score = score;
                  scored = scored;
                  passed = ground (arith, good);
                  tuned = λ same. (let equal = (json_eq.decides _ _).1 same in cc);
                })
                refl

  pub pick_all-IsPicked :
      (population rest : List (Program A)) (seen : ℕ) (picks : Picks A)
      → IsPicked population seen picks
      → All (λ p. In p population) rest
      → IsPicked population (length rest + seen) (
          pick_all python reader operators parse printer screen_metric spec plan constraints rest
            picks)
  unfolding pick_all
  pick_all-IsPicked population [] seen picks h all = record {
    unique = h.unique;
    entries = h.entries;
    counted = omega (arith, h.counted);
  }
  pick_all-IsPicked population (p ∷ rest) seen picks h all =
      let next =
        pick_all-IsPicked population rest (suc seen) _
          (pick_at-IsPicked population seen picks p (get screen_metric p.metrics) h all.0 refl)
          all.1 in
      record { unique = next.unique; entries = next.entries; counted = omega (arith, next.counted) }
