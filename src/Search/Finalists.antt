-- ===== src/Search/Finalists.antt =====
-- The choice of finalists (loop/dse.py, `_knob_key`, `_screen_rank`, `select_finalists`).
pub mod Picked
pub mod Ranked
pub mod Selection
use text.Mathlib.Text.{is_lt}
use Prim.Native.String.{compare}
use paper_to_pipeline.Base.{
  ℕ, zero, suc, String, Bool, true, false, Option, none, some, List, [], ◌∷◌, map, Eq, not, ◌||◌,
  ◌&&◌, if◌then◌else◌,
}
use paper_to_pipeline.Base.Dict.{Dict, get}
use paper_to_pipeline.Base.Json.{
  Json, null, bool, num, str, arr, obj, nil, item, Fields, end, field, json_beq,
}
use paper_to_pipeline.Base.Numbers.{Arith, zero_num}
use paper_to_pipeline.Revision.Documents.{Table, find, set_item}
use paper_to_pipeline.Constraints.Ranges.{Python}
use paper_to_pipeline.Constraints.Knobs.{leq}
use paper_to_pipeline.Constraints.Header.{Reader}
use paper_to_pipeline.Constraints.Formulas.{Expr, Result, Operators}
use paper_to_pipeline.Constraints.Storage.{Spec, PortPlan}
use paper_to_pipeline.Constraints.Static.{Constraint, CandidateReport, check_static}
use paper_to_pipeline.Search.Header.{Printer, params_header}

-- A program that the search scored; the texts that are missing read as "".
pub record Program (A : Type 0) : Type 0 where
  pub id : Option String
  pub iteration_found : Option A
  pub evaluation : Option A
  pub solution : String
  pub metrics : Dict A

pub record Finalist (A : Type 0) : Type 0 where
  pub program : Program A
  pub storage_bits : Option A

pub record PassedOver : Type 0 where
  pub not_scored : ℕ
  pub fails_static_check : ℕ
  pub defaults : ℕ
  pub duplicate : ℕ

-- `best` and `passed_over`
pub record Picks (A : Type 0) : Type 0 where
  pub best : Table A (Finalist A)
  pub passed_over : PassedOver

-- `xs[:n]`
abbrev pub take : {X : Type 0} → ℕ → List X → List X
take zero xs = []
take (suc n) [] = []
take (suc n) (x ∷ xs) = x ∷ take n xs

module _ {A : Type 0} where
  -- `sorted(d.items())`, for a dict, whose names are distinct
  unfoldable pub insert_item : String → Json A → Fields A → Fields A
  insert_item k v end = field k v end
  insert_item k v (field j w d) =
      let rest = insert_item k v d in
      if is_lt (compare k j) then field k v (field j w d) else field j w rest

module _ {A : Type 0} ⦃n : Arith A⦄ where
  -- As a key, `True` is 1 and `False` is 0.
  unfoldable pub as_number : Json A → Json A
  as_number (bool b) = num (n.from_count (if b then 1 else 0))
  as_number value = value

  unfoldable pub sorted_items : Dict (Json A) → Fields A
  unfolding insert_item as_number
  sorted_items [] = end
  sorted_items ((k, v) ∷ d) = insert_item k (as_number v) (sorted_items d)

  unfoldable pub knob_key : CandidateReport A → Json A
  unfolding sorted_items
  knob_key report =
      arr (item (obj (sorted_items report.features)) (item (obj (sorted_items report.hosts)) nil))

  -- `x or 0`
  abbrev pub or_zero_num : Option A → A
  or_zero_num none = zero_num
  or_zero_num (some x) = x

  -- The comparison of tuples: by the first place where they differ.
  abbrev pub triple_less : (below : A → A → Bool) → A × A × A → A × A × A → Bool
  triple_less below (a, b, c) (x, y, z) =
      if not (n.eq a x) then below a x else if not (n.eq b y) then below b y else below c z

module _ {A : Type 0} ⦃n : Arith A⦄ (screen_metric : String) where
  unfoldable pub screen_rank : Finalist A → A × A × A
  screen_rank f = (
    or_zero_num (get screen_metric f.program.metrics),
    or_zero_num f.program.iteration_found,
    or_zero_num f.program.evaluation,
  )

  -- `sorted(xs, key=_screen_rank)`, which is stable: one entry at a time, before the first that is
  -- greater.
  unfoldable pub insert_ranked : Finalist A → List (Finalist A) → List (Finalist A)
  unfolding screen_rank
  insert_ranked f [] = f ∷ []
  insert_ranked f (g ∷ gs) =
      let rest = insert_ranked f gs in
      if triple_less n.lt (screen_rank f) (screen_rank g) then f ∷ g ∷ gs else g ∷ rest

  unfoldable pub sort_ranked : (done todo : List (Finalist A)) → List (Finalist A)
  unfolding insert_ranked
  sort_ranked done [] = done
  sort_ranked done (f ∷ fs) = sort_ranked (insert_ranked f done) fs

  -- The entry takes its place under its key.
  unfoldable pub place : ⦃e : Eq A⦄ → Json A → Finalist A → Option (Finalist A) → Picks A → Picks A
  unfolding screen_rank
  place key entry none picks = record picks { best = set_item key entry picks.best }
  place key entry (some old) picks = record {
    best =
        if triple_less leq (screen_rank old) (screen_rank entry)
        then picks.best
        else set_item key entry picks.best;
    passed_over = record picks.passed_over { duplicate = suc picks.passed_over.duplicate };
  }

module _ {A : Type 0} ⦃e : Eq A⦄ ⦃n : Arith A⦄ (python : Python A) (reader : Reader A)
    (operators : Operators A) (parse : String → Result (Expr A)) (printer : Printer A)
    (screen_metric : String) (spec : Spec A) (plan : PortPlan A)
    (constraints : List (Constraint A)) where
  abbrev pub report_of : Program A → CandidateReport A
  report_of p =
      check_static python reader operators parse printer.upper p.solution spec plan constraints

  abbrev pub key_of : Program A → Json A
  key_of p = knob_key (report_of p)

  abbrev pub default_key : Json A
  default_key = knob_key (
      check_static python reader operators parse printer.upper
        (params_header python printer spec plan [] [] []) spec plan [])

  abbrev pub entry_of_program : Program A → Finalist A
  entry_of_program p = record {
    program = p;
    storage_bits = get "storage_bits" (report_of p).metrics;
  }

  -- The body of the loop, from the check of the header on.
  unfoldable pub pick_scored : Program A → Picks A → Picks A
  unfolding place
  pick_scored p picks =
      let passed = picks.passed_over in
      if not (report_of p).passed
      then record picks {
        passed_over = record passed { fails_static_check = suc passed.fails_static_check };
      }
      else if json_beq (key_of p) default_key
      then record picks { passed_over = record passed { defaults = suc passed.defaults } }
      else place screen_metric (key_of p) (entry_of_program p) (find (key_of p) picks.best) picks

  unfoldable pub pick_at : Option A → Program A → Picks A → Picks A
  unfolding pick_scored
  pick_at none p picks = record picks {
    passed_over = record picks.passed_over { not_scored = suc picks.passed_over.not_scored };
  }
  pick_at (some score) p picks = pick_scored p picks

  unfoldable pub pick_all : List (Program A) → Picks A → Picks A
  unfolding pick_at
  pick_all [] picks = picks
  pick_all (p ∷ population) picks =
      pick_all population (pick_at (get screen_metric p.metrics) p picks)

  abbrev pub no_picks : Picks A
  no_picks = record {
    best = [];
    passed_over = record { not_scored = 0; fails_static_check = 0; defaults = 0; duplicate = 0 };
  }

  unfoldable pub select_finalists : List (Program A) → (top_k : ℕ) → List (Finalist A) × PassedOver
  unfolding pick_all sort_ranked
  select_finalists population top_k =
      let picks = pick_all population no_picks in
      (take top_k (sort_ranked screen_metric [] (map (λ row. row.1) picks.best)), picks.passed_over)
