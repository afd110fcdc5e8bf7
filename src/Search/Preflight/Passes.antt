-- ===== src/Search/Preflight/Passes.antt =====
-- How the knobs pass a preflight (loop/dse.py, `preflight`), as a relation of the report's entries, its
-- warnings, and the states of the host.
use paper_to_pipeline.Base.{
  ◌≡◌, refl, ◌≢◌, ◌↔◌, ◌⊎◌, String, true, false, Option, none, some, List, [], ◌∷◌, ◌++◌, string_eq,
}
use paper_to_pipeline.Base.Json.{Json}
use paper_to_pipeline.Base.Numbers.{Arith}
use paper_to_pipeline.Constraints.Ranges.{Python}
use paper_to_pipeline.Constraints.Knobs.{Knob, is_pinned, alternate_value}
use paper_to_pipeline.Constraints.Storage.{Spec, PortPlan}
use paper_to_pipeline.Search.Header.{Printer}
use paper_to_pipeline.Search.Preflight.{
  Kit, Trees, KnobResult, pinned, no_second_value, does_not_build, inert, live, KnobEntry,
  BuildNote, no_value_to_test, value_does_not_build, nothing_reads, digest, variant_header,
  is_costed,
}
use paper_to_pipeline.Search.Preflight.Costs.{CostsFeature, CostsHost, costed_iff}

module _ {S A B : Type 0} ⦃n : Arith A⦄ (python : Python A) (printer : Printer A) (trees : Trees)
    (kit : Kit S B) (spec : Spec A) (plan : PortPlan A) where
  -- A formula of the spec's state, or a term of the host's storage, reads the knob.
  abbrev pub Costs : Knob A → Type 0
  Costs knob =
      CostsFeature python printer trees spec knob.macro
      ⊎ CostsHost python printer trees plan knob.macro

  -- The build at a value of one knob, all others at their defaults.
  abbrev pub build_at : Knob A → Json A → S → Option B × S
  build_at knob value s = kit.build (variant_header python printer trees kit spec plan knob value) s

  -- The entry of a knob in the report.
  pub record IsEntry (knob : Knob A) (tested : Option (Json A)) (outcome : KnobResult)
      (entry : KnobEntry A) : Type 0 where
    pub same_macro : entry.macro ≡ knob.macro
    pub same_origin : entry.origin ≡ knob.origin
    pub same_default : entry.default ≡ knob.default
    pub same_tested : entry.tested ≡ tested
    pub costs : (entry.costs_storage ≡ true) ↔ Costs knob
    pub same_outcome : entry.outcome ≡ outcome

  -- How one knob passes: the entry and the warnings that it adds, from one state of the host to the
  -- next.
  pub data Passes (first : String) (knob : Knob A) (s : S)
      : KnobEntry A → List (BuildNote A) → S → Type 0 where
    has_one_value :
        (entry : KnobEntry A)
        → alternate_value python knob ≡ none
        → is_pinned python knob ≡ true
        → IsEntry knob none pinned entry
        → Passes first knob s entry [] s
    has_no_second :
        (entry : KnobEntry A)
        → alternate_value python knob ≡ none
        → is_pinned python knob ≡ false
        → IsEntry knob none no_second_value entry
        → Passes first knob s entry (no_value_to_test knob.macro ∷ []) s
    fails :
        (entry : KnobEntry A) (value : Json A)
        → alternate_value python knob ≡ some value
        → digest kit (build_at knob value s).0 ≡ none
        → IsEntry knob (some value) does_not_build entry
        → Passes first knob s entry
            (value_does_not_build knob.macro value ∷ [])
            (build_at knob value s).1
    is_unread :
        (entry : KnobEntry A) (value : Json A)
        → alternate_value python knob ≡ some value
        → digest kit (build_at knob value s).0 ≡ some first
        → ¬ Costs knob
        → IsEntry knob (some value) inert entry
        → Passes first knob s entry
            (nothing_reads knob.macro value knob.default false ∷ [])
            (build_at knob value s).1
    is_read :
        (entry : KnobEntry A) (value : Json A) (variant : String)
        → alternate_value python knob ≡ some value
        → digest kit (build_at knob value s).0 ≡ some variant
        → variant ≢ first
        → IsEntry knob (some value) live entry
        → Passes first knob s entry [] (build_at knob value s).1

  -- All knobs pass, in order, each from the state that the one before left.
  pub data AllPass (first : String)
      : List (Knob A) → S → List (KnobEntry A) → List (BuildNote A) → S → Type 0 where
    none_left : (s : S) → AllPass first [] s [] [] s
    one_more :
        (knob : Knob A) (knobs : List (Knob A)) (s t u : S) (entry : KnobEntry A)
        (entries : List (KnobEntry A)) (ws warnings : List (BuildNote A))
        → Passes first knob s entry ws t
        → AllPass first knobs t entries warnings u
        → AllPass first (knob ∷ knobs) s (entry ∷ entries) (ws ++ warnings) u

  unfoldable pub entry_of : Knob A → Option (Json A) → KnobResult → KnobEntry A
  entry_of knob tested outcome = record {
    macro = knob.macro;
    origin = knob.origin;
    default = knob.default;
    tested = tested;
    costs_storage = is_costed python printer trees kit spec plan knob;
    outcome = outcome;
  }

  pub entry_of-IsEntry :
      (knob : Knob A) (tested : Option (Json A)) (outcome : KnobResult)
      → IsEntry knob tested outcome (entry_of knob tested outcome)
  unfolding entry_of
  entry_of-IsEntry knob tested outcome = record {
    same_macro = refl;
    same_origin = refl;
    same_default = refl;
    same_tested = refl;
    costs = costed_iff python printer trees spec plan knob.macro;
    same_outcome = refl;
  }
