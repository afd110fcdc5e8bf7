-- ===== src/Revision/Chain.antt =====
-- Revisions in sequence (loop/plan_revision.py): the guard accepts a plan that is repeated, and
-- what it accepts step by step it would accept at once.
pub mod Tables
mod Tests
use paper_to_pipeline.Base.{
  ◌≡◌, refl, sym, ◌∙◌, List, [], ◌∷◌, Eq, All, All_mono, All_lookup, All_intro, In, some, Bool,
  false, true, String, ap, contains_iff, string_eq, contains,
}
use paper_to_pipeline.Base.Json.{Json, Fields, str}
use paper_to_pipeline.Base.Numbers.{Arith}
use paper_to_pipeline.Findings.{blocking}
use paper_to_pipeline.Revision.Documents.{
  value, Table, find, entries, by_text, is_null, dict_at, list_at,
}
use paper_to_pipeline.Revision.Guard.{Collection, guard, is_recorded}
use paper_to_pipeline.Revision.Accepted.{
  identity_fields, plan_rules, test_rules, Same, Covers, EntryKept, CollectionKept, RunKept,
  AlternativeKept, FieldsKept, guard-FieldsKept, baseline_bits,
}
use Tables.{find-In, entries-found, by_text-found}
use mathlib.Core.Option.{some-injective}
use mathlib.Core.Bool.{false≢true}

abbrev performance : Collection
performance = record {
  called = "performance";
  key = "id";
  revisable = "description" ∷ "run" ∷ "timeout_seconds" ∷ [];
}

not_revisable : ¬ In "baseline" performance.revisable
unfolding contains
not_revisable m = false≢true ((contains_iff performance.revisable "baseline").1 m)

module _ {A : Type 0} ⦃e : Eq A⦄ where
  Same-trans : (ks : List String) (a b c : Fields A) → Same ks a b → Same ks b c → Same ks a c
  Same-trans [] a b c p q = tt
  Same-trans (k ∷ ks) a b c p q = (p.0 ∙ q.0, Same-trans ks a b c p.1 q.1)

  Same-self : (ks : List String) (a : Fields A) → Same ks a a
  Same-self ks a = All_intro _ ks (λ k _. refl)

  Covers-trans : (a b c : List (Json A)) → Covers a b → Covers b c → Covers a c
  Covers-trans a b c p q = All_mono _ _ a (λ x _ m. All_lookup _ b x q m) p

  EntryKept-trans :
      (c : Collection) (mid new : Table A (Fields A)) (row : Json A × Fields A)
      → EntryKept c mid row
      → All (EntryKept c new) mid
      → EntryKept c new row
  EntryKept-trans c mid new row (r, found, same) later =
      let (q, found', same') = All_lookup _ mid (row.0, r) later (find-In row.0 r mid found) in
      (q, found', λ k frozen. same k frozen ∙ same' k frozen)

  CollectionKept-trans :
      (cs : List Collection) (a b c : Fields A)
      → All (CollectionKept a b) cs
      → All (CollectionKept b c) cs
      → All (CollectionKept a c) cs
  CollectionKept-trans [] a b c p q = tt
  CollectionKept-trans (d ∷ cs) a b c p q = (
    All_mono _ _ (entries a d.called d.key) (λ row _ h. EntryKept-trans d _ _ row h q.0) p.0,
    CollectionKept-trans cs a b c p.1 q.1,
  )

  CollectionKept-self : (cs : List Collection) (a : Fields A) → All (CollectionKept a a) cs
  CollectionKept-self cs a = All_intro _ cs (λ c _.
      All_mono _ _ (entries a c.called c.key) (λ row _ found. (row.1, found, λ k _. refl))
        (entries-found a c.called c.key))

  same_source :
      (old new : Fields A)
      → value "baseline" old ≡ value "baseline" new
      → value "source" (dict_at "baseline" old) ≡ str "recorded"
      → value "source" (dict_at "baseline" new) ≡ str "recorded"
  same_source old new same recorded = rw same at recorded

  RunKept-trans :
      (mid new : Table A (Fields A)) (row : Json A × Fields A)
      → EntryKept performance mid row
      → RunKept mid row
      → All (EntryKept performance new) mid
      → All (RunKept new) mid
      → RunKept new row
  RunKept-trans mid new row (r, found, same) run later runs q found' recorded =
      run r found recorded
      ∙ All_lookup _ mid (row.0, r) runs (find-In row.0 r mid found) q found'
          (same_source row.1 r (same "baseline" not_revisable) recorded)

module _ {A : Type 0} ⦃e : Eq A⦄ ⦃n : Arith A⦄ where
  FieldsKept-self : (port tests : Fields A) → FieldsKept port tests port tests
  FieldsKept-self port tests = record {
    port_identity = Same-self identity_fields port;
    tests_identity = Same-self identity_fields tests;
    metric_keys = All_intro _ (list_at "metric_keys" tests) (λ x m. m);
    tolerance = refl;
    trace_list = refl;
    workloads = All_intro _ (list_at "traces" (dict_at "smoke" tests)) (λ x m. m);
    recorded_runs =
        All_mono _ _ _
          (λ row _ here r found _. ap (value "run") (some-injective _ _ (sym here ∙ found)))
          (entries-found tests "performance" "id");
    enable = Same-self ("name" ∷ "macro" ∷ []) (dict_at "feature_enable" port);
    storage = λ _. refl;
    alternatives = by_text-found port;
    port_entries = CollectionKept-self plan_rules port;
    tests_entries = CollectionKept-self test_rules tests;
  }

  FieldsKept-trans :
      (p q r s t u : Fields A) → FieldsKept p q r s → FieldsKept r s t u → FieldsKept p q t u
  FieldsKept-trans p q r s t u a b = record {
    port_identity = Same-trans identity_fields p r t a.port_identity b.port_identity;
    tests_identity = Same-trans identity_fields q s u a.tests_identity b.tests_identity;
    metric_keys =
        Covers-trans (list_at "metric_keys" q) (list_at "metric_keys" s) (list_at "metric_keys" u)
          a.metric_keys b.metric_keys;
    tolerance = a.tolerance ∙ b.tolerance;
    trace_list = a.trace_list ∙ b.trace_list;
    workloads =
        Covers-trans (list_at "traces" (dict_at "smoke" q)) (list_at "traces" (dict_at "smoke" s))
          (list_at "traces" (dict_at "smoke" u)) a.workloads b.workloads;
    recorded_runs =
        All_mono _ _ (entries q "performance" "id")
          (λ row m run.
            RunKept-trans _ _ row (All_lookup _ _ row a.tests_entries.1.0 m) run b.tests_entries.1.0
              b.recorded_runs)
          a.recorded_runs;
    enable =
        Same-trans ("name" ∷ "macro" ∷ []) (dict_at "feature_enable" p) (dict_at "feature_enable" r)
          (dict_at "feature_enable" t) a.enable b.enable;
    storage = λ given. let first = a.storage given in b.storage (rw (sym first) at given) ∙ first;
    alternatives =
        All_mono _ _ (by_text p)
          (λ row _ found. All_lookup _ (by_text r) row b.alternatives (find-In row.0 row.1 _ found))
          a.alternatives;
    port_entries = CollectionKept-trans plan_rules p r t a.port_entries b.port_entries;
    tests_entries = CollectionKept-trans test_rules q s u a.tests_entries b.tests_entries;
  }

  -- A revision that repeats the pair in force is never refused.
  pub guard_self : (port tests : Fields A) → blocking (guard port tests port tests) ≡ []
  guard_self port tests = (guard-FieldsKept _ _ _ _).1 (FieldsKept-self port tests)

  -- A weaker demand cannot be reached in small steps: where the guard refuses nothing from a first
  -- pair to a second and from the second to a third, it refuses nothing from the first to the third.
  pub guard_trans :
      (old_port old_tests mid_port mid_tests new_port new_tests : Fields A)
      → blocking (guard old_port old_tests mid_port mid_tests) ≡ []
      → blocking (guard mid_port mid_tests new_port new_tests) ≡ []
      → blocking (guard old_port old_tests new_port new_tests) ≡ []
  guard_trans p q r s t u h k = (guard-FieldsKept _ _ _ _).1 (
      FieldsKept-trans p q r s t u ((guard-FieldsKept _ _ _ _).0 h)
        ((guard-FieldsKept _ _ _ _).0 k))
