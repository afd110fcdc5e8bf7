-- ===== src/Runner/Run/Cache.antt =====
-- Each distinct command runs once (loop/plan_runner.py, `run_once`).
use paper_to_pipeline.Base.{
  ℕ, ◌≡◌, refl, ◌↔◌, ◌⊎◌, inl, inr, Bool, Option, none, some, List, [], ◌∷◌, ◌++◌, map, In,
  In-append, arith, sym, subst, ap, Bool-cases, ◌∙◌,
}
use mathlib.Core.Bool.{false≢true}
use paper_to_pipeline.Base.Dict.{Dict}
use paper_to_pipeline.Base.Json.{Json}
use paper_to_pipeline.Base.Numbers.{Arith}
use paper_to_pipeline.Runner.Plan.{Executor, Library, states, CorrectnessEntry, TestPlan}
use paper_to_pipeline.Runner.Measure.{timeout_of}
use paper_to_pipeline.Runner.Run.{
  Key, key_eq, Seen, lookup, Session, Progress, run_cached, run_once, run_states, run_correctness,
}

-- The host, with a log of the commands that it was asked to run.
abbrev pub logging : {S A H : Type 0} → Executor S A H → Executor (List Key × S) A H
logging executor = record {
  build = λ feature_on timeout (log, s).
      let (build, s') = executor.build feature_on timeout s in (build, (log, s'));
  shell = λ command feature_on env timeout (log, s).
      let (outcome, s') = executor.shell command feature_on env timeout s in
      (outcome, (log ++ (command, (feature_on, env)) ∷ [], s'));
  parse_metrics = executor.parse_metrics;
  run_traces = λ traces feature_on timeout (log, s).
      let (outcome, s') = executor.run_traces traces feature_on timeout s in (outcome, (log, s'));
}

abbrev pub Distinct : List Key → Type 0
Distinct [] = Unit
Distinct (k ∷ ks) = (¬ In k ks) × Distinct ks

Distinct-snoc : (ks : List Key) (k : Key) → Distinct ks → ¬ In k ks → Distinct (ks ++ k ∷ [])
Distinct-snoc [] k h new = (λ m. m, tt)
Distinct-snoc (j ∷ ks) k h new = (
  λ m. elim ((In-append j ks (k ∷ [])).0 m) [
    | inl old ↦ h.0 old
    | inr (inl e) ↦ new (inl (sym e))
    | inr (inr none_left) ↦ none_left
  ],
  Distinct-snoc ks k h.1 (λ m. new (inr m)),
)

-- The commands that the entries ask for, in order.
abbrev pub state_keys : {A : Type 0} → CorrectnessEntry A → List Bool → List Key
state_keys entry [] = []
state_keys entry (feature_on ∷ more) =
    (entry.command, (feature_on, entry.env)) ∷ state_keys entry more

unfoldable pub asked : {A : Type 0} → List (CorrectnessEntry A) → List Key
unfolding states
asked [] = []
asked (entry ∷ entries) = state_keys entry (states entry.feature_state) ++ asked entries

module _ {V : Type 0} where
  abbrev keys : List (Key × V) → List Key
  keys cache = map (λ e. e.0) cache

  lookup-none :
      (key : Key) (cache : List (Key × V)) → lookup key cache ≡ none → ¬ In key (keys cache)
  unfolding lookup
  lookup-none key [] h m = m
  lookup-none key ((k, v) ∷ cache) h m = elim (Bool-cases (key_eq.beq k key)) [
    | inl e ↦ ground (arith, e, h)
    | inr e ↦ elim m [
      | inl same ↦ absurd (false≢true (sym e ∙ (key_eq.decides k key).1 (sym same)))
      | inr m' ↦ lookup-none key cache (ground (arith, e, h)) m'
    ]
  ]

  lookup-some :
      (key : Key) (cache : List (Key × V)) (v : V) → lookup key cache ≡ some v → In key (keys cache)
  unfolding lookup
  lookup-some key [] v h = cc
  lookup-some key ((k, w) ∷ cache) v h = elim (Bool-cases (key_eq.beq k key)) [
    | inl e ↦ inl (sym ((key_eq.decides k key).0 e))
    | inr e ↦ inr (lookup-some key cache v (ground (arith, e, h)))
  ]

  keys-snoc :
      (cache : List (Key × V)) (key : Key) (v : V)
      → keys (cache ++ (key, v) ∷ []) ≡ keys cache ++ key ∷ []
  keys-snoc [] key v = refl
  keys-snoc (e ∷ cache) key v = ap (λ ks. e.0 ∷ ks) (keys-snoc cache key v)

module _ {S A : Type 0} where
  -- The cache holds what was run, without repetition.
  abbrev IsCached : Session (List Key × S) A → Type 0
  IsCached session = (keys session.cache ≡ session.world.0) × Distinct session.world.0

  -- From one session to a later one, the commands `ks` and no others were added to those run.
  record Adds (before after : Session (List Key × S) A) (ks : List Key) : Type 0 where
    pub cached : IsCached after
    pub members : (k : Key) → In k after.world.0 ↔ (In k before.world.0 ⊎ In k ks)

  Adds-none : (session : Session (List Key × S) A) → IsCached session → Adds session session []
  Adds-none session ok = record {
    cached = ok;
    members = λ k. (λ m. inl m, λ m. elim m [ inl h ↦ h | inr h ↦ absurd h ]);
  }

  Adds-trans :
      (s t u : Session (List Key × S) A) (xs ys : List Key)
      → Adds s t xs
      → Adds t u ys
      → Adds s u (xs ++ ys)
  Adds-trans s t u xs ys a b = record {
    cached = b.cached;
    members = λ k. ground (arith, a.members k, b.members k, In-append k xs ys);
  }

  module _ {H : Type 0} (executor : Executor S A H) where
    run_cached-Adds :
        (key : Key) (timeout : ℕ) (session : Session (List Key × S) A) (found : Option (Seen A))
        → IsCached session
        → lookup key session.cache ≡ found
        → Adds session (run_cached (logging executor) found key timeout session).1 (key ∷ [])
    unfolding run_cached
    run_cached-Adds key timeout session (some seen) ok e = record {
      cached = ok;
      members = λ k. (
        λ m. inl m,
        λ m. elim m [
          | inl h ↦ h
          | inr (inl same) ↦
              let there = rw ok.0 at (lookup-some key session.cache seen e) in
              subst (λ j. In j session.world.0) (sym same) there
          | inr (inr h) ↦ absurd h
        ],
      );
    }
    run_cached-Adds key timeout session none ok e = record {
      cached = (
        keys-snoc session.cache key _ ∙ ap (λ ks. ks ++ key ∷ []) ok.0,
        Distinct-snoc session.world.0 key ok.1 (rw ok.0 at (lookup-none key session.cache e)),
      );
      members = λ k. In-append k session.world.0 (key ∷ []);
    }

    run_once-Adds :
        (key : Key) (timeout : ℕ) (session : Session (List Key × S) A)
        → IsCached session
        → Adds session (run_once (logging executor) key timeout session).1 (key ∷ [])
    unfolding run_once
    run_once-Adds key timeout session ok =
        run_cached-Adds key timeout session (lookup key session.cache) ok refl

    module _ ⦃n : Arith A⦄ (lib : Library) (plan : TestPlan A) (baseline : Json A) where
      run_states-Adds :
          (entry : CorrectnessEntry A) (more : List Bool) (p : Progress A)
          (session : Session (List Key × S) A)
          → IsCached session
          → Adds session
              (run_states lib plan baseline (logging executor) entry more p session).1
              (state_keys entry more)
      unfolding run_states
      run_states-Adds entry [] p session ok = Adds-none session ok
      run_states-Adds entry (on ∷ more) p session ok =
          let first =
            run_once-Adds (entry.command, (on, entry.env)) (timeout_of entry.timeout) session ok in
          Adds-trans session _ _ (_ ∷ []) (state_keys entry more) first
            (run_states-Adds entry more _ _ first.cached)

      run_correctness-Adds :
          (entries : List (CorrectnessEntry A)) (off_metrics : Dict A)
          (session : Session (List Key × S) A)
          → IsCached session
          → Adds session
              (run_correctness lib plan baseline (logging executor) entries off_metrics session).1
              (asked entries)
      unfolding run_correctness asked
      run_correctness-Adds [] off_metrics session ok = Adds-none session ok
      run_correctness-Adds (entry ∷ entries) off_metrics session ok =
          let first = run_states-Adds entry (states entry.feature_state) _ session ok in
          Adds-trans session _ _ _ (asked entries) first
            (run_correctness-Adds entries _ _ first.cached)

      -- The correctness entries run every command that they ask for exactly once, whatever the
      -- number of entries that share it: the log of the runs repeats nothing and has the
      -- commands asked for.
      pub run_correctness-Distinct :
          (entries : List (CorrectnessEntry A)) (s : S)
          → (let log =
                (run_correctness lib plan baseline
                  (logging executor)
                  entries
                  []
                  (record { cache = []; world = ([], s) })).1.world.0 in
              Distinct log × ((k : Key) → In k log ↔ In k (asked entries)))
      run_correctness-Distinct entries s =
          let a =
            run_correctness-Adds entries [] (record { cache = []; world = ([], s) }) (refl, tt) in
          (
            a.cached.1,
            λ k. (
              λ m. elim ((a.members k).0 m) [ inl h ↦ absurd h | inr h ↦ h ],
              λ m. (a.members k).1 (inr m),
            ),
          )
