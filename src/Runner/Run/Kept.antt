-- ===== src/Runner/Run/Kept.antt =====
-- What the cache of a run of a test plan keeps, and where its runs come from (loop/plan_runner.py,
-- `run_once`).
use paper_to_pipeline.Base.{
  ℕ, ◌≡◌, refl, inl, inr, String, Bool, Option, none, some, List, [], ◌∷◌, ◌++◌, All, arith,
  Bool-cases, sym,
}
use paper_to_pipeline.Base.Dict.{Dict}
use paper_to_pipeline.Runner.Plan.{Executor}
use paper_to_pipeline.Runner.Run.{Key, key_eq, Seen, lookup, Session, run_cached, run_once}

lookup-append :
    {V : Type 0} (key : Key) (xs ys : List (Key × V)) (v : V)
    → lookup key xs ≡ some v
    → lookup key (xs ++ ys) ≡ some v
unfolding lookup
lookup-append key [] ys v h = cc
lookup-append key ((k, w) ∷ xs) ys v h = elim (Bool-cases (key_eq.beq k key)) [
  | inl e ↦ ground (arith, e, h)
  | inr e ↦ ground (arith, e, lookup-append key xs ys v (ground (arith, e, h)))
]

lookup-snoc :
    {V : Type 0} (key : Key) (xs : List (Key × V)) (v : V)
    → lookup key xs ≡ none
    → lookup key (xs ++ (key, v) ∷ []) ≡ some v
unfolding lookup
lookup-snoc key [] v h = ground (arith, (key_eq.decides key key).1 refl)
lookup-snoc key ((k, w) ∷ xs) v h = elim (Bool-cases (key_eq.beq k key)) [
  | inl e ↦ absurd (ground (arith, e, h))
  | inr e ↦ ground (arith, e, lookup-snoc key xs v (ground (arith, e, h)))
]

-- What one cache answers, a later one answers too.
abbrev pub Keeps : {V : Type 0} (before after : List (Key × V)) → Type 0
Keeps {V} before after =
    (key : Key) (v : V) → lookup key before ≡ some v → lookup key after ≡ some v

pub lookup_All :
    {V : Type 0} (P : Key → V → Type 0) (key : Key) (cache : List (Key × V)) (v : V)
    → All (λ row. P row.0 row.1) cache
    → lookup key cache ≡ some v
    → P key v
unfolding lookup
lookup_All P key [] v all h = cc
lookup_All P key ((k, w) ∷ cache) v all h = elim (Bool-cases (key_eq.beq k key)) [
  | inl e ↦
      let found : some w ≡ some v = rw e at h in
      let same_key : k ≡ key = (key_eq.decides k key).0 e in
      let same : w ≡ v = cc in rw (sym same_key, sym same) all.0
  | inr e ↦ lookup_All P key cache v all.1 (rw e at h)
]

All_snoc :
    {X : Type 0} (P : X → Type 0) (xs : List X) (x : X) → All P xs → P x → All P (xs ++ x ∷ [])
All_snoc P [] x all h = (h, tt)
All_snoc P (y ∷ xs) x all h = (all.0, All_snoc P xs x all.1 h)

module _ {S A H : Type 0} (executor : Executor S A H) where
  -- The worlds that shell runs lead to.
  pub data Reached (base : S) : S → Type 0 where
    start : Reached base base
    ran :
        (t : S) (command : String) (feature_on : Bool) (env : Dict String) (timeout : ℕ)
        → Reached base t
        → Reached base (executor.shell command feature_on env timeout t).1

  -- What `executor.shell` gives for the key in a world that is reached, with the metrics parsed from
  -- its output.
  pub record Ran (base : S) (key : Key) (seen : Seen A) : Type 0 where
    pub timeout : ℕ
    pub world : S
    pub reached : Reached base world
    pub is_outcome : seen.0 ≡ (executor.shell key.0 key.1.0 key.1.1 timeout world).0
    pub is_parsed : seen.1 ≡ executor.parse_metrics seen.0.output

  -- Every run in the cache is one of its key, and the world is reached.
  abbrev pub Kept : S → Session S A → Type 0
  Kept base session = Reached base session.world × All (λ row. Ran base row.0 row.1) session.cache

  run_cached-Kept :
      (base : S) (key : Key) (timeout : ℕ) (session : Session S A) (found : Option (Seen A))
      → Kept base session
      → Kept base (run_cached executor found key timeout session).1
  unfolding run_cached
  run_cached-Kept base key timeout session (some seen) h = h
  run_cached-Kept base (command, (on, env)) timeout session none (reached, rows) = (
    ran session.world command on env timeout reached,
    All_snoc _ session.cache _ rows (record {
      timeout = timeout;
      world = session.world;
      reached = reached;
      is_outcome = refl;
      is_parsed = refl;
    }),
  )

  pub run_once-Kept :
      (base : S) (key : Key) (timeout : ℕ) (session : Session S A)
      → Kept base session
      → Kept base (run_once executor key timeout session).1
  unfolding run_once
  run_once-Kept base key timeout session h =
      run_cached-Kept base key timeout session (lookup key session.cache) h

  run_cached-Keeps :
      (key : Key) (timeout : ℕ) (session : Session S A) (found : Option (Seen A))
      → lookup key session.cache ≡ found
      → (let (seen, after) = run_cached executor found key timeout session in
          Keeps session.cache after.cache × (lookup key after.cache ≡ some seen))
  unfolding run_cached
  run_cached-Keeps key timeout session (some seen) e = (λ k v h. h, e)
  run_cached-Keeps key timeout session none e =
      (λ k v h. lookup-append k session.cache _ v h, lookup-snoc key session.cache _ e)

  pub run_once-Keeps :
      (key : Key) (timeout : ℕ) (session : Session S A)
      → (let (seen, after) = run_once executor key timeout session in
          Keeps session.cache after.cache × (lookup key after.cache ≡ some seen))
  unfolding run_once
  run_once-Keeps key timeout session =
      run_cached-Keeps key timeout session (lookup key session.cache) refl
