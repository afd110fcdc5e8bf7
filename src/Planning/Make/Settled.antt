-- ===== src/Planning/Make/Settled.antt =====
-- How stage 2 ends (loop/plan_node.py, `make_plan`).
use paper_to_pipeline.Base.{
  if_ind, ℕ, zero, suc, ◌≤◌, ◌≡◌, refl, sym, ◌∙◌, ◌≢◌, &&_iff, ◌↔◌, String, Bool, true, false,
  Option, none, some, List, [], ◌∷◌, map, Eq, not, ◌&&◌, is_empty_iff, arith, append-eq-nil,
  Bool-cases, inl, inr,
}
use paper_to_pipeline.Base.Json.{Fields, str, json_beq, json_eq}
use paper_to_pipeline.Findings.{Finding, blocking}
use paper_to_pipeline.Revision.Documents.{value}
use paper_to_pipeline.Revision.Guard.{Segment}
use paper_to_pipeline.Revision.Store.{latest, open_escalations}
use paper_to_pipeline.Revision.Store.Retired.{latest-retire}
use paper_to_pipeline.Revision.Store.Escalations.{clear_escalations-answered}
use paper_to_pipeline.Planning.Calls.{Called, on_call, on_call_ind, raised, returned}
use paper_to_pipeline.Planning.Reply.{
  in_document, truncate, validate_json, Schema, Reader, schema_errors, validate_loaded,
  parse_document, parse_blocks, parse_reply,
}
use paper_to_pipeline.Planning.Review.{Remark, Checks}
use paper_to_pipeline.Planning.Review.Verdict.{blocking-append}
use paper_to_pipeline.Planning.Make.{
  Draft, PlannerPrompt, plan_port, repair_plan, Settings, Desk, Made, crashes, refuses, writes,
  with_plan_remark, is_clean, revision_findings, check_plan, draft_of, repair_turns, settle_plan,
  make_plan,
}

map_nil : {X Y : Type 0} (f : X → Y) (xs : List X) → map f xs ≡ [] → xs ≡ []
map_nil f [] h = refl
map_nil f (x ∷ xs) h = cc

module _ {A : Type 0} (reader : Reader (Fields A)) where
  -- The document is there, and `jsonschema` finds nothing wrong with it.
  record Accepted (schema : Schema (Fields A)) (loaded : Option (Fields A)) : Type 0 where
    pub document : Fields A
    pub is_there : loaded ≡ some document
    pub installed : reader.has_jsonschema ≡ true
    pub valid : schema.violations document ≡ []

  no_schema_errors :
      (schema : Schema (Fields A)) (d : Fields A)
      → schema_errors reader schema true d ≡ []
      → (reader.has_jsonschema ≡ true) × (schema.violations d ≡ [])
  unfolding schema_errors
  no_schema_errors schema d h = elim (Bool-cases reader.has_jsonschema) [
    | inl e ↦ (e, rw e at h)
    | inr e ↦ (let wrong = rw e at h in cc)
  ]

  -- A document without an error is there, and accepted by its schema.
  loaded_document :
      (label : String) (schema : Schema (Fields A)) (x : Called (Fields A))
      → map (λ e. in_document label (truncate 300 e)) (validate_loaded reader schema true x).1 ≡ []
      → Accepted schema (validate_loaded reader schema true x).0
  unfolding validate_loaded
  loaded_document label schema (raised error) h = cc
  loaded_document label schema (returned d) h =
      let (installed, valid) = no_schema_errors schema d (map_nil _ _ h) in
      record { document = d; is_there = refl; installed = installed; valid = valid }

  parsed_document :
      (label : String) (schema : Schema (Fields A)) (block : String)
      → (parse_document reader label schema block).1 ≡ []
      → Accepted schema (parse_document reader label schema block).0
  unfolding parse_document validate_json
  parsed_document label schema block h = loaded_document label schema (reader.loads block) h

  blocks_documents :
      (port_schema tests_schema : Schema (Fields A)) (cut_off : Bool) (blocks : List String)
      → (parse_blocks reader port_schema tests_schema cut_off blocks).2 ≡ []
      → Accepted port_schema (parse_blocks reader port_schema tests_schema cut_off blocks).0
        × Accepted tests_schema (parse_blocks reader port_schema tests_schema cut_off blocks).1
  unfolding parse_blocks
  blocks_documents ps ts cut_off [] h = cc
  blocks_documents ps ts cut_off (a ∷ []) h = cc
  blocks_documents ps ts cut_off (a ∷ b ∷ []) h =
      let parts = (append-eq-nil _ _).0 h in
      (parsed_document "port plan" ps a parts.0, parsed_document "test plan" ts b parts.1)
  blocks_documents ps ts cut_off (a ∷ b ∷ c ∷ rest) h = cc

  -- A reply without an error has both documents, each accepted by its schema.
  reply_documents :
      (port_schema tests_schema : Schema (Fields A)) (reply : String)
      → (parse_reply reader port_schema tests_schema reply).2 ≡ []
      → Accepted port_schema (parse_reply reader port_schema tests_schema reply).0
        × Accepted tests_schema (parse_reply reader port_schema tests_schema reply).1
  unfolding parse_reply
  reply_documents ps ts reply h = blocks_documents ps ts _ _ h

module _ {A M : Type 0} where
  blocking-plan_remarks :
      (fs : List (Finding (List (Segment A)) (Remark A M)))
      → (blocking (map with_plan_remark fs) ≡ []) ↔ (blocking fs ≡ [])
  unfolding blocking
  blocking-plan_remarks [] = ground arith
  blocking-plan_remarks (f ∷ fs) = ground (arith, blocking-plan_remarks fs)

module _ {A M : Type 0} ⦃e : Eq A⦄ (checks : Checks A M) where
  -- The plan records the checkout's revision, where there is one to compare with.
  abbrev pub IsMeasured : Option String → Fields A → Type 0
  IsMeasured none port = Unit
  IsMeasured (some revision) port = value "host_revision" port ≡ str revision

  revision-IsMeasured :
      (revision : Option String) (port : Fields A)
      → blocking (revision_findings {M = M} revision port) ≡ []
      → IsMeasured revision port
  unfolding revision_findings blocking
  revision-IsMeasured none port h = tt
  revision-IsMeasured (some revision) port h =
      elim (Bool-cases (json_beq (value "host_revision" port) (str revision))) [
        | inl same ↦ (json_eq.decides _ _).0 same
        | inr differs ↦ (let refused = rw differs at h in cc)
      ]

module _ {S A M B : Type 0} ⦃e : Eq A⦄ (reader : Reader (Fields A)) (checks : Checks A M)
    (run_llm : PlannerPrompt A M B → S → Called String × S) (settings : Settings) where
  -- Both documents are there, `jsonschema` finds neither against its schema, the plan checks find no
  -- error in them, and the plan records the checkout's revision.
  pub record IsPlan (port tests : Option (Fields A)) : Type 0 where
    pub port_plan : Fields A
    pub test_plan : Fields A
    pub has_port : port ≡ some port_plan
    pub has_tests : tests ≡ some test_plan
    pub validated : reader.has_jsonschema ≡ true
    pub port_valid : checks.port_schema.violations port_plan ≡ []
    pub tests_valid : checks.tests_schema.violations test_plan ≡ []
    pub checked : blocking (checks.run_checks port_plan test_plan) ≡ []
    pub measured : IsMeasured checks settings.revision port_plan

  draft_checked :
      (port tests : Option (Fields A)) (p t : Fields A)
      → port ≡ some p
      → tests ≡ some t
      → blocking (check_plan checks settings.revision port tests) ≡ []
      → (blocking (checks.run_checks p t) ≡ []) × IsMeasured checks settings.revision p
  unfolding check_plan
  draft_checked port tests p t here there h =
      let clean = rw (here, there) at h in
      let parts = (append-eq-nil _ _).0 (
        sym (
          blocking-append (map with_plan_remark (checks.run_checks p t))
            (revision_findings settings.revision p))
        ∙ clean) in
      (
        (blocking-plan_remarks (checks.run_checks p t)).0 parts.0,
        revision-IsMeasured checks settings.revision p parts.1,
      )

  clean_draft :
      (reply : String)
      → is_clean (draft_of reader checks run_llm settings reply) ≡ true
      → IsPlan
          (draft_of reader checks run_llm settings reply).port
          (draft_of reader checks run_llm settings reply).tests
  unfolding draft_of
  clean_draft reply h =
      let (no_errors, none_blocking) = (&&_iff _ _).0 h in
      let (port, tests) =
        reply_documents reader checks.port_schema checks.tests_schema reply
          ((is_empty_iff _).0 no_errors) in
      let (checked, measured) =
        draft_checked _ _ port.document tests.document port.is_there tests.is_there
          ((is_empty_iff _).0 none_blocking) in
      record {
        port_plan = port.document;
        test_plan = tests.document;
        has_port = port.is_there;
        has_tests = tests.is_there;
        validated = port.installed;
        port_valid = port.valid;
        tests_valid = tests.valid;
        checked = checked;
        measured = measured;
      }

  -- A draft is of some reply.
  abbrev Drafted : Called (Draft A M) × S → Type 0
  Drafted (raised error, s) = Unit
  Drafted (returned d, s) = (reply : String) × (d ≡ draft_of reader checks run_llm settings reply)

  repair_turns-Drafted :
      (left : ℕ) (reply : String) (s : S)
      → Drafted (
          repair_turns reader checks run_llm settings left
            (draft_of reader checks run_llm settings reply)
            s)
  unfolding repair_turns
  repair_turns-Drafted zero reply s = (reply, refl)
  repair_turns-Drafted (suc left) reply s =
      let d = draft_of reader checks run_llm settings reply in
      if_ind Drafted (is_clean d) _ _ (λ _. (reply, refl))
        λ _.
          let (answer, s') = run_llm (repair_plan d.errors d.findings) s in
          on_call_ind Drafted answer s' _ _ (λ _ _. tt)
            (λ text _. repair_turns-Drafted left text s')

  -- What `make_plan` promises of its result and of what is left on the desk.
  abbrev pub Settles : Desk S A B → Made A M × Desk S A B → Type 0
  Settles before (crashes error, after) =
      (after.store ≡ before.store) × (after.escalations ≡ before.escalations)
  Settles before (refuses errors found, after) =
      (after.store ≡ before.store)
      × (after.escalations ≡ before.escalations)
      × (settings.allow_gaps ≡ false)
      × ¬ ((errors ≡ []) × (found ≡ []))
  Settles before (writes port tests, after) =
      (latest settings.rounds after.store ≡ (some port, some tests, 0))
      × (open_escalations after.escalations ≡ [])
      × (settings.allow_gaps ≡ false → IsPlan port tests)

  settle_plan-Settles :
      (reply : String) (before desk : Desk S A B)
      → settings.stamp ≢ ""
      → 1 ≤ settings.rounds
      → desk.store ≡ before.store
      → desk.escalations ≡ before.escalations
      → Settles before (
          settle_plan reader checks run_llm settings
            (draft_of reader checks run_llm settings reply)
            desk)
  unfolding settle_plan
  settle_plan-Settles reply before desk stamped enough stored kept =
      let d = draft_of reader checks run_llm settings reply in
      if_ind (Settles before) (not (is_clean d) && not settings.allow_gaps) _ _
        (λ refused. (
          stored,
          kept,
          ground (arith, refused),
          λ (none_wrong, none_found). ground (
            arith,
            refused,
            none_wrong,
            none_found,
            is_empty_iff d.errors,
            is_empty_iff (blocking d.findings),
          ),
        ))
        (λ accepted.
          let (_, closed, _) = clear_escalations-answered settings.stamp desk.escalations stamped in
          (
            latest-retire settings.rounds settings.rounds desk.store d.port d.tests enough,
            closed,
            λ strict. clean_draft reply (ground (arith, accepted, strict)),
          ))

  after_turns :
      (before : Desk S A B) (x : Called (Draft A M)) (s : S)
      → settings.stamp ≢ ""
      → 1 ≤ settings.rounds
      → Drafted (x, s)
      → Settles before (
          on_call
            (x, s)
            (λ error s'. (crashes error, record before { agent = s' }))
            (λ d s'. settle_plan reader checks run_llm settings d (record before { agent = s' })))
  after_turns before (raised error) s stamped enough h = (refl, refl)
  after_turns before (returned d) s stamped enough (reply, same) =
      rw same
        (settle_plan-Settles reply before (record before { agent = s }) stamped enough refl refl)

  -- With a stamp that is not empty and at least one round for `retire`: a plan that is written is the
  -- pair in force, with no escalation open; unless gaps are allowed both its
  -- documents are there, `jsonschema` is installed and finds no violation in either, the plan checks
  -- find no error in them, and it records the checkout's revision. A plan is refused
  -- only for an error and where gaps are not allowed. A run that refuses or crashes leaves the plan
  -- files and the escalations as they were.
  pub make_plan-Settles :
      (desk : Desk S A B)
      → settings.stamp ≢ ""
      → 1 ≤ settings.rounds
      → Settles desk (make_plan reader checks run_llm settings desk)
  unfolding make_plan
  make_plan-Settles desk stamped enough =
      let (answer, s) = run_llm (plan_port (open_escalations desk.escalations)) desk.agent in
      on_call_ind (Settles desk) answer s _ _ (λ _ _. (refl, refl))
        λ reply _.
          let (x, s') =
            repair_turns reader checks run_llm settings settings.turns
              (draft_of reader checks run_llm settings reply) s in
          after_turns desk x s' stamped enough (repair_turns-Drafted settings.turns reply s)
