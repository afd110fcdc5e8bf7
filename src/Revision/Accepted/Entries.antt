-- ===== src/Revision/Accepted/Entries.antt =====
-- The rule of a keyed collection (loop/plan_revision.py, `_check_collection`): append-only, and a
-- surviving entry repeats what may not be revised.
use paper_to_pipeline.Base.{
  ◌≡◌, refl, ◌↔◌, ◌⊎◌, inl, inr, ◌++◌, Bool, true, false, List, [], ◌∷◌, Eq, string_eq, some,
  String, All, In, contains, arith, if◌then◌else◌, append-eq-nil, contains_iff, ◌||◌, In-append,
  Bool-cases, ℕ, ◌∙◌, sym, Option-cases,
}
use paper_to_pipeline.Base.Json.{
  Json, null, Fields, field, end, names, json_beq, json_beq_lem, json_eq,
}
use text.Mathlib.TextEquality.{eq_iff}
use paper_to_pipeline.Findings.{Finding, blocking}
use paper_to_pipeline.Revision.Documents.{value, insert_name, sorted_set, Table, find, entries}
use paper_to_pipeline.Revision.Guard.{
  Segment, Note, Collection, check_fields, check_entry, check_entries, check_collection,
  check_collections, refusal,
}
use mathlib.Core.Bool.{false≢true}
use mathlib.Core.Option.{some-injective}

module _ {P M : Type 0} where
  blocking-append : (xs ys : List (Finding P M)) → blocking (xs ++ ys) ≡ blocking xs ++ blocking ys
  unfolding blocking
  blocking-append [] ys = refl
  blocking-append (x ∷ xs) ys = ground (arith, blocking-append xs ys)

  -- Nothing in the findings blocks.
  abbrev pub IsClear : List (Finding P M) → Type 0
  IsClear fs = blocking fs ≡ []

  pub IsClear-append : (xs ys : List (Finding P M)) → IsClear (xs ++ ys) ↔ (IsClear xs × IsClear ys)
  IsClear-append xs ys = rw (blocking-append xs ys) (append-eq-nil (blocking xs) (blocking ys))

  pub both-IsClear : (xs ys : List (Finding P M)) → IsClear xs → IsClear ys → IsClear (xs ++ ys)
  both-IsClear xs ys h k = (IsClear-append xs ys).1 (h, k)

pub IsClear_nil : (P M : Type 0) → blocking {P = P} {M = M} [] ≡ []
unfolding blocking
IsClear_nil P M = refl

not-In : (ks : List String) (k : String) → contains ks k ≡ false → ¬ In k ks
not-In ks k h m = false≢true (sym h ∙ (contains_iff ks k).1 m)

In-insert_name : (k j : String) (js : List String) → In k (insert_name j js) ↔ ((k ≡ j) ⊎ In k js)
unfolding insert_name
In-insert_name k j [] = ground arith
In-insert_name k j (i ∷ js) = ground (arith, eq_iff i j, In-insert_name k j js)

In-sorted_set : (k : String) (ks : List String) → In k (sorted_set ks) ↔ In k ks
unfolding sorted_set
In-sorted_set k [] = ground arith
In-sorted_set k (j ∷ ks) = ground (arith, In-insert_name k j (sorted_set ks), In-sorted_set k ks)

module _ {A : Type 0} where
  -- A refusal is raised exactly where its test fails.
  pub refusal_iff :
      (t : Bool) (pointer : List (Segment A)) (code : String) (note : Note A)
      → IsClear (if t then [] else refusal pointer code note) ↔ (t ≡ true)
  unfolding blocking
  refusal_iff true pointer code note = (λ _. refl, λ _. refl)
  refusal_iff false pointer code note = (λ h. cc, λ h. cc)

  -- A name that an object does not have reads as `None`.
  value_absent : (k : String) (d : Fields A) → ¬ In k (names d) → value k d ≡ null
  value_absent k end h = refl
  value_absent k (field j v d) h = ground (arith, eq_iff j k, value_absent k d)

module _ {A : Type 0} ⦃e : Eq A⦄ where
  -- What the collection's rule asks of one entry of the pair in force: the revision has an entry
  -- under the same handle, and it repeats every field that is not revisable.
  abbrev pub EntryKept : Collection → Table A (Fields A) → Json A × Fields A → Type 0
  EntryKept c after row =
      (replacement : Fields A) × (find row.0 after ≡ some replacement)
      × ((k : String) → ¬ In k c.revisable → value k row.1 ≡ value k replacement)

  abbrev pub CollectionKept : Fields A → Fields A → Collection → Type 0
  CollectionKept old new c =
      All (EntryKept c (entries new c.called c.key)) (entries old c.called c.key)

  frozen_kept :
      (c : Collection) (k : String) (entry replacement : Fields A)
      → (contains c.revisable k || json_beq (value k entry) (value k replacement)) ≡ true
      → ¬ In k c.revisable
      → value k entry ≡ value k replacement
  frozen_kept c k entry replacement h frozen =
      ground (arith, contains_iff c.revisable k, json_beq_lem (value k entry) (value k replacement))

  field_passes :
      (c : Collection) (k : String) (entry replacement : Fields A)
      → (¬ In k c.revisable → value k entry ≡ value k replacement)
      → (contains c.revisable k || json_beq (value k entry) (value k replacement)) ≡ true
  field_passes c k entry replacement h = elim (Bool-cases (contains c.revisable k)) [
    | inl listed ↦ rw listed
    | inr other ↦
        rw (other, h (λ m. false≢true (sym other ∙ (contains_iff c.revisable k).1 m)))
          ((json_beq_lem _ _).1 refl)
  ]

  check_fields-IsClear :
      (label : String) (c : Collection) (i : ℕ) (entry replacement : Fields A) (ks : List String)
      → IsClear (check_fields label c i entry replacement ks)
        ↔ ((k : String) → In k ks → ¬ In k c.revisable → value k entry ≡ value k replacement)
  unfolding check_fields
  check_fields-IsClear label c i entry replacement [] = (λ _ k m. absurd m, λ _. IsClear_nil _ _)
  check_fields-IsClear label c i entry replacement (k ∷ ks) = (
    λ h.
        let parts = (IsClear-append _ _).0 h in
        let rest = (check_fields-IsClear label c i entry replacement ks).0 parts.1 in
        let here = (refusal_iff _ _ _ _).0 parts.0 in
        λ j m frozen. elim m [
          | inl p ↦ rw p (frozen_kept c k entry replacement here (rw p at frozen))
          | inr m' ↦ rest j m' frozen
        ],
    λ h. (IsClear-append _ _).1 (
      (refusal_iff _ _ _ _).1 (field_passes c k entry replacement (h k (inl refl))),
      (check_fields-IsClear label c i entry replacement ks).1 (λ j m. h j (inr m)),
    ),
  )

  -- The loop over the names of both entries reads every field of both.
  all_fields :
      (c : Collection) (entry replacement : Fields A)
      → ((k : String)
          → In k (sorted_set (names entry ++ names replacement))
          → ¬ In k c.revisable
          → value k entry ≡ value k replacement)
      → (k : String) → ¬ In k c.revisable
      → value k entry ≡ value k replacement
  all_fields c entry replacement h k frozen =
      let both = names entry ++ names replacement in
      elim (Bool-cases (contains both k)) [
        | inl m ↦ h k ((In-sorted_set k both).1 ((contains_iff both k).0 m)) frozen
        | inr m ↦
            value_absent k entry (λ i. not-In both k m ((In-append k _ _).1 (inl i)))
            ∙ sym (value_absent k replacement (λ i. not-In both k m ((In-append k _ _).1 (inr i))))
      ]

  check_entry-IsClear :
      (label : String) (new : Fields A) (c : Collection) (handle : Json A) (entry : Fields A)
      (after : Table A (Fields A))
      → IsClear (check_entry label new c handle entry (find handle after))
        ↔ EntryKept c after (handle, entry)
  unfolding check_entry
  check_entry-IsClear label new c handle entry after = elim (Option-cases (find handle after)) [
    | inl gone ↦ rw gone (λ h. cc ((refusal_iff false _ _ _).0 h), λ (r, found, _). cc)
    | inr (r, found) ↦ rw found (
      λ h. (r, refl, all_fields c entry r ((check_fields-IsClear label c _ entry r _).0 h)),
      λ (q, same, kept).
          (check_fields-IsClear label c _ entry r _).1
            (λ k _ frozen. rw (some-injective _ _ same) (kept k frozen)),
    )
  ]

  check_entries-IsClear :
      (label : String) (new : Fields A) (c : Collection) (after before : Table A (Fields A))
      → IsClear (check_entries label new c after before) ↔ All (EntryKept c after) before
  unfolding check_entries
  check_entries-IsClear label new c after [] = (λ _. tt, λ _. IsClear_nil _ _)
  check_entries-IsClear label new c after ((handle, entry) ∷ before) = (
    λ h.
        let parts = (IsClear-append _ _).0 h in
        (
          (check_entry-IsClear label new c handle entry after).0 parts.0,
          (check_entries-IsClear label new c after before).0 parts.1,
        ),
    λ h. (IsClear-append _ _).1 (
      (check_entry-IsClear label new c handle entry after).1 h.0,
      (check_entries-IsClear label new c after before).1 h.1,
    ),
  )

  pub check_collections-IsClear :
      (label : String) (old new : Fields A) (cs : List Collection)
      → IsClear (check_collections label old new cs) ↔ All (CollectionKept old new) cs
  unfolding check_collections check_collection
  check_collections-IsClear label old new [] = (λ _. tt, λ _. IsClear_nil _ _)
  check_collections-IsClear label old new (c ∷ cs) = (
    λ h.
        let parts = (IsClear-append _ _).0 h in
        (
          (check_entries-IsClear label new c _ _).0 parts.0,
          (check_collections-IsClear label old new cs).0 parts.1,
        ),
    λ h. (IsClear-append _ _).1 (
      (check_entries-IsClear label new c _ _).1 h.0,
      (check_collections-IsClear label old new cs).1 h.1,
    ),
  )
