-- ===== src/Replan/Design/Statuses.antt =====
-- When the resolutions of two port plans have the same status for every pointer (loop/replan.py,
-- `design_changes`).
use paper_to_pipeline.Revision.Chain.Tables.{
  find-In, Unique, find-set_item_ne, set_item-Unique, Unique-found,
}
use paper_to_pipeline.Base.{
  Option, refl, sym, ◌∙◌, Bool-cases, inl, inr, All_lookup, none, ◌≡◌, ◌↔◌, true, List, [], ◌∷◌,
  if◌then◌else◌, Eq, list_eq, option_eq, some, All, all_iff, All_mono, arith, &&_iff, ==_iff,
}
use paper_to_pipeline.Base.Json.{Json, Fields, json_beq, json_beq_lem, json_eq}
use paper_to_pipeline.Revision.Documents.{list_at, Table, find, set_item}
use paper_to_pipeline.Replan.Design.{status_from, resolution_status, table_beq}
use paper_to_pipeline.Replan.Design.Sites.{entry_value}

module _ {A : Type 0} ⦃e : Eq A⦄ where
  -- The status of the last resolution with a pointer.
  unfoldable pub last_status : (pointer : Json A) → List (Json A) → Option (Json A)
  last_status pointer [] = none
  last_status pointer (x ∷ xs) = elim (last_status pointer xs) [
    | some status ↦ some status
    | none ↦
        if json_beq (entry_value "spec_pointer" x) pointer
        then some (entry_value "status" x)
        else none
  ]

  -- Each holds the other's items.
  abbrev SameTable : Table A (Json A) → Table A (Json A) → Type 0
  SameTable a b =
      All (λ row. find row.0 b ≡ some row.1) a × All (λ row. find row.0 a ≡ some row.1) b

  table_beq_iff : (a b : Table A (Json A)) → (table_beq a b ≡ true) ↔ SameTable a b
  unfolding table_beq
  table_beq_iff a b = (
    λ h.
        let parts = (&&_iff _ _).0 h in
        (
          All_mono _ _ a (λ row _ m. (==_iff _ _).0 m) ((all_iff _ a).0 parts.0),
          All_mono _ _ b (λ row _ m. (==_iff _ _).0 m) ((all_iff _ b).0 parts.1),
        ),
    λ h. (&&_iff _ _).1 (
      (all_iff _ a).1 (All_mono _ _ a (λ row _ m. (==_iff _ _).1 m) h.0),
      (all_iff _ b).1 (All_mono _ _ b (λ row _ m. (==_iff _ _).1 m) h.1),
    ),
  )

  find-set_item_same :
      (h : Json A) (d : Json A) (t : Table A (Json A)) → find h (set_item h d t) ≡ some d
  unfolding find set_item
  find-set_item_same h d [] = ground (arith, json_beq_lem h h)
  find-set_item_same h d ((j, c) ∷ t) =
      ground (arith, json_beq_lem h h, json_beq_lem j h, find-set_item_same h d t)

  abbrev or_before : Option (Json A) → Option (Json A) → Option (Json A)
  or_before before (some status) = some status
  or_before before none = before

  -- The table of the statuses has the last one of each pointer.
  find-status_from :
      (pointer : Json A) (out : Table A (Json A)) (xs : List (Json A))
      → find pointer (status_from out xs) ≡ or_before (find pointer out) (last_status pointer xs)
  unfolding status_from last_status
  find-status_from pointer out [] = refl
  find-status_from pointer out (x ∷ xs) =
      find-status_from pointer
        (set_item (entry_value "spec_pointer" x) (entry_value "status" x) out) xs
      ∙ first (last_status pointer xs)
    where
      first :
          (later : Option (Json A))
          → or_before
              (find pointer (set_item (entry_value "spec_pointer" x) (entry_value "status" x) out))
              later
            ≡ or_before (find pointer out) (elim later [
              | some status ↦ some status
              | none ↦
                  if json_beq (entry_value "spec_pointer" x) pointer
                  then some (entry_value "status" x)
                  else none
            ])
      first (some status) = refl
      first none = elim (Bool-cases (json_beq (entry_value "spec_pointer" x) pointer)) [
        | inl same ↦
            let e = (json_beq_lem _ _).0 same in
            rw (same, e) (find-set_item_same pointer (entry_value "status" x) out)
        | inr other ↦ rw (other, find-set_item_ne _ pointer (entry_value "status" x) out other)
      ]

  status_from-Unique :
      (out : Table A (Json A)) (xs : List (Json A)) → Unique out → Unique (status_from out xs)
  unfolding status_from
  status_from-Unique out [] u = u
  status_from-Unique out (x ∷ xs) u =
      status_from-Unique (set_item (entry_value "spec_pointer" x) (entry_value "status" x) out) xs
        (set_item-Unique (entry_value "spec_pointer" x) (entry_value "status" x) out u)

  table_kept :
      (a b : Table A (Json A)) (key v : Json A)
      → SameTable a b
      → find key a ≡ some v
      → find key b ≡ some v
  table_kept a b key v h e = All_lookup _ a (key, v) h.0 (find-In key v a e)

  table_found :
      (a b : Table A (Json A)) (key : Json A) (x y : Option (Json A))
      → SameTable a b
      → find key a ≡ x
      → find key b ≡ y
      → x ≡ y
  table_found a b key (some v) y h e f = sym (table_kept a b key v h e) ∙ f
  table_found a b key none none h e f = refl
  table_found a b key none (some v) h e f = sym e ∙ table_kept b a key v (h.1, h.0) f

  tables_iff :
      (a b : Table A (Json A))
      → Unique a
      → Unique b
      → (table_beq a b ≡ true) ↔ ((key : Json A) → find key a ≡ find key b)
  tables_iff a b u w = (
    λ h key. table_found a b key _ _ ((table_beq_iff a b).0 h) refl refl,
    λ h. (table_beq_iff a b).1 (
      All_mono _ _ a (λ row _ f. sym (h row.0) ∙ f) (Unique-found a u),
      All_mono _ _ b (λ row _ f. h row.0 ∙ f) (Unique-found b w),
    ),
  )

  or_before-none : (later : Option (Json A)) → or_before none later ≡ later
  or_before-none none = refl
  or_before-none (some v) = refl

  resolution_status_lem :
      (plan : Fields A) (pointer : Json A)
      → find pointer (resolution_status plan)
        ≡ last_status pointer (list_at "interface_resolutions" plan)
  unfolding resolution_status find
  resolution_status_lem plan pointer =
      find-status_from pointer [] (list_at "interface_resolutions" plan) ∙ or_before-none _

  pub status_iff :
      (old new : Fields A)
      → (table_beq (resolution_status old) (resolution_status new) ≡ true) ↔ (
          (pointer : Json A)
          → last_status pointer (list_at "interface_resolutions" old)
            ≡ last_status pointer (list_at "interface_resolutions" new))
  unfolding resolution_status
  status_iff old new =
      let tables =
        tables_iff (resolution_status old) (resolution_status new)
          (status_from-Unique [] (list_at "interface_resolutions" old) tt)
          (status_from-Unique [] (list_at "interface_resolutions" new) tt) in
      (
        λ h pointer.
            sym (resolution_status_lem old pointer)
            ∙ (tables.0 h pointer ∙ resolution_status_lem new pointer),
        λ h. tables.1 λ pointer.
            resolution_status_lem old pointer
            ∙ (h pointer ∙ sym (resolution_status_lem new pointer)),
      )
