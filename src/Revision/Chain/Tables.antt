-- ===== src/Revision/Chain/Tables.antt =====
-- Tables of entries: what `find` returns is there, and the tables that the guard builds list every
-- handle once.
use paper_to_pipeline.Base.{
  ◌≡◌, refl, inl, inr, List, [], ◌∷◌, Eq, All, All_mono, In, some, none, false, if◌then◌else◌,
  Bool-cases, ◌∙◌, String, arith,
}
use paper_to_pipeline.Base.Json.{
  Json, Fields, obj, arr, null, bool, num, str, json_beq, json_beq_lem,
}
use paper_to_pipeline.Revision.Documents.{
  value, or_dict, is_null, list_at, Table, find, set_default, set_item, add_entry, entries_from,
  entries, by_text_from, by_text,
}

module _ {A : Type 0} ⦃e : Eq A⦄ where
  beq_sym : (i h : Json A) → json_beq i h ≡ false → json_beq h i ≡ false
  beq_sym i h ne = ground (arith, json_beq_lem i h, json_beq_lem h i)

module _ {A V : Type 0} ⦃e : Eq A⦄ where
  pub find-In : (h : Json A) (d : V) (t : Table A V) → find h t ≡ some d → In (h, d) t
  unfolding find
  find-In h d [] p = cc
  find-In h d ((j, c) ∷ t) p = ground (arith, json_beq_lem j h, find-In h d t)

  -- No handle is listed twice.
  abbrev pub Unique : Table A V → Type 0
  Unique [] = Unit
  Unique ((h, d) ∷ t) = (find h t ≡ none) × Unique t

  find-set_default_ne :
      (h j : Json A) (d : V) (t : Table A V)
      → json_beq h j ≡ false
      → find j (set_default h d t) ≡ find j t
  unfolding find set_default
  find-set_default_ne h j d [] ne = ground arith
  find-set_default_ne h j d ((i, c) ∷ t) ne = ground (arith, find-set_default_ne h j d t)

  set_default-Unique : (h : Json A) (d : V) (t : Table A V) → Unique t → Unique (set_default h d t)
  unfolding set_default find
  set_default-Unique h d [] u = (refl, tt)
  set_default-Unique h d ((i, c) ∷ t) u = elim (Bool-cases (json_beq i h)) [
    | inl same ↦ rw same u
    | inr other ↦
        rw other
          (find-set_default_ne h i d t (beq_sym i h other) ∙ u.0, set_default-Unique h d t u.1)
  ]

  pub find-set_item_ne :
      (h j : Json A) (d : V) (t : Table A V)
      → json_beq h j ≡ false
      → find j (set_item h d t) ≡ find j t
  unfolding find set_item
  find-set_item_ne h j d [] ne = ground arith
  find-set_item_ne h j d ((i, c) ∷ t) ne =
      ground (arith, find-set_item_ne h j d t, json_beq_lem i h, json_beq_lem h j, json_beq_lem i j)

  pub set_item-Unique : (h : Json A) (d : V) (t : Table A V) → Unique t → Unique (set_item h d t)
  unfolding set_item find
  set_item-Unique h d [] u = (refl, tt)
  set_item-Unique h d ((i, c) ∷ t) u = elim (Bool-cases (json_beq i h)) [
    | inl same ↦ rw same u
    | inr other ↦
        rw other (find-set_item_ne h i d t (beq_sym i h other) ∙ u.0, set_item-Unique h d t u.1)
  ]

  pub Unique-found : (t : Table A V) → Unique t → All (λ row. find row.0 t ≡ some row.1) t
  unfolding find
  Unique-found [] u = tt
  Unique-found ((h, d) ∷ t) u = (
    rw ((json_beq_lem h h).1 refl) refl,
    All_mono _ _ t (λ row _ p. later row p) (Unique-found t u.1),
  )
    where
      later :
          (row : Json A × V)
          → find row.0 t ≡ some row.1
          → (if json_beq h row.0 then some d else find row.0 t) ≡ some row.1
      later row p = elim (Bool-cases (json_beq h row.0)) [
        | inl same ↦ let gone : find row.0 t ≡ none = rw (← (json_beq_lem h row.0).0 same) u.0 in cc
        | inr other ↦ rw other p
      ]

module _ {A : Type 0} ⦃e : Eq A⦄ where
  add_entry-Unique :
      (key : String) (out : Table A (Fields A)) (x : Json A)
      → Unique out
      → Unique (add_entry key out x)
  unfolding add_entry
  add_entry-Unique key out (obj d) u = elim (Bool-cases (is_null (value key d))) [
    | inl missing ↦ rw missing u
    | inr present ↦ rw present (set_default-Unique (value key d) d out u)
  ]
  add_entry-Unique key out null u = u
  add_entry-Unique key out (bool _) u = u
  add_entry-Unique key out (num _) u = u
  add_entry-Unique key out (str _) u = u
  add_entry-Unique key out (arr _) u = u

  entries_from-Unique :
      (key : String) (out : Table A (Fields A)) (xs : List (Json A))
      → Unique out
      → Unique (entries_from key out xs)
  unfolding entries_from
  entries_from-Unique key out [] u = u
  entries_from-Unique key out (x ∷ xs) u =
      entries_from-Unique key (add_entry key out x) xs (add_entry-Unique key out x u)

  -- Every entry of a collection is found under its own handle.
  pub entries-found :
      (document : Fields A) (called key : String)
      → All
          (λ row. find row.0 (entries document called key) ≡ some row.1)
          (entries document called key)
  unfolding entries
  entries-found document called key =
      Unique-found _ (entries_from-Unique key [] (list_at called document) tt)

  by_text_from-Unique :
      (out : Table A (Json A)) (xs : List (Json A)) → Unique out → Unique (by_text_from out xs)
  unfolding by_text_from
  by_text_from-Unique out [] u = u
  by_text_from-Unique out (x ∷ xs) u =
      by_text_from-Unique (set_item (value "alternative" (or_dict x)) x out) xs
        (set_item-Unique (value "alternative" (or_dict x)) x out u)

  pub by_text-found :
      (document : Fields A)
      → All (λ row. find row.0 (by_text document) ≡ some row.1) (by_text document)
  unfolding by_text
  by_text-found document = Unique-found _ (by_text_from-Unique [] _ tt)
