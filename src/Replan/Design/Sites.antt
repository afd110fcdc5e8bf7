-- ===== src/Replan/Design/Sites.antt =====
-- When two lists of entries of a port plan stand for the same set of tuples (loop/replan.py,
-- `design_changes`).
use paper_to_pipeline.Base.{
  sym, subst, ap, In-map, inl, inr, ◌≡◌, ◌↔◌, String, true, List, [], ◌∷◌, map, Eq, list_eq,
  option_eq, All, In, all_iff, contains_iff, All_mono, &&_iff,
}
use paper_to_pipeline.Base.Json.{Json, Fields, json_eq}
use paper_to_pipeline.Revision.Documents.{value, or_dict, list_at}
use paper_to_pipeline.Replan.Design.{sites, hook_sites, knob_macros, host_knob_sites, set_beq}

module _ {A : Type 0} ⦃e : Eq A⦄ where
  -- What an entry of a list has under a name.
  abbrev pub entry_value : String → Json A → Json A
  entry_value k x = value k (or_dict x)

  -- Each entry of one list has one of the other that stands for the same, both ways.
  abbrev pub SameEntries :
      (IsSame : Json A → Json A → Type 0) (name : String) (old new : Fields A) → Type 0
  SameEntries IsSame name old new =
      All (λ x. (y : Json A) × In y (list_at name new) × IsSame x y) (list_at name old)
      × All (λ x. (y : Json A) × In y (list_at name old) × IsSame x y) (list_at name new)

  abbrev pub SameHook : Json A → Json A → Type 0
  SameHook x y =
      (entry_value "file" x ≡ entry_value "file" y)
      × (entry_value "symbol" x ≡ entry_value "symbol" y)
      × (entry_value "action" x ≡ entry_value "action" y)

  abbrev pub SameKnob : Json A → Json A → Type 0
  SameKnob x y =
      (entry_value "macro" x ≡ entry_value "macro" y)
      × (entry_value "binding" x ≡ entry_value "binding" y)

  abbrev pub SameHostKnob : Json A → Json A → Type 0
  SameHostKnob x y =
      (entry_value "macro" x ≡ entry_value "macro" y)
      × (entry_value "file" x ≡ entry_value "file" y)
      × (entry_value "host_symbol" x ≡ entry_value "host_symbol" y)

  -- Each holds the other's members.
  abbrev SameSet : List (List (Json A)) → List (List (Json A)) → Type 0
  SameSet a b = All (λ x. In x b) a × All (λ x. In x a) b

  set_beq_iff : (a b : List (List (Json A))) → (set_beq a b ≡ true) ↔ SameSet a b
  unfolding set_beq
  set_beq_iff a b = (
    λ h.
        let parts = (&&_iff _ _).0 h in
        (
          All_mono _ _ a (λ x _ m. (contains_iff b x).0 m) ((all_iff _ a).0 parts.0),
          All_mono _ _ b (λ x _ m. (contains_iff a x).0 m) ((all_iff _ b).0 parts.1),
        ),
    λ h. (&&_iff _ _).1 (
      (all_iff _ a).1 (All_mono _ _ a (λ x _ m. (contains_iff b x).1 m) h.0),
      (all_iff _ b).1 (All_mono _ _ b (λ x _ m. (contains_iff a x).1 m) h.1),
    ),
  )

  -- Tuples are equal when their parts are.
  abbrev IsTuple : (IsSame : Json A → Json A → Type 0) (names : List String) → Type 0
  IsTuple IsSame names =
      (x y : Json A)
      → (map (λ k. value k (or_dict x)) names ≡ map (λ k. value k (or_dict y)) names) ↔ IsSame x y

  pub three :
      (a b c a' b' c' : Json A)
      → (a ∷ b ∷ c ∷ [] ≡ a' ∷ b' ∷ c' ∷ []) ↔ ((a ≡ a') × (b ≡ b') × (c ≡ c'))
  three a b c a' b' c' = (λ h. (cc, cc, cc), λ (p, q, r). rw (p, q, r))

  two : (a b a' b' : Json A) → (a ∷ b ∷ [] ≡ a' ∷ b' ∷ []) ↔ ((a ≡ a') × (b ≡ b'))
  two a b a' b' = (λ h. (cc, cc), λ (p, q). rw (p, q))

  member_map :
      (f : Json A → List (Json A)) (ys : List (Json A)) (y : Json A) → In y ys → In (f y) (map f ys)
  member_map f [] y m = absurd m
  member_map f (x ∷ ys) y m = elim m [
    | inl e ↦ inl (ap f e)
    | inr later ↦ inr (member_map f ys y later)
  ]

  members_iff :
      (IsSame : Json A → Json A → Type 0) (f : Json A → List (Json A))
      → ((x y : Json A) → (f x ≡ f y) ↔ IsSame x y)
      → (xs ys : List (Json A))
      → All (λ z. In z (map f ys)) (map f xs) ↔ All (λ x. (y : Json A) × In y ys × IsSame x y) xs
  members_iff IsSame f same [] ys = (λ _. tt, λ _. tt)
  members_iff IsSame f same (x ∷ xs) ys = (
    λ h.
        let (y, m, e') = In-map f ys h.0 in
        ((y, m, (same x y).0 (sym e')), (members_iff IsSame f same xs ys).0 h.1),
    λ ((y, m, s), rest). (
      subst (λ (z : List (Json A)). In z (map f ys)) (sym ((same x y).1 s)) (member_map f ys y m),
      (members_iff IsSame f same xs ys).1 rest,
    ),
  )

  sites_iff :
      (IsSame : Json A → Json A → Type 0) (name : String) (names : List String)
      → IsTuple IsSame names
      → (old new : Fields A)
      → (set_beq (sites name names old) (sites name names new) ≡ true)
        ↔ SameEntries IsSame name old new
  unfolding sites
  sites_iff IsSame name names same old new =
      let f : Json A → List (Json A) = λ x. map (λ k. value k (or_dict x)) names in
      let there = members_iff IsSame f same (list_at name old) (list_at name new) in
      let back = members_iff IsSame f same (list_at name new) (list_at name old) in
      let sets = set_beq_iff (sites name names old) (sites name names new) in
      (
        λ h. (let (p, q) = sets.0 h in (there.0 p, back.0 q)),
        λ (p, q). sets.1 (there.1 p, back.1 q),
      )

  pub hooks_iff :
      (old new : Fields A)
      → (set_beq (hook_sites old) (hook_sites new) ≡ true)
        ↔ SameEntries SameHook "hook_points" old new
  unfolding hook_sites
  hooks_iff old new =
      sites_iff SameHook "hook_points" ("file" ∷ "symbol" ∷ "action" ∷ [])
        (λ x y. three _ _ _ _ _ _) old new

  pub knobs_iff :
      (old new : Fields A)
      → (set_beq (knob_macros old) (knob_macros new) ≡ true) ↔ SameEntries SameKnob "knobs" old new
  unfolding knob_macros
  knobs_iff old new =
      sites_iff SameKnob "knobs" ("macro" ∷ "binding" ∷ []) (λ x y. two _ _ _ _) old new

  pub host_knobs_iff :
      (old new : Fields A)
      → (set_beq (host_knob_sites old) (host_knob_sites new) ≡ true)
        ↔ SameEntries SameHostKnob "host_knobs" old new
  unfolding host_knob_sites
  host_knobs_iff old new =
      sites_iff SameHostKnob "host_knobs" ("macro" ∷ "file" ∷ "host_symbol" ∷ [])
        (λ x y. three _ _ _ _ _ _) old new
