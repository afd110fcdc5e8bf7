-- ===== src/Search/Preflight/Costs.antt =====
-- Which knobs cost storage (loop/dse.py, `preflight`, `costed`).
use paper_to_pipeline.Base.{
  ◌≡◌, refl, sym, ◌∙◌, ◌↔◌, ◌≢◌, ◌⊎◌, inl, inr, String, Bool, true, false, Option, none, some, List,
  [], ◌∷◌, map, In, In-append, In-keep, In-map, contains, contains_iff, not, Bool-cases, string_eq,
  ◌==◌, ==_iff, ap, subst, Option-cases,
}
use mathlib.Core.Bool.{false≢true}
use mathlib.Core.Option.{some-injective}
use paper_to_pipeline.Base.Text.{append}
use paper_to_pipeline.Base.Dict.{Dict, get}
use paper_to_pipeline.Base.Numbers.{Arith}
use paper_to_pipeline.Constraints.Ranges.{Python}
use paper_to_pipeline.Constraints.Storage.{Structure, Term, Spec, PortPlan, or_default}
use paper_to_pipeline.Search.Header.{Printer, host_macro, name_macros}
use paper_to_pipeline.Search.Preflight.{
  Trees, names_in, structure_macros, known_macros, flatten, costed,
}

-- A formula reads the name: it stands in its tree, and not as a called function.
abbrev pub Reads : Trees → String → String → Type 0
Reads trees formula n = In n (trees.read_names formula) × ¬ In n (trees.called_names formula)

uncalled : {P : Type 0} (b : Bool) → (b ≡ true → P) → ¬ P → not b ≡ true
uncalled true h out = absurd (out (h refl))
uncalled false h out = refl

called_not : (b : Bool) → not b ≡ true → ¬ (b ≡ true)
called_not true h = λ _. false≢true h
called_not false h = false≢true

names_in_iff :
    (trees : Trees) (formula n : String) → In n (names_in trees formula) ↔ Reads trees formula n
unfolding names_in
names_in_iff trees formula n =
    let called = contains_iff (trees.called_names formula) n in
    let kept =
      In-keep (λ k. not (contains (trees.called_names formula) k)) n (trees.read_names formula) in
    (
      λ m. let (read, out) = kept.0 m in (read, λ is_called. called_not _ out (called.1 is_called)),
      λ (read, out). kept.1 (read, uncalled _ called.0 out),
    )

member_map : (f : String → String) (xs : List String) (x : String) → In x xs → In (f x) (map f xs)
member_map f [] x m = absurd m
member_map f (y ∷ ys) x m = elim m [
  | inl same ↦ inl (ap f same)
  | inr later ↦ inr (member_map f ys x later)
]

module _ {A : Type 0} ⦃n : Arith A⦄ (python : Python A) (printer : Printer A) (trees : Trees) where
  In-flatten :
      {X : Type 0} (f : X → List String) (a : String) (xs : List X)
      → In a (flatten python printer trees f xs) ↔ ((x : X) × In x xs × In a (f x))
  unfolding flatten
  In-flatten f a [] = (λ m. absurd m, λ (x, m, _). absurd m)
  In-flatten f a (x ∷ xs) =
      let parts = In-append a (f x) (flatten python printer trees f xs) in
      let rest = In-flatten f a xs in
      (
        λ m. elim (parts.0 m) [
          | inl here ↦ (x, inl refl, here)
          | inr later ↦ let (y, there, is) = rest.0 later in (y, inr there, is)
        ],
        λ (y, there, is). parts.1 (elim there [
          | inl same ↦ inl (subst (λ z. In a (f z)) same is)
          | inr later ↦ inr (rest.1 (y, later, is))
        ]),
      )

  known_step :
      (macros : Dict String) (x : String) (xs : List String) (found : Option String)
      → get x macros ≡ found
      → known_macros python printer trees macros (x ∷ xs) ≡ (elim found [
        | none ↦ known_macros python printer trees macros xs
        | some macro ↦ macro ∷ known_macros python printer trees macros xs
      ])
  unfolding known_macros
  known_step macros x xs found e =
      ap
        (λ (o : Option String). elim o [
          | none ↦ known_macros python printer trees macros xs
          | some macro ↦ macro ∷ known_macros python printer trees macros xs
        ])
        e

  known_iff :
      (macros : Dict String) (a : String) (xs : List String)
      → In a (known_macros python printer trees macros xs)
        ↔ ((x : String) × In x xs × (get x macros ≡ some a))
  unfolding known_macros
  known_iff macros a [] = (λ m. absurd m, λ (x, m, _). absurd m)
  known_iff macros a (x ∷ xs) =
      let rest = known_iff macros a xs in
      elim (Option-cases (get x macros)) [
        | inl absent ↦
            let step = known_step macros x xs none absent in
            (
              λ m. (let (y, there, is) = rest.0 (subst (In a) step m) in (y, inr there, is)),
              λ (y, there, is). elim there [
                | inl same ↦ let clash = sym absent ∙ (ap (λ z. get z macros) (sym same) ∙ is) in cc
                | inr later ↦ subst (In a) (sym step) (rest.1 (y, later, is))
              ],
            )
        | inr (b, found) ↦
            let step = known_step macros x xs (some b) found in
            (
              λ m. elim (subst (In a) step m) [
                | inl same ↦ (x, inl refl, found ∙ ap some (sym same))
                | inr later ↦ (let (y, there, is) = rest.0 later in (y, inr there, is))
              ],
              λ (y, there, is). subst (In a) (sym step) (elim there [
                | inl same ↦
                    inl (some-injective _ _ (sym is ∙ (ap (λ z. get z macros) same ∙ found)))
                | inr later ↦ inr (rest.1 (y, later, is))
              ]),
            )
      ]

  -- The `size_formula` of a structure of the spec reads the name that the macro is made of.
  abbrev pub CostsFeature : Spec A → String → Type 0
  CostsFeature spec macro =
      (s : Structure A) × In s spec.state
      × (or_default "" s.size_formula ≢ "")
      × (name : String) × Reads trees (or_default "" s.size_formula) name
      × (append "SR_" (printer.upper name) ≡ macro)

  -- The formula of a term of the host's storage reads the name of the host knob with this macro.
  abbrev pub CostsHost : PortPlan A → String → Type 0
  CostsHost plan macro =
      (t : Term) × In t plan.terms
      × (name : String) × Reads trees (or_default "0" t.formula) name
      × (get name (name_macros python printer (host_macro python printer) plan.host_knobs [])
          ≡ some macro)

  structure_iff :
      (macro : String) (s : Structure A)
      → In macro (structure_macros python printer trees s) ↔ (
          (or_default "" s.size_formula ≢ "")
          × (name : String) × Reads trees (or_default "" s.size_formula) name
          × (append "SR_" (printer.upper name) ≡ macro))
  structure_iff macro s =
      let formula = or_default "" s.size_formula in
      let named = names_in_iff trees formula in
      elim (Bool-cases (formula == "")) [
        | inl none_given ↦ rw none_given (
          λ m. absurd m,
          λ (given, name, reads, is). absurd (given ((==_iff formula "").0 none_given)),
        )
        | inr given ↦ rw given (
          λ m.
              let (name, there, is) =
                In-map (λ x. append "SR_" (printer.upper x)) (names_in trees formula) m in
              (
                λ same. false≢true (sym given ∙ (==_iff formula "").1 same),
                name,
                (named name).0 there,
                is,
              ),
          λ (given', name, reads, is).
              subst (λ z. In z (map (λ x. append "SR_" (printer.upper x)) (names_in trees formula)))
                is
                (member_map (λ x. append "SR_" (printer.upper x)) (names_in trees formula) name
                  ((named name).1 reads)),
        )
      ]

  -- What the preflight counts as costing storage.
  pub costed_iff :
      (spec : Spec A) (plan : PortPlan A) (macro : String)
      → (contains (costed python printer trees spec plan) macro ≡ true)
        ↔ (CostsFeature spec macro ⊎ CostsHost plan macro)
  unfolding costed
  costed_iff spec plan macro =
      let macros = name_macros python printer (host_macro python printer) plan.host_knobs [] in
      let of_term : Term → List String =
        λ t. known_macros python printer trees macros (names_in trees (or_default "0" t.formula)) in
      let all = contains_iff (costed python printer trees spec plan) macro in
      let parts =
        In-append macro
          (flatten python printer trees (structure_macros python printer trees) spec.state)
          (flatten python printer trees of_term plan.terms) in
      let features = In-flatten (structure_macros python printer trees) macro spec.state in
      let hosts = In-flatten of_term macro plan.terms in
      (
        λ h. elim (parts.0 (all.0 h)) [
          | inl m ↦
              let (s, there, is) = features.0 m in
              let (given, name, reads, same) = (structure_iff macro s).0 is in
              inl (s, there, given, name, reads, same)
          | inr m ↦
              let (t, there, is) = hosts.0 m in
              let (name, listed, found) = (known_iff macros macro _).0 is in
              inr (t, there, name, (names_in_iff trees _ name).0 listed, found)
        ],
        λ h. all.1 (
            parts.1 (elim h [
              | inl (s, there, given, name, reads, same) ↦
                  inl (features.1 (s, there, (structure_iff macro s).1 (given, name, reads, same)))
              | inr (t, there, name, reads, found) ↦ inr (
                  hosts.1 (
                    t,
                    there,
                    (known_iff macros macro _).1 (name, (names_in_iff trees _ name).1 reads, found),
                  ))
            ])),
      )
