-- ===== src/Search/Compare/Least.antt =====
-- The finalist that `min` keeps has the least value (loop/dse.py, `compare_variants`).
use paper_to_pipeline.Base.{
  ◌≡◌, refl, sym, subst, String, Bool, true, false, List, [], ◌∷◌, All, In, Bool-cases, inl, inr,
}
use paper_to_pipeline.Base.Dict.{Dict}
use paper_to_pipeline.Base.Numbers.{Arith, OrderLaws}
use paper_to_pipeline.Search.Scores.{Score}
use mathlib.Core.Option.{some-injective}
use paper_to_pipeline.Base.{ℕ, ltb, ap, ◌⊎◌, ◌∙◌, Option, some, none, if◌then◌else◌, string_eq}
use paper_to_pipeline.Search.Compare.{place_in, less, key_less, screened, rank_key, min_from}

module _ {A : Type 0} ⦃n : Arith A⦄ (laws : OrderLaws A n) (metric : String)
    (finalists : List String) (scores : Dict (Score A)) where
  -- The screening metric of a variant is a value.
  abbrev pub Scored : String → Type 0
  Scored f = (x : A) × (screened metric finalists scores f ≡ some x)

  -- No value of the first is strictly below one of the second.
  abbrev pub NotBelow : String → String → Type 0
  NotBelow f g =
      (x y : A)
      → screened metric finalists scores f ≡ some x
      → screened metric finalists scores g ≡ some y
      → n.lt x y ≡ false

  self_not_less : (a : A) → n.lt a a ≡ false
  self_not_less a = elim (Bool-cases (n.lt a a)) [ inl less ↦ laws.less_asym a a less | inr h ↦ h ]

  self_NotBelow : (f : String) → NotBelow f f
  self_NotBelow f x y p q =
      let same : x ≡ y = some-injective _ _ (sym p ∙ q) in
      subst (λ (z : A). n.lt x z ≡ false) same (self_not_less x)

  NotBelow-trans : (f g h : String) → Scored g → NotBelow f g → NotBelow g h → NotBelow f h
  NotBelow-trans f g h (y, at) fg gh x z p q = laws.not_less_trans z y x (gh y z at q) (fg x y p at)

  values_compared :
      (a b : A) (i j : ℕ)
      → ((key_less (some a, i) (some b, j) ≡ some true) × (n.lt b a ≡ false))
        ⊎ ((key_less (some a, i) (some b, j) ≡ some false) × (n.lt a b ≡ false))
  values_compared a b i j = elim (Bool-cases (n.eq a b)) [
    | inl same ↦ elim (Bool-cases (ltb i j)) [
      | inl first ↦ inl (rw (same, first), laws.equal_not_less b a (laws.equal_sym a b same))
      | inr later ↦ inr (rw (same, later), laws.equal_not_less a b same)
    ]
    | inr differ ↦ elim (Bool-cases (n.lt a b)) [
      | inl less ↦ inl (rw (differ, less), laws.less_asym a b less)
      | inr h ↦ inr (rw (differ, h), h)
    ]
  ]

  not_below :
      (f g : String) (x y : A)
      → screened metric finalists scores f ≡ some x
      → screened metric finalists scores g ≡ some y
      → n.lt x y ≡ false
      → NotBelow f g
  not_below f g x y p q h a b p' q' =
      let same_x : x ≡ a = some-injective _ _ (sym p ∙ p') in
      let same_y : y ≡ b = some-injective _ _ (sym q ∙ q') in rw (sym same_x, sym same_y) h

  abbrev key : String → Option A × ℕ
  key f = rank_key metric finalists scores f

  -- Of two variants with values the keys are in an order, which is that of the values.
  compared :
      (f best : String)
      → Scored f
      → Scored best
      → ((key_less (key f) (key best) ≡ some true) × NotBelow best f)
        ⊎ ((key_less (key f) (key best) ≡ some false) × NotBelow f best)
  compared f best (x, p) (y, q) =
      let i = place_in finalists f in
      let j = place_in finalists best in
      let same =
        ap (λ (o : Option A). key_less (o, i) (key best)) p
        ∙ ap (λ (o : Option A). key_less (some x, i) (o, j)) q in
      elim (values_compared x y i j) [
        | inl (e, below) ↦ inl (same ∙ e, not_below best f y x q p below)
        | inr (e, below) ↦ inr (same ∙ e, not_below f best x y p q below)
      ]

  min_from_step :
      (best f : String) (fs : List String) (lower : Bool)
      → key_less (key f) (key best) ≡ some lower
      → min_from metric finalists scores best (f ∷ fs)
        ≡ min_from metric finalists scores (if lower then f else best) fs
  unfolding min_from
  min_from_step best f fs lower e =
      ap
        (λ (found : Option Bool). elim found [
          | none ↦ none
          | some lower' ↦ min_from metric finalists scores (if lower' then f else best) fs
        ])
        e

  -- The least of a list is of the list, and nothing in it is below.
  abbrev pub IsLeast : String → List String → String → Type 0
  IsLeast best fs w = In w (best ∷ fs) × All (λ g. NotBelow g w) (best ∷ fs)

  pub min_from-IsLeast :
      (best : String) (fs : List String)
      → All Scored (best ∷ fs)
      → (w : String) × (min_from metric finalists scores best fs ≡ some w) × IsLeast best fs w
  unfolding min_from
  min_from-IsLeast best [] scored = (best, refl, (inl refl, (self_NotBelow best, tt)))
  min_from-IsLeast best (f ∷ fs) (at_best, (at_f, rest)) = elim (compared f best at_f at_best) [
    | inl (e, below) ↦
        let (w, found, (m, least)) = min_from-IsLeast f fs (at_f, rest) in
        (
          w,
          min_from_step best f fs true e ∙ found,
          (inr m, (NotBelow-trans best f w at_f below least.0, least)),
        )
    | inr (e, below) ↦
        let (w, found, (m, least)) = min_from-IsLeast best fs (at_best, rest) in
        (
          w,
          min_from_step best f fs false e ∙ found,
          (
            elim m [ inl same ↦ inl same | inr later ↦ inr (inr later) ],
            (least.0, (NotBelow-trans f best w at_best below least.0, least.1)),
          ),
        )
  ]
