-- ===== src/Base/Lists.antt =====
-- Lists: Boolean tests over lists, predicates by recursion, and their laws.
use Prim.Native.Nat.{ℕ, suc}
use mathlib.Core.Path.{◌≡◌, refl, sym, subst}
use mathlib.Core.Logic.{◌↔◌, ◌⊎◌, inl, inr}
use mathlib.Core.Bool.{Bool, true, false, ◌&&◌, ◌||◌}
use mathlib.Core.List.{List, [], ◌∷◌, ◌++◌, map}
use native.Mathlib.Omega.{arith}
use paper_to_pipeline.Base.Tests.{if◌then◌else◌}
use paper_to_pipeline.Base.Equality.{Eq, ◌==◌}

module _ {ℓ} {A : Type ℓ} where
  abbrev pub length : List A → ℕ
  length [] = 0
  length (x ∷ xs) = suc (length xs)

  -- `if not xs`
  abbrev pub is_empty : List A → Bool
  is_empty [] = true
  is_empty (x ∷ xs) = false

  -- `[x for x in xs if p(x)]`
  abbrev pub keep : (A → Bool) → List A → List A
  keep p [] = []
  keep p (x ∷ xs) = if p x then x ∷ keep p xs else keep p xs

  abbrev pub all : (A → Bool) → List A → Bool
  all p [] = true
  all p (x ∷ xs) = p x && all p xs

  abbrev pub any : (A → Bool) → List A → Bool
  any p [] = false
  any p (x ∷ xs) = p x || any p xs

  abbrev pub All {κ} : (A → Type κ) → List A → Type κ
  All P [] = Unit
  All P (x ∷ xs) = P x × All P xs

pub is_empty_iff {ℓ} : {A : Type ℓ} (xs : List A) → (is_empty xs ≡ true) ↔ (xs ≡ [])
is_empty_iff [] = ground arith
is_empty_iff (x ∷ xs) = ground arith

module _ {A : Type 0} where
  -- `a` stands somewhere in the list.
  abbrev pub In : A → List A → Type 0
  In a [] = ⊥
  In a (x ∷ xs) = (a ≡ x) ⊎ In a xs

  pub All_lookup {κ} : (P : A → Type κ) (xs : List A) (a : A) → All P xs → In a xs → P a
  All_lookup P [] a h m = absurd m
  All_lookup P (x ∷ xs) a h m = elim m [
    | inl e ↦ subst P (sym e) h.0
    | inr m' ↦ All_lookup P xs a h.1 m'
  ]

  pub All_intro {κ} : (P : A → Type κ) (xs : List A) → ((a : A) → In a xs → P a) → All P xs
  All_intro P [] h = tt
  All_intro P (x ∷ xs) h = (h x (inl refl), All_intro P xs (λ a m. h a (inr m)))

  pub All_mono {κ μ} :
      (P : A → Type κ) (Q : A → Type μ) (xs : List A)
      → ((a : A) → In a xs → P a → Q a)
      → All P xs
      → All Q xs
  All_mono P Q [] f h = tt
  All_mono P Q (x ∷ xs) f h = (f x (inl refl) h.0, All_mono P Q xs (λ a m. f a (inr m)) h.1)

  pub All-append {κ} : (P : A → Type κ) (xs ys : List A) → All P xs → All P ys → All P (xs ++ ys)
  All-append P [] ys h k = k
  All-append P (x ∷ xs) ys h k = (h.0, All-append P xs ys h.1 k)

  pub nil_of_no_member : (xs : List A) → ((a : A) → ¬ In a xs) → xs ≡ []
  nil_of_no_member [] h = refl
  nil_of_no_member (x ∷ xs) h = absurd (h x (inl refl))

  pub In-append : (a : A) (xs ys : List A) → In a (xs ++ ys) ↔ (In a xs ⊎ In a ys)
  In-append a [] ys = (λ m. inr m, λ m. elim m [ inl h ↦ absurd h | inr h ↦ h ])
  In-append a (x ∷ xs) ys = ground (arith, In-append a xs ys)

  pub In-keep : (p : A → Bool) (a : A) (xs : List A) → In a (keep p xs) ↔ (In a xs × (p a ≡ true))
  In-keep p a [] = ground arith
  In-keep p a (x ∷ xs) = ground (arith, In-keep p a xs)

  pub keep-eq-nil : (p : A → Bool) (xs : List A) → (keep p xs ≡ []) ↔ All (λ x. p x ≡ false) xs
  keep-eq-nil p [] = ground arith
  keep-eq-nil p (x ∷ xs) = ground (arith, keep-eq-nil p xs)

  pub all_iff : (p : A → Bool) (xs : List A) → (all p xs ≡ true) ↔ All (λ x. p x ≡ true) xs
  all_iff p [] = ground arith
  all_iff p (x ∷ xs) = ground (arith, all_iff p xs)

  pub append-eq-nil : (xs ys : List A) → (xs ++ ys ≡ []) ↔ ((xs ≡ []) × (ys ≡ []))
  append-eq-nil [] ys = ground arith
  append-eq-nil (x ∷ xs) ys = ground arith

  pub append_five-nil :
      (a b c d e : List A)
      → (a ++ (b ++ (c ++ (d ++ e))) ≡ []) ↔ ((a ≡ []) × (b ≡ []) × (c ≡ []) × (d ≡ []) × (e ≡ []))
  append_five-nil a b c d e = ground (
    arith,
    append-eq-nil a (b ++ (c ++ (d ++ e))),
    append-eq-nil b (c ++ (d ++ e)),
    append-eq-nil c (d ++ e),
    append-eq-nil d e,
  )

  -- `a in xs`
  unfoldable pub contains : ⦃e : Eq A⦄ → List A → A → Bool
  contains [] a = false
  contains (x ∷ xs) a = (x == a) || contains xs a

  pub contains_iff : ⦃e : Eq A⦄ (xs : List A) (a : A) → (contains xs a ≡ true) ↔ In a xs
  unfolding contains
  contains_iff [] a = ground arith
  contains_iff ⦃e⦄ (x ∷ xs) a = ground (arith, contains_iff xs a, e.decides x a)

module _ {A B : Type 0} where
  pub In-map : (f : A → B) (xs : List A) {b : B} → In b (map f xs) → (a : A) × In a xs × (f a ≡ b)
  In-map f [] m = absurd m
  In-map f (x ∷ xs) m = elim m [
    | inl e ↦ (x, inl refl, sym e)
    | inr m' ↦ let (a, i, e) = In-map f xs m' in (a, inr i, e)
  ]
