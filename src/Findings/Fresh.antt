-- ===== src/Findings/Fresh.antt =====
-- What `new_errors` returns (loop/spec_checks.py).
use paper_to_pipeline.Base.{
  ◌≡◌, refl, ◌↔◌, ◌⊎◌, inl, inr, true, false, List, [], ◌∷◌, contains_iff, In, Eq, Bool-cases,
  arith, ◌==◌, string_eq, ==_iff, sym, ap, map, In-map, ◌∙◌, nil_of_no_member, contains, subst,
}
use mathlib.Core.Bool.{false≢true}
use paper_to_pipeline.Findings.{
  Finding, Key, key, key_eq, is_error, error_keys, unseen, new_errors, is_fresh,
}

module _ {P : Type 0} where
  -- No key is listed twice.
  abbrev pub Distinct : List (Key P) → Type 0
  Distinct [] = Unit
  Distinct (k ∷ ks) = ¬ In k ks × Distinct ks

module _ {P M : Type 0} ⦃e : Eq P⦄ where
  -- What makes a finding one that the round introduced.
  pub record IsNew (before after : List (Finding P M)) (f : Finding P M) : Type 0 where
    pub present : In f after
    pub error : f.severity ≡ "error"
    pub absent : ¬ In (key f) (error_keys before)

  is_fresh_iff :
      (had seen : List (Key P)) (f : Finding P M)
      → (is_fresh had seen f ≡ true)
        ↔ ((f.severity ≡ "error") × ¬ In (key f) had × ¬ In (key f) seen)
  unfolding is_fresh
  is_fresh_iff had seen f =
      ground (arith, ==_iff f.severity "error", contains_iff had (key f), contains_iff seen (key f))

  stale_cases :
      (had seen : List (Key P)) (f : Finding P M)
      → is_fresh had seen f ≡ false
      → f.severity ≡ "error"
      → In (key f) had ⊎ In (key f) seen
  unfolding is_fresh
  stale_cases had seen f =
      ground (arith, ==_iff f.severity "error", contains_iff had (key f), contains_iff seen (key f))

  In-error_keys :
      (f : Finding P M) (fs : List (Finding P M))
      → In f fs
      → f.severity ≡ "error"
      → In (key f) (error_keys fs)
  In-error_keys f [] m h = absurd m
  In-error_keys f (g ∷ fs) m h = elim (Bool-cases (is_error g)) [
    | inl err ↦ rw err (elim m [ inl p ↦ inl (ap key p) | inr m' ↦ inr (In-error_keys f fs m' h) ])
    | inr other ↦ rw other (elim m [
      | inl p ↦ ground (arith, ==_iff g.severity "error")
      | inr m' ↦ In-error_keys f fs m' h
    ])
  ]

  unseen_sound :
      (had seen : List (Key P)) (fs : List (Finding P M)) (f : Finding P M)
      → In f (unseen had seen fs)
      → In f fs × (f.severity ≡ "error") × ¬ In (key f) had × ¬ In (key f) seen
  unfolding unseen
  unseen_sound had seen [] f m = absurd m
  unseen_sound had seen (g ∷ fs) f m = elim (Bool-cases (is_fresh had seen g)) [
    | inl fresh ↦
        let m' : In f (g ∷ unseen had (key g ∷ seen) fs) = rw fresh at m in
        elim m' [
          | inl p ↦
              let (err, a, b) = (is_fresh_iff had seen g).0 fresh in
              (inl p, rw p err, rw p a, rw p b)
          | inr later ↦
              let (i, err, a, b) = unseen_sound had (key g ∷ seen) fs f later in
              (inr i, err, a, λ n. b (inr n))
        ]
    | inr stale ↦
        let later : In f (unseen had seen fs) = rw stale at m in
        let (i, err, a, b) = unseen_sound had seen fs f later in (inr i, err, a, b)
  ]

  unseen_complete :
      (had seen : List (Key P)) (fs : List (Finding P M)) (f : Finding P M)
      → In f fs
      → f.severity ≡ "error"
      → ¬ In (key f) had
      → ¬ In (key f) seen
      → (g : Finding P M) × In g (unseen had seen fs) × (key g ≡ key f)
  unfolding unseen
  unseen_complete had seen [] f m h a b = absurd m
  unseen_complete had seen (g ∷ fs) f m h a b = elim (Bool-cases (is_fresh had seen g)) [
    | inl fresh ↦ rw fresh (elim (Bool-cases (key g == key f)) [
      | inl same ↦ (g, inl refl, (==_iff (key g) (key f)).0 same)
      | inr other ↦
          let (x, i, k) =
            unseen_complete had (key g ∷ seen) fs f (later m other) h a (λ n. fresh_key n other) in
          (x, inr i, k)
    ])
    | inr stale ↦ rw stale (elim m [
      | inl p ↦ absurd (elim (stale_cases had seen g stale (rw p at h)) [
        | inl i ↦ a (rw p i)
        | inr i ↦ b (rw p i)
      ])
      | inr m' ↦ unseen_complete had seen fs f m' h a b
    ])
  ]
    where
      later : (f ≡ g) ⊎ In f fs → (key g == key f) ≡ false → In f fs
      later (inl p) other =
          absurd (false≢true (sym other ∙ (==_iff (key g) (key f)).1 (ap key (sym p))))
      later (inr m') other = m'

      fresh_key : (key f ≡ key g) ⊎ In (key f) seen → (key g == key f) ≡ false → ⊥
      fresh_key (inl p) other = false≢true (sym other ∙ (==_iff (key g) (key f)).1 (sym p))
      fresh_key (inr i) other = b i

  unseen-Distinct :
      (had seen : List (Key P)) (fs : List (Finding P M)) → Distinct (map key (unseen had seen fs))
  unfolding unseen
  unseen-Distinct had seen [] = tt
  unseen-Distinct had seen (g ∷ fs) = elim (Bool-cases (is_fresh had seen g)) [
    | inl fresh ↦ rw fresh (
      λ i. let (x, m, k) = In-map _ _ i in (unseen_sound had (key g ∷ seen) fs x m).3 (inl k),
      unseen-Distinct had (key g ∷ seen) fs,
    )
    | inr stale ↦ rw stale (unseen-Distinct had seen fs)
  ]

  In-error_keys_inv :
      (k : Key P) (fs : List (Finding P M))
      → In k (error_keys fs)
      → (f : Finding P M) × In f fs × (f.severity ≡ "error") × (key f ≡ k)
  In-error_keys_inv k [] m = absurd m
  In-error_keys_inv k (g ∷ fs) m = elim (Bool-cases (is_error g)) [
    | inl err ↦
        let m' : In k (key g ∷ error_keys fs) = rw err at m in
        elim m' [
          | inl p ↦ (g, inl refl, (==_iff g.severity "error").0 err, sym p)
          | inr i ↦ let (f, n, h, q) = In-error_keys_inv k fs i in (f, inr n, h, q)
        ]
    | inr other ↦
        let i : In k (error_keys fs) = rw other at m in
        let (f, n, h, q) = In-error_keys_inv k fs i in (f, inr n, h, q)
  ]

  -- A finding is returned only if the round introduced it: it is an error of `after` whose code and
  -- pointer no error of `before` has.
  pub new_errors-IsNew :
      (before after : List (Finding P M)) (f : Finding P M)
      → In f (new_errors before after)
      → IsNew before after f
  unfolding new_errors
  new_errors-IsNew before after f m =
      let (i, err, a, _) = unseen_sound (error_keys before) [] after f m in
      record { present = i; error = err; absent = a }

  -- Every error that the round introduced is returned under its code and pointer, and no code and
  -- pointer is returned twice.
  pub new_errors_complete :
      (before after : List (Finding P M))
      → ((f : Finding P M)
          → IsNew before after f
          → (g : Finding P M) × In g (new_errors before after) × (key g ≡ key f))
        × Distinct (map key (new_errors before after))
  unfolding new_errors
  new_errors_complete before after = (
    λ f h. unseen_complete (error_keys before) [] after f h.present h.error h.absent (λ i. i),
    unseen-Distinct (error_keys before) [] after,
  )

  -- Nothing is new exactly when every error of `after` has its code and pointer in `before`.
  pub new_errors-nil :
      (before after : List (Finding P M))
      → (new_errors before after ≡ [])
        ↔ ((k : Key P) → In k (error_keys after) → In k (error_keys before))
  new_errors-nil before after = (
    λ none_new k m.
        let (f, i, err, p) = In-error_keys_inv k after m in
        elim (Bool-cases (contains (error_keys before) k)) [
          | inl old ↦ (contains_iff (error_keys before) k).0 old
          | inr fresh ↦
              let is_new : IsNew before after f = record {
                present = i;
                error = err;
                absent = λ n.
                    false≢true (sym fresh ∙ (contains_iff (error_keys before) k).1 (rw p at n));
              } in
              let (g, n, _) = (new_errors_complete before after).0 f is_new in
              absurd (subst (In g) none_new n)
        ],
    λ covered. nil_of_no_member (new_errors before after) λ f m.
        let is_new = new_errors-IsNew before after f m in
        is_new.absent (covered (key f) (In-error_keys f after is_new.present is_new.error)),
  )
