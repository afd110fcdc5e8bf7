-- ===== src/Search/Finalists/Ranked.antt =====
-- Sorting and cutting off (loop/dse.py, `select_finalists`).
use paper_to_pipeline.Base.{
  if_ind, ℕ, zero, suc, ◌+◌, ◌≡◌, refl, sym, ap, ◌≢◌, String, List, [], ◌∷◌, All, All_mono, length,
  leb, arith, if◌then◌else◌,
}
use paper_to_pipeline.Base.Json.{Json, json_eq}
use paper_to_pipeline.Base.Numbers.{Arith}
use paper_to_pipeline.Search.Finalists.{
  Finalist, take, triple_less, screen_rank, insert_ranked, sort_ranked,
}

module _ {X : Type 0} where
  pub take-All : (P : X → Type 0) (k : ℕ) (xs : List X) → All P xs → All P (take k xs)
  take-All P zero xs all = tt
  take-All P (suc k) [] all = tt
  take-All P (suc k) (x ∷ xs) all = (all.0, take-All P k xs all.1)

  pub length-take :
      (k : ℕ) (xs : List X) → length (take k xs) ≡ (if leb (length xs) k then length xs else k)
  length-take zero [] = refl
  length-take zero (x ∷ xs) = ground arith
  length-take (suc k) [] = ground arith
  length-take (suc k) (x ∷ xs) = ground (arith, length-take k xs)

module _ {A : Type 0} ⦃n : Arith A⦄ (screen_metric : String) where
  insert_ranked-All :
      (P : Finalist A → Type 0) (f : Finalist A) (gs : List (Finalist A))
      → P f
      → All P gs
      → All P (insert_ranked screen_metric f gs)
  unfolding insert_ranked
  insert_ranked-All P f [] here all = (here, tt)
  insert_ranked-All P f (g ∷ gs) here all =
      if_ind (All P) (triple_less n.lt (screen_rank screen_metric f) (screen_rank screen_metric g))
        _ _ (λ _. (here, (all.0, all.1))) (λ _. (all.0, insert_ranked-All P f gs here all.1))

  length-insert_ranked :
      (f : Finalist A) (gs : List (Finalist A))
      → length (insert_ranked screen_metric f gs) ≡ suc (length gs)
  unfolding insert_ranked
  length-insert_ranked f [] = refl
  length-insert_ranked f (g ∷ gs) =
      if_ind (λ (r : List (Finalist A)). length r ≡ suc (suc (length gs)))
        (triple_less n.lt (screen_rank screen_metric f) (screen_rank screen_metric g)) _ _
        (λ _. refl) (λ _. ap suc (length-insert_ranked f gs))

  pub sort_ranked-All :
      (P : Finalist A → Type 0) (done todo : List (Finalist A))
      → All P done
      → All P todo
      → All P (sort_ranked screen_metric done todo)
  unfolding sort_ranked
  sort_ranked-All P done [] here all = here
  sort_ranked-All P done (f ∷ fs) here all =
      sort_ranked-All P (insert_ranked screen_metric f done) fs
        (insert_ranked-All P f done all.0 here) all.1

  pub length-sort_ranked :
      (done todo : List (Finalist A))
      → length (sort_ranked screen_metric done todo) ≡ length todo + length done
  unfolding sort_ranked
  length-sort_ranked done [] = omega arith
  length-sort_ranked done (f ∷ fs) = omega (
    arith,
    length-sort_ranked (insert_ranked screen_metric f done) fs,
    length-insert_ranked f done,
  )

  -- No two of the finalists have the same key.
  module _ (key : Finalist A → Json A) where
    abbrev pub Separate : List (Finalist A) → Type 0
    Separate [] = Unit
    Separate (f ∷ fs) = All (λ g. key g ≢ key f) fs × Separate fs

    insert_ranked-Separate :
        (f : Finalist A) (gs : List (Finalist A))
        → All (λ g. key g ≢ key f) gs
        → Separate gs
        → Separate (insert_ranked screen_metric f gs)
    unfolding insert_ranked
    insert_ranked-Separate f [] new apart = (tt, tt)
    insert_ranked-Separate f (g ∷ gs) new apart =
        if_ind Separate
          (triple_less n.lt (screen_rank screen_metric f) (screen_rank screen_metric g)) _ _
          (λ _. (new, apart))
          (λ _. (
            insert_ranked-All (λ h. key h ≢ key g) f gs (λ same. new.0 (sym same)) apart.0,
            insert_ranked-Separate f gs new.1 apart.1,
          ))

    pub sort_ranked-Separate :
        (done todo : List (Finalist A))
        → All (λ f. All (λ g. key g ≢ key f) todo) done
        → Separate done
        → Separate todo
        → Separate (sort_ranked screen_metric done todo)
    unfolding sort_ranked
    sort_ranked-Separate done [] across apart rest = apart
    sort_ranked-Separate done (f ∷ fs) across apart rest =
        sort_ranked-Separate (insert_ranked screen_metric f done) fs
          (insert_ranked-All (λ g. All (λ h. key h ≢ key g) fs) f done rest.0
            (All_mono _ _ done (λ g _ others. others.1) across))
          (insert_ranked-Separate f done
            (All_mono _ _ done (λ g _ others same. others.0 (sym same)) across) apart)
          rest.1

    pub take-Separate : (k : ℕ) (fs : List (Finalist A)) → Separate fs → Separate (take k fs)
    take-Separate zero fs apart = tt
    take-Separate (suc k) [] apart = tt
    take-Separate (suc k) (f ∷ fs) apart = (take-All _ k fs apart.0, take-Separate k fs apart.1)
