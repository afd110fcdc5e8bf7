-- ===== src/Revision/Store/Retired.antt =====
-- Retired revisions are moved and not lost (loop/plan_revision.py, `retire`).
use paper_to_pipeline.Base.{
  ℕ, zero, suc, ◌≤◌, ◌≡◌, refl, inl, inr, ◌⊎◌, Bool, true, false, Option, some, List, [], ◌++◌,
  ◌||◌, not, eqb, arith, Bool-cases, In, In-append, if◌then◌else◌,
}
use paper_to_pipeline.Revision.Store.Latest.{commit_read}
use paper_to_pipeline.Revision.Store.{
  Store, exists, has_both, count_from, latest, commit, Moved, remove, retire_from, retire,
  moved_file,
}

module _ {D : Type 0} where
  -- Files at or below the index where the loop stands are left alone.
  retire_below :
      (fuel index i : ℕ) (store : Store D)
      → i ≤ index
      → ((retire_from fuel index store).0.port_plan i ≡ store.port_plan i)
        × ((retire_from fuel index store).0.test_plan i ≡ store.test_plan i)
  unfolding retire_from
  retire_below zero index i store low = (refl, refl)
  retire_below (suc fuel) index i store low =
      let (p, t) =
        retire_below fuel (suc index) i (remove (suc index) store) (omega (arith, low)) in
      ground (arith, p, t, low)

  -- The first file that is looked at is gone afterwards.
  retire_next :
      (fuel index : ℕ) (store : Store D)
      → has_both (retire_from (suc fuel) index store).0 (suc index) ≡ false
  unfolding retire_from
  retire_next fuel index store =
      let (p, t) =
        retire_below fuel (suc index) (suc index) (remove (suc index) store) (omega arith) in
      ground (arith, p, t)

  count-gone : (fuel : ℕ) (store : Store D) → has_both store 1 ≡ false → count_from fuel 0 store ≡ 0
  unfolding count_from
  count-gone zero store gone = refl
  count-gone (suc fuel) store gone = rw gone refl

  -- After a pair is written as revision 0 and the old revisions are retired, the pair is in force.
  pub latest-retire :
      (fuel rounds : ℕ) (store : Store D) (port tests : D)
      → 1 ≤ rounds
      → latest fuel (retire rounds (commit 0 port tests store)).0 ≡ (some port, some tests, 0)
  unfolding retire latest
  latest-retire fuel zero store port tests enough = absurd (omega (arith, enough))
  latest-retire fuel (suc rounds) store port tests enough =
      let written = commit 0 port tests store in
      let counted =
        count-gone fuel (retire_from (suc rounds) 0 written).0 (retire_next rounds 0 written) in
      let (p, t) = retire_below (suc rounds) 0 0 written (omega arith) in
      let (first, second) = commit_read store 0 port tests in rw (counted, p, t, first, second) refl

  -- The files of one kind.
  abbrev pub file_of : (is_test_plan : Bool) → Store D → ℕ → Option D
  file_of true store i = store.test_plan i
  file_of false store i = store.port_plan i

  -- The file is left, or it is among those that are moved.
  abbrev pub Kept : (i : ℕ) (is_test_plan : Bool) → D → Store D × List (Moved D) → Type 0
  Kept i k d (left, moved) =
      (file_of k left i ≡ some d) ⊎ In (record { index = i; is_test_plan = k; document = d }) moved

  removed :
      (k : Bool) (index i : ℕ) (store : Store D) (d : D)
      → eqb i (suc index) ≡ false
      → file_of k store i ≡ some d
      → file_of k (remove (suc index) store) i ≡ some d
  unfolding remove
  removed true index i store d e h = rw e h
  removed false index i store d e h = rw e h

  if-Kept :
      (i : ℕ) (k : Bool) (d : D) (b : Bool) (x y : Store D × List (Moved D))
      → Kept i k d x
      → Kept i k d y
      → Kept i k d (if b then x else y)
  if-Kept i k d true x y hx hy = hx
  if-Kept i k d false x y hx hy = hy

  moved_here :
      (k : Bool) (i : ℕ) (d : D) (store : Store D) (moved : List (Moved D))
      → file_of k store i ≡ some d
      → In
          (record { index = i; is_test_plan = k; document = d })
          (moved_file i false (store.port_plan i) ++ moved_file i true (store.test_plan i) ++ moved)
  moved_here true i d store moved h =
      (In-append _ (moved_file i false (store.port_plan i) ++ moved_file i true (store.test_plan i))
          moved).1
        (inl (
          (In-append _ (moved_file i false (store.port_plan i))
              (moved_file i true (store.test_plan i))).1
            (inr (rw h (inl refl)))))
  moved_here false i d store moved h =
      (In-append _ (moved_file i false (store.port_plan i) ++ moved_file i true (store.test_plan i))
          moved).1
        (inl (
          (In-append _ (moved_file i false (store.port_plan i))
              (moved_file i true (store.test_plan i))).1
            (inl (rw h (inl refl)))))

  retire_from-Kept :
      (fuel index i : ℕ) (k : Bool) (store : Store D) (d : D)
      → file_of k store i ≡ some d
      → Kept i k d (retire_from fuel index store)
  unfolding retire_from
  retire_from-Kept zero index i k store d h = inl h
  retire_from-Kept (suc fuel) index i k store d h =
      let port = store.port_plan (suc index) in
      let tests = store.test_plan (suc index) in
      let (left, moved) = retire_from fuel (suc index) (remove (suc index) store) in
      if-Kept i k d (not (exists port || exists tests)) (store, [])
        (left, moved_file (suc index) false port ++ moved_file (suc index) true tests ++ moved)
        (inl h)
        (elim (Bool-cases (eqb i (suc index))) [
          | inl e ↦
              let same : i ≡ suc index = ground (arith, e) in
              inr (rw same (moved_here k (suc index) d store moved (rw same at h)))
          | inr e ↦
              elim (retire_from-Kept fuel (suc index) i k (remove (suc index) store) d
                (removed k index i store d e h)) [
                  | inl there ↦ inl there
                  | inr m ↦ inr (
                      (In-append _
                          (moved_file (suc index) false port ++ moved_file (suc index) true tests)
                          moved).1
                        (inr m))
                ]
        ])

  -- No revision is lost: each file that is there before is there afterwards, or it is among those
  -- that are moved.
  pub retire-Kept :
      (rounds i : ℕ) (is_test_plan : Bool) (store : Store D) (d : D)
      → file_of is_test_plan store i ≡ some d
      → Kept i is_test_plan d (retire rounds store)
  unfolding retire
  retire-Kept rounds i k store d h = retire_from-Kept rounds 0 i k store d h
