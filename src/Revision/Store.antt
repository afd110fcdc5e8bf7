-- ===== src/Revision/Store.antt =====
-- The revisions and the escalations beside a host's plan (loop/plan_revision.py, `count`, `latest`,
-- `commit`, `retire` and the escalations). The files are those of
-- one host and feature: revision 0 is stage 2's output.
pub mod Latest
pub mod Escalations
pub mod Retired
mod Tests
use paper_to_pipeline.Base.{
  ℕ, zero, suc, String, Bool, true, false, Option, none, some, List, [], ◌∷◌, ◌++◌, ◌&&◌, ◌||◌,
  ◌==◌, string_eq, not, keep, eqb, if◌then◌else◌,
}

-- The contents of `<plan>.rev<index>.json` and `<tests>.rev<index>.json`, `none` where there is no
-- file.
pub record Store (D : Type 0) : Type 0 where
  pub port_plan : ℕ → Option D
  pub test_plan : ℕ → Option D

-- `path.exists()`
abbrev pub exists : {D : Type 0} → Option D → Bool
exists none = false
exists (some _) = true

module _ {D : Type 0} where
  abbrev pub has_both : Store D → ℕ → Bool
  has_both store index = exists (store.port_plan index) && exists (store.test_plan index)

  -- The `while True` loop from `index`, for at most `fuel` rounds.
  unfoldable pub count_from : (fuel index : ℕ) → Store D → ℕ
  count_from zero index store = index
  count_from (suc fuel) index store =
      let rest = count_from fuel (suc index) store in
      if not (has_both store (suc index)) then index else rest

  abbrev pub count : (fuel : ℕ) → Store D → ℕ
  count fuel store = count_from fuel 0 store

  -- The pair that is read, and its index.
  unfoldable pub latest : (fuel : ℕ) → Store D → Option D × Option D × ℕ
  unfolding count_from
  latest fuel store =
      let index = count fuel store in (store.port_plan index, store.test_plan index, index)

  unfoldable pub commit : (index : ℕ) (port tests : D) → Store D → Store D
  commit index port tests store = record {
    port_plan = λ i. if eqb i index then some port else store.port_plan i;
    test_plan = λ i. if eqb i index then some tests else store.test_plan i;
  }

-- A revision's file that `retire` moves to `superseded`.
pub record Moved (D : Type 0) : Type 0 where
  pub index : ℕ
  pub is_test_plan : Bool
  pub document : D

module _ {D : Type 0} where
  abbrev pub moved_file : (index : ℕ) (is_test_plan : Bool) → Option D → List (Moved D)
  moved_file index is_test_plan none = []
  moved_file index is_test_plan (some document) =
      record { index = index; is_test_plan = is_test_plan; document = document } ∷ []

  -- `for path in pair`
  unfoldable pub remove : (index : ℕ) → Store D → Store D
  remove index store = record {
    port_plan = λ i. if eqb i index then none else store.port_plan i;
    test_plan = λ i. if eqb i index then none else store.test_plan i;
  }

  -- The `while True` loop from `index`, for at most `fuel` rounds: what is left, and what is moved.
  unfoldable pub retire_from : (fuel index : ℕ) → Store D → Store D × List (Moved D)
  unfolding remove
  retire_from zero index store = (store, [])
  retire_from (suc fuel) index store =
      let port = store.port_plan (suc index) in
      let tests = store.test_plan (suc index) in
      let (left, moved) = retire_from fuel (suc index) (remove (suc index) store) in
      if not (exists port || exists tests)
      then (store, [])
      else (left, moved_file (suc index) false port ++ moved_file (suc index) true tests ++ moved)

  unfoldable pub retire : (fuel : ℕ) → Store D → Store D × List (Moved D)
  unfolding retire_from
  retire fuel store = retire_from fuel 0 store

-- An escalation; `resolved` is "" until a plan answers it.
pub record Escalation (B : Type 0) : Type 0 where
  pub body : B
  pub resolved : String

abbrev pub is_open : {B : Type 0} → Escalation B → Bool
is_open e = e.resolved == ""

-- The file of escalations is `none` before the first.
module _ {B : Type 0} where
  abbrev pub entries_of : Option (List (Escalation B)) → List (Escalation B)
  entries_of none = []
  entries_of (some entries) = entries

  unfoldable pub record_escalation :
      Escalation B → Option (List (Escalation B)) → Option (List (Escalation B))
  record_escalation entry file = some (entries_of file ++ entry ∷ [])

  unfoldable pub open_escalations : Option (List (Escalation B)) → List (Escalation B)
  open_escalations file = keep is_open (entries_of file)

  -- `n`, and the entries after the loop
  unfoldable pub mark_entries :
      (plan_stamp : String) → List (Escalation B) → ℕ × List (Escalation B)
  mark_entries stamp [] = (0, [])
  mark_entries stamp (e ∷ entries) =
      let (n, marked) = mark_entries stamp entries in
      if is_open e then (suc n, record e { resolved = stamp } ∷ marked) else (n, e ∷ marked)

  unfoldable pub clear_escalations :
      (plan_stamp : String) → Option (List (Escalation B)) → ℕ × Option (List (Escalation B))
  unfolding mark_entries
  clear_escalations stamp none = (0, none)
  clear_escalations stamp (some entries) =
      let (n, marked) = mark_entries stamp entries in
      (n, if eqb n 0 then some entries else some marked)
