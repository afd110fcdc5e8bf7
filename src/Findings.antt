-- ===== src/Findings.antt =====
-- Findings of the deterministic checks and the comparison of two rounds of them
-- (loop/spec_checks.py: `Finding`, `severity_counts`, `new_errors`, `is_worse`). `P` is the type of
-- a finding's pointer and `M` that of its message, which nothing here reads.
pub mod Fresh
pub mod Order
mod Tests
use paper_to_pipeline.Base.{
  ℕ, ◌+◌, String, Bool, true, false, Option, none, some, List, [], ◌∷◌, ◌&&◌, ◌||◌, not, keep,
  contains, is_empty, if◌then◌else◌, ltb, ◌==◌, Eq, string_eq, nat_eq, ◌≡◌, ◌↔◌, arith, &&_iff,
}
use paper_to_pipeline.Base.Dict.{Dict, get, put}

pub record Finding (P M : Type 0) : Type 0 where
  pub pointer : P
  pub code : String
  pub severity : String
  pub message : M

-- The dict key `(f.code, f.pointer)`.
pub record Key (P : Type 0) : Type 0 where
  pub code : String
  pub pointer : P

module _ {P : Type 0} ⦃e : Eq P⦄ where
  unfoldable pub key_beq : Key P → Key P → Bool
  key_beq a b = (a.code == b.code) && e.beq a.pointer b.pointer

  pub key_beq_iff : (a b : Key P) → (key_beq a b ≡ true) ↔ (a ≡ b)
  unfolding key_beq
  key_beq_iff a b = ground (arith, string_eq.decides a.code b.code, e.decides a.pointer b.pointer)

instance abbrev pub key_eq : {P : Type 0} ⦃e : Eq P⦄ → Eq (Key P)
key_eq = record { beq = key_beq; decides = key_beq_iff }

abbrev pub get_count : String → Dict ℕ → ℕ
get_count k d = elim (get k d) [ none ↦ 0 | some n ↦ n ]

module _ {P M : Type 0} where
  abbrev pub key : Finding P M → Key P
  key f = record { code = f.code; pointer = f.pointer }

  abbrev pub is_error : Finding P M → Bool
  is_error f = f.severity == "error"

  -- `plan_revision.blocking`
  unfoldable pub blocking : List (Finding P M) → List (Finding P M)
  blocking findings = keep is_error findings

  -- the loop of `severity_counts`, from the counts so far
  unfoldable pub counts_from : Dict ℕ → List (Finding P M) → Dict ℕ
  counts_from out [] = out
  counts_from out (f ∷ fs) = counts_from (put f.severity (get_count f.severity out + 1) out) fs

  unfoldable pub severity_counts : List (Finding P M) → Dict ℕ
  unfolding counts_from
  severity_counts findings = counts_from (("error", 0) ∷ ("warn", 0) ∷ ("info", 0) ∷ []) findings

  abbrev pub error_keys : List (Finding P M) → List (Key P)
  error_keys [] = []
  error_keys (f ∷ fs) = if is_error f then key f ∷ error_keys fs else error_keys fs

module _ {P M : Type 0} ⦃e : Eq P⦄ where
  -- the test of the loop of `new_errors`
  unfoldable pub is_fresh : List (Key P) → List (Key P) → Finding P M → Bool
  is_fresh had seen f = is_error f && not (contains had (key f)) && not (contains seen (key f))

  -- the loop of `new_errors`, with the keys of `had` and `seen`
  unfoldable pub unseen : List (Key P) → List (Key P) → List (Finding P M) → List (Finding P M)
  unseen had seen [] = []
  unseen had seen (f ∷ fs) =
      let taken = f ∷ unseen had (key f ∷ seen) fs in
      let passed = unseen had seen fs in if is_fresh had seen f then taken else passed

  unfoldable pub new_errors : List (Finding P M) → List (Finding P M) → List (Finding P M)
  unfolding unseen
  new_errors before after = unseen (error_keys before) [] after

  unfoldable pub is_worse : List (Finding P M) → List (Finding P M) → Bool
  is_worse before after =
      let b = severity_counts before in
      let a = severity_counts after in
      if ltb (get_count "error" b) (get_count "error" a) || not (is_empty (new_errors before after))
      then true
      else (get_count "error" a == get_count "error" b)
        && ltb (get_count "warn" b) (get_count "warn" a)
