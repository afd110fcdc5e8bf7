-- ===== src/Findings/Tests.antt =====
-- Runs of the comparison of rounds, and its theorems at concrete rounds.
use paper_to_pipeline.Base.{
  ◌≡◌, refl, ◌↔◌, String, true, false, [], ◌∷◌, In, inl, string_eq, map, contains,
}
use paper_to_pipeline.Findings.{
  Finding, key, new_errors, is_worse, severity_counts, get_count, counts_from, unseen, is_fresh,
  key_beq, key_eq,
}
use paper_to_pipeline.Findings.Fresh.{IsNew, Distinct, new_errors-IsNew, new_errors_complete}
use paper_to_pipeline.Findings.Order.{
  NoWorse, number, severity_counts-number, is_worse-NoWorse, is_worse_trans,
}

abbrev finding : String → String → String → Finding String String
finding pointer code severity = record {
  pointer = pointer;
  code = code;
  severity = severity;
  message = "";
}

abbrev range_error : Finding String String
range_error = finding "/parameters/0" "param_range" "error"

abbrev storage_error : Finding String String
storage_error = finding "/resource_accounting" "storage_sum" "error"

abbrev loose_range : Finding String String
loose_range = finding "/parameters/0" "param_range" "warn"

opened : Unit {0}
unfolding is_worse new_errors severity_counts counts_from unseen is_fresh key_beq contains
opened = tt

-- One error traded for another is worse, though the counts agree.
is_worse-traded : is_worse (range_error ∷ []) (storage_error ∷ []) ≡ true
unfolding opened
is_worse-traded = refl

is_worse-fixed : is_worse (range_error ∷ []) (loose_range ∷ loose_range ∷ []) ≡ false
unfolding opened
is_worse-fixed = refl

is_worse-kept : is_worse (range_error ∷ storage_error ∷ []) (range_error ∷ []) ≡ false
unfolding opened
is_worse-kept = refl

new_errors-traded :
    new_errors (range_error ∷ []) (storage_error ∷ range_error ∷ storage_error ∷ [])
    ≡ storage_error ∷ []
unfolding opened
new_errors-traded = refl

new_errors-IsNew_example : IsNew (range_error ∷ []) (storage_error ∷ []) storage_error
unfolding opened
new_errors-IsNew_example =
    new_errors-IsNew (range_error ∷ []) (storage_error ∷ []) storage_error (inl refl)

new_errors_complete_example :
    ((f : Finding String String)
      → IsNew (range_error ∷ []) (storage_error ∷ []) f
      → (g : Finding String String) × In g (new_errors (range_error ∷ []) (storage_error ∷ []))
        × (key g ≡ key f))
    × Distinct (map key (new_errors (range_error ∷ []) (storage_error ∷ [])))
new_errors_complete_example = new_errors_complete (range_error ∷ []) (storage_error ∷ [])

severity_counts-number_example :
    get_count "error" (severity_counts (range_error ∷ loose_range ∷ []))
    ≡ number "error" (range_error ∷ loose_range ∷ [])
severity_counts-number_example = severity_counts-number "error" (range_error ∷ loose_range ∷ [])

is_worse-NoWorse_example :
    (is_worse (range_error ∷ []) (loose_range ∷ []) ≡ false)
    ↔ NoWorse (range_error ∷ []) (loose_range ∷ [])
is_worse-NoWorse_example = is_worse-NoWorse (range_error ∷ []) (loose_range ∷ [])

is_worse_trans_example :
    is_worse (range_error ∷ storage_error ∷ []) (loose_range ∷ loose_range ∷ []) ≡ false
unfolding opened
is_worse_trans_example =
    is_worse_trans (range_error ∷ storage_error ∷ []) (range_error ∷ [])
      (loose_range ∷ loose_range ∷ []) is_worse-kept is_worse-fixed
