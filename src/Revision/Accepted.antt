-- ===== src/Revision/Accepted.antt =====
-- What a revision without a blocking finding keeps (loop/plan_revision.py, `guard`), stated of the
-- two plan pairs with no mention of findings.
mod Entries
mod Rules
mod Tables
mod Whole
pub use Entries.{EntryKept, CollectionKept}
pub use Rules.{Same, Covers, baseline_bits}
pub use Tables.{RunKept, AlternativeKept}
pub use Whole.{identity_fields, plan_rules, test_rules, FieldsKept, guard-FieldsKept}
