-- ===== src/Constraints.antt =====
-- The knobs of a candidate, the header that sets them, and the constraints on what it costs
-- (loop/constraints.py, with `parse_range` of loop/spec_checks.py).
pub mod Ranges
pub mod Knobs
pub mod Header
pub mod Formulas
pub mod Storage
pub mod Static
