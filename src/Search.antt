-- ===== src/Search.antt =====
-- Stage 4 (loop/dse.py): the header of a candidate (`params_header`), the proof that every knob
-- reaches the build (`preflight`), the choice of finalists (`select_finalists`) and the comparison of
-- the variants that were promoted (`compare_variants`).
pub mod Header
pub mod Preflight
pub mod Finalists
pub mod Scores
pub mod Compare
mod Tests
