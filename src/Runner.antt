-- ===== src/Runner.antt =====
-- The plan runner (loop/plan_runner.py): it runs what a test plan declares on a host and turns each
-- declared condition into a verdict for the gate. The host is a parameter, `Executor`, over a world
-- `S`; the file of a trace list and Python's `re` are parameters too.
pub mod Plan
pub mod Pointer
pub mod Conditions
pub mod Measure
pub mod Performance
pub mod Run
mod Tests
