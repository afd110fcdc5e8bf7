-- ===== src/Planning.antt =====
-- Stage 2 and the review of a revision: reading an agent's reply as a plan pair (loop/plan_node.py,
-- loop/helpers.py), judging it (`review` of loop/plan_revision.py), and writing a plan
-- (`make_plan`).
pub mod Calls
pub mod Reply
pub mod Review
pub mod Make
mod Tests
