-- ===== src/Revision.antt =====
-- Stage 3's revisions of the plan pair (loop/plan_revision.py): the guard that compares a proposed
-- pair with the one in force, and the files that hold revisions and escalations.
pub mod Documents
pub mod Guard
pub mod Accepted
pub mod Chain
pub mod Store
