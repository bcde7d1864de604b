-- ===== src/Schedule.antt =====
-- The planner src/graph.rs and the model checker src/model_check.rs, on the protocols of
-- src/model.rs.
pub mod Protocol
pub mod Plan
pub mod Checker
pub mod Search
