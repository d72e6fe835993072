-- ===== src/Orchestration.antt =====
-- The rollout of automation_the_hard_way/orchestration: its configuration, the actions on one
-- endpoint, and the workflow over all of them.
pub mod Config
pub mod Actions
pub mod Workflow
mod Examples
