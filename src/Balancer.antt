-- ===== src/Balancer.antt =====
-- The load balancer of automation_the_hard_way/orchestration/lb.
pub mod Backend
pub mod P2c
pub mod LoadBalancer
pub mod HealthChecks
pub mod Rpc
pub mod Client
mod Examples
