-- ===== src/Router.antt =====
-- The inbound router: src/router.ts.
pub mod Engage
pub mod Deliver
pub mod Fanout
pub mod Inbound
pub mod Quiet
pub mod GateSteps
pub mod DeliverSteps
pub mod Denial
pub mod Safety
