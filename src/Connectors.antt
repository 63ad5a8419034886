-- ===== src/Connectors.antt =====
-- The state of the shop connectors: src/onboarding/connector_state.py.
pub mod State
pub mod Machine
pub mod Refinement
pub mod Projections
pub mod Examples
