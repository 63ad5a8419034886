-- ===== src/Decisions.antt =====
-- The readiness of decisions: src/intelligence/decisions.py and decision_models.py.
pub mod Frames
pub mod Registry
pub mod Evidence
pub mod Components
pub mod Contracts
pub mod Assessing
pub mod Required
pub mod Bar
pub mod Review
pub mod Handed
pub mod Examples
