-- ===== src/Sequencing.antt =====
-- The sequencing of investigations: src/intelligence/sequencing.py and sequencing_models.py.
pub mod Sources
pub mod Graph
pub mod Validation
pub mod Items
pub mod Contracts
pub mod Leverage
pub mod Sequence
pub mod Portfolio
pub mod Safety
pub mod Building
pub mod Keyed
pub mod Indexed
pub mod Cleaned
pub mod Built
pub mod Affected
pub mod Linked
pub mod Followed
pub mod Accepted
pub mod Reference
pub mod Breadth
pub mod Ranking
pub mod Ordered
pub mod Recommendation
pub mod Resolved
pub mod Lookups
pub mod Gathered
pub mod Total
pub mod Sample
pub mod Examples
