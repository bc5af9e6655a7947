-- ===== src/Classifier.antt =====
-- internal/integration/classifier: how a staged row gets its suggestion and its status.
pub mod Decision
pub mod Vote
pub mod Query
pub mod Tiers
pub mod Cards
pub mod Apply
pub mod Run
pub mod Refunds
