-- ===== src/Review.antt =====
-- internal/integration/ui: the cards that wait for a person, and the order in which they come.
pub mod Card
pub mod Memo
pub mod Deck
pub mod Actions
