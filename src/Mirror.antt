-- ===== src/Mirror.antt =====
-- internal/integration/sync.go, firefly_accounts_sync.go, fold_accounts_sync.go and
-- category_create.go: the mirror of
-- Firefly and of Fold's accounts in the database.
pub mod Amounts
pub mod Pages
pub mod Categories
pub mod Rows
pub mod Journals
pub mod Accounts
pub mod NewCategory
