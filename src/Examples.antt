-- ===== src/Examples.antt =====
-- Runs of the models on concrete inputs, at which the theorems apply.
mod Brokers
mod Servers
mod Types
mod Pushes
mod Repeats
mod Syncs
mod Decks
mod Classifiers
mod Refunds
mod Actions
mod Calls
mod Mirrors
