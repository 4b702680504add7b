-- ===== src/Tests.antt =====
-- Runs of the services on tables held in memory, and the theorems at concrete inputs.
mod Samples
mod Predicting
mod Trading
mod Competing
mod Retrying
mod Ending
mod Indexing
mod Playing
mod Reporting
mod Rewarding
mod Moderating
