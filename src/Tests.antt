-- ===== src/Tests.antt =====
-- Concrete inputs for the theorems, and runs of the model.
mod Sample
mod Monitor
mod Accounts
mod Edits
mod Tokens
mod Scheduler
mod People
mod Names
mod Signin
mod Firms
mod Births
mod Targets
