-- ===== src/Repositories.antt =====
-- src/minion/repositories.py: the three repository objects over the database.
pub mod Tasks
pub mod Sessions
pub mod Environments
