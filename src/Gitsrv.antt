-- ===== src/Gitsrv.antt =====
-- Package internal/gitsrv: what a push may ask for, and how a repository is named.
pub mod Quote
pub mod Repo
pub mod Ssh
pub mod Options
pub mod Retain
pub mod Result
