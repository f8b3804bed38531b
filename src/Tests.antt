-- ===== src/Tests.antt =====
-- Runs of the models on concrete values, and the theorems at such values.
pub mod Sorting
pub mod Whole
pub mod Values
pub mod Roads
pub mod Sessions
pub mod Games
pub mod Requests
pub mod Pools
pub mod Servers
pub mod Configs
pub mod Texts
pub mod Tokens
pub mod Programs
pub mod Tables
pub mod Rounds
pub mod Threads
