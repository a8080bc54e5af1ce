-- ===== src/Git.antt =====
-- src/git.rs: reading the state of a repository through git's output.
pub mod Parse
pub mod Handlers
pub mod ReadOnly
mod Tests
