-- ===== src/Shell.antt =====
-- The shell: shell/src and shell/include.
pub mod Parser
pub mod Log
pub mod Executor
pub mod Jobs
pub mod JobControl
pub mod Hop
pub mod Reveal
pub mod Run
pub mod Pipeline
pub mod Main
pub mod Session
pub mod Prompt
mod Tests
