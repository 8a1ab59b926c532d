-- ===== src/Controller.antt =====
-- portal/controller.py, class Controller: an incident becomes an issue, a session and a verdict.
pub mod Exec
pub mod Providers
pub mod Base
pub mod Dispatch
pub mod Polling
pub mod Verdicts
pub mod Media
pub mod Recording
pub mod Merging
pub mod Advance
pub mod Captures
pub mod Recovery
pub mod PullRequests
pub mod Releases
pub mod Considering
pub mod Once
mod Tests
