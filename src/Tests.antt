-- ===== src/Tests.antt =====
-- Tests: the theorems at concrete inputs.
mod Fixtures
mod Routing
mod Passwords
mod SignIn
mod Sessions
mod Accounts
mod Contexts
mod Http
mod Config
mod Domain
mod Requests
mod Signals
mod Filing
