-- ===== src/Auth.antt =====
-- app/services/auth_service.py and app/core/security.py: accounts, their one-time tokens, and the
-- sessions that access and refresh tokens stand for.
pub mod Library
pub mod Checks
pub mod Tokens
pub mod OneTime
pub mod Spend
pub mod Accounts
pub mod Services
pub mod History
pub mod Roles
pub mod SpentTokens
pub mod OneTimeUse
pub mod VerifyOnce
pub mod ResetLogin
pub mod Sessions
pub mod SingleUse
pub mod RoundTrip
pub mod Samples
mod Tests
mod AccountTests
