-- ===== src/Auth.antt =====
-- src/modules/auth and src/shared/auth-middleware.
pub mod Row
pub mod Repository
pub mod Token
pub mod Account
pub mod Middleware
pub mod Rotation
pub mod Reset
pub mod Mfa
pub mod MagicLink
pub mod SecondFactor
pub mod Login
