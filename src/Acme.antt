-- ===== src/Acme.antt =====
-- internal/acme: the challenge store and the provider that writes to it, the account, and the
-- manager of the certificate.
pub mod Challenge
pub mod Provider
pub mod Bags
pub mod Files
pub mod Types
pub mod Account
pub mod SelfSigned
pub mod Manager
pub mod Paths
pub mod Outcomes
pub mod Attempts
pub mod Serving
pub mod Restart
pub mod Retries
pub mod Frames
pub mod Keys
pub mod Registered
pub mod Accounts
pub mod Good
pub mod Renewal
pub mod Tests
pub mod Toy
pub mod ManagerTests
