-- ===== src/Accounts.antt =====
-- Accounts, passwords, tokens and guards: src/modules/user/user.service.ts, src/modules/auth, src/guards,
-- and the shared secrets of devices in src/modules/device. `bcrypt`, `crypto` and `@nestjs/jwt` are
-- parameters.
pub mod Passwords
pub mod Secrets
mod People
mod Users
mod Sessions
mod DeviceSecrets
unfoldable pub use People.*
unfoldable pub use Users.*
unfoldable pub use Sessions.*
unfoldable pub use DeviceSecrets.*
