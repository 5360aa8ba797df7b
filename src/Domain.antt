-- ===== src/Domain.antt =====
-- internal/domain: the entities that the layers exchange. A Go `type T string` with named constants
-- stays a text here, since any text can come in from a request or a row.
mod Errors
mod Monitoring
mod Notifying
mod Accounts
mod Pages
mod Stats
mod Public
pub use Errors.*
pub use Monitoring.*
pub use Notifying.*
pub use Accounts.*
pub use Pages.*
pub use Stats.*
pub use Public.*
