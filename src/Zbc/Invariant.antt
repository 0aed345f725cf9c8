-- ===== src/Zbc/Invariant.antt =====
-- The invariant of the zoned device, and that every operation on a zone keeps it.
mod Defs
mod Ops
mod Places
mod Room
mod Open
mod Finish
mod Settling
pub use Defs.*
pub use Ops.*
pub use Finish.*
pub use Settling.*
pub use Open.*
pub use Room.*
pub use Places.*
