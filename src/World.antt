-- ===== src/World.antt =====
-- The world that the processes act on, and the monad of an operation with Go's `error`.
-- A World holds the Postgres tables (internal/db, migrations/) and the Redis keys that the program
-- uses. Every call of a driver takes one tick; the environment says for each tick what the clock
-- shows, whether the call fails, and whether the context is done. A call that fails has no effect.
pub mod Rows
pub mod Monad
pub mod Rules
pub mod Hoare
pub use Rows.*
pub use Monad.*
pub use Rules.*
pub use Hoare.*
