-- ===== src/Runtime.antt =====
-- What the Go code runs on: errors, the environment, the heap of objects, and the monad of one
-- goroutine.
mod Errors
mod Environment
mod State
mod Monad
mod Objects
mod Binds
mod Frames
pub use Errors.*
pub use Environment.*
pub use State.*
unfoldable pub use Monad.*
unfoldable pub use Objects.*
pub use Binds.*
pub use Frames.*
