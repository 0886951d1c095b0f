-- ===== src/Prelude/Program.antt =====
-- A Go function that talks to the outside world, as a function of the calls made so far. What the
-- world answers may depend on all of them. `E` is the type of recorded calls, newest first; `R` is
-- what the function returns early; a panic ends it as well.
mod Defs
mod Rules
mod Total
unfoldable pub use Defs.*
pub use Rules.*
pub use Total.*
