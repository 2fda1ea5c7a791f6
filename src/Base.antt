-- ===== src/Base.antt =====
-- The names that the other modules share: the libraries', passed on, and those of the children.
mod Names
mod Tests
mod Lists
mod Chunks
mod Every
pub mod Int
pub use Names.*
pub use Tests.*
pub use Lists.*
pub use Chunks.*
pub use Every.*
