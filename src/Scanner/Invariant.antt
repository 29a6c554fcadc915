-- ===== src/Scanner/Invariant.antt =====
-- What holds of the token scanner (src/scanner/mod.rs) between two operations.
pub mod Nesting
pub mod Live
pub mod Reaches
pub mod Insert
pub mod Indent
pub mod Closing
pub mod Sizes
pub mod Trivia
pub mod Entry
pub mod Content
pub mod Dispatch
pub mod Stream
pub mod Prefix
pub mod Control
pub mod Progress
pub mod Start
mod Tests
