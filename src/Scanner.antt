-- ===== src/Scanner.antt =====
pub mod CharClass
pub mod Reader
pub mod Outcome
pub mod Quoted
pub mod Printable
pub mod Runs
pub mod Source
pub mod Block
pub mod Plain
pub mod Token
pub mod State
pub mod Fetch
pub mod Invariant
mod Tests
