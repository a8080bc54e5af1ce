-- ===== src/Lsp.antt =====
-- src/lsp.rs: positions in a document, in the units of an agent, of the protocol and in bytes.
pub mod Positions
pub mod Lines
pub mod RoundTrip
pub mod Edits
pub mod Splices
pub mod Workspace
pub mod Preflight
mod Tests
