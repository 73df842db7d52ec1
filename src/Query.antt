-- ===== src/Query.antt =====
-- internal/query: expressions over tags and the expansion of saved searches.
pub mod Ast
pub mod Saved
pub mod Expansion
pub mod Nesting
mod Examples
