-- ===== src/Template.antt =====
-- cli/compose/template/template.go: variable substitution in Compose files.
pub mod Pattern
pub mod Matching
pub mod Pieces
pub mod Functions
pub mod Substitute
pub mod Replace
pub mod Escape
pub mod Meaning
pub mod Braces
pub mod Extract
