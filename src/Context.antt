-- ===== src/Context.antt =====
-- Contexts, cli/context/store: names, the paths in an exported archive, its import and
-- export, and the store itself.
pub mod Names
pub mod Paths
pub mod Limited
pub mod Import
pub mod Export
pub mod Disk
pub mod Store
