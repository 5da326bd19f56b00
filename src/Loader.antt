-- ===== src/Loader.antt =====
-- cli/compose/loader: the short syntaxes of a Compose file, and the merge of several files.
pub mod Volume
pub mod WindowsPaths
pub mod Merge
