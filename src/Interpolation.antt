-- ===== src/Interpolation.antt =====
-- cli/compose/interpolation/interpolation.go: variables in a decoded document.
pub mod Value
pub mod Paths
pub mod Interpolate
