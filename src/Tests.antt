-- ===== src/Tests.antt =====
-- Runs of the modelled code on concrete inputs, and the theorems at inputs that meet their hypotheses.
mod Template
mod Service
mod Opts
mod Loader
mod Interpolation
mod Mounts
mod Progress
mod Monitor
mod Config
mod Context
