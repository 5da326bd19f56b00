-- ===== src/Opts.antt =====
-- The package opts: the values of command line options.
pub mod Capabilities
pub mod Devices
pub mod ListOpts
pub mod Mounts
