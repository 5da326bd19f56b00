-- ===== src/Service.antt =====
-- cli/command/service/update.go: how `docker service update` edits the lists and maps of a service
-- specification.
pub mod Flags
pub mod Healthcheck
pub mod Lists
pub mod Slices
pub mod Hosts
pub mod Labels
pub mod Environment
pub mod Capabilities
pub mod Modes
pub mod Mounts
pub mod Networks
pub mod References
pub mod Resources
pub mod Configs
pub mod Ports
