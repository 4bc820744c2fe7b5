-- ===== src/Byoc.antt =====
-- redpanda/utils/byoc.go: running rpk's byoc plugin in a subprocess.
pub mod Client
pub mod Azure
pub mod Arguments
pub mod Logs
pub mod Run
mod Tests
