-- ===== src/Linux.antt =====
-- internal/linux: host observation and guarded disk execution.
pub mod Files
pub mod Procfs
pub mod Sysfs
pub mod Devices
pub mod Observer
pub mod Root
pub mod Boundary
pub mod Execute
pub mod Controls
pub mod OpenedTarget
pub mod System
pub mod Machine
