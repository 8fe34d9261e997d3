-- ===== src/Policy.antt =====
-- internal/policy: pure fail-closed decisions on a disk, an image and an observed host.
pub mod Model
pub mod Confirmation
pub mod Inspect
