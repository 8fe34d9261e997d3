-- ===== src/Tests.antt =====
-- Runs of the definitions at concrete data, and the theorems at inputs that meet their hypotheses.
mod Naming
mod Policy
mod Linux
mod Host
mod Machine
mod Live
mod Staging
mod Engine
mod Image
