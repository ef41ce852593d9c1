-- ===== src/Tests.antt =====
-- Runs on concrete inputs.
pub mod Hooking
pub mod Kernels
pub mod Keys
pub mod Launching
pub mod Loading
pub mod NpuLaunch
pub mod Serving
pub mod Tables
pub mod Tuning
