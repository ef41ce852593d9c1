-- ===== src/Tuned.antt =====
-- Tables of tuned configurations: src/tuned_config.cpp, include/triton_jit/tuned_config.h.
pub mod Key
pub mod Load
pub mod Fingerprint
pub mod Config
pub mod Rows
pub mod Table
pub mod Resolve
