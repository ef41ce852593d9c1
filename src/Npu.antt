-- ===== src/Npu.antt =====
-- The Ascend NPU backend: `Types` is include/triton_jit/backends/npu_types.h, `Signature` and
-- `Buffer` are include/triton_jit/backends/npu_arg_buffer.h.
pub mod Types
pub mod Buffer
pub mod Signature
pub mod Agreement
pub mod Launch
pub mod Load
