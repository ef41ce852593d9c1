-- ===== src/Launch.antt =====
-- The launch path of include/triton_jit/triton_jit_function.h: `Buffer` is `ParameterBuffer`,
-- `Spec` the specialisation hints and type names of include/triton_jit/jit_utils.h, `Args` the
-- handler that turns arguments into a signature and a parameter buffer.
pub mod Buffer
pub mod Spec
pub mod Args
